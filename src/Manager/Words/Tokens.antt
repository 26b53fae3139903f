-- ===== src/Manager/Words/Tokens.antt =====
-- The words of a line, described by `tokenize_string`.
use laser_control.Common.{
  ℕ, zero, suc, ◌≤◌, ◌⊎◌, inl, inr, Bool-cases, false, ◌≡◌, refl, List, [], ◌∷◌, arith, Bytes,
  codes, length, ◌==◌, if◌then◌else◌,
}
use laser_control.Std.Strings.{find, starts_with}
use laser_control.Util.Tokens.{tokenize_string, AllLack}
use laser_control.Util.Tokens.RoundTrip.{line_of, tokenize_string-line_of}
use laser_control.Manager.Words.{count_words, skip_spaces, first_token, strtok, fill, command_words}

-- The tokens that are not empty.
abbrev pub drop_empty : List Bytes → List Bytes
drop_empty [] = []
drop_empty ([] ∷ ts) = drop_empty ts
drop_empty ((c ∷ t) ∷ ts) = (c ∷ t) ∷ drop_empty ts

-- The part before the first space, and the parts behind it.
fields : Bytes → Bytes × List Bytes
fields [] = ([], [])
fields (c ∷ s) = let (t, ts) = fields s in if c == b' ' then ([], t ∷ ts) else (c ∷ t, ts)

abbrev all_fields : Bytes → List Bytes
all_fields s = (fields s).0 ∷ (fields s).1

line_of-cons :
    (p c : ℕ) (t : Bytes) (ts : List Bytes) → line_of p ((c ∷ t) ∷ ts) ≡ c ∷ line_of p (t ∷ ts)
line_of-cons p c t [] = refl
line_of-cons p c t (u ∷ us) = refl

line_of-fields : (s : Bytes) → line_of b' ' (all_fields s) ≡ s
unfolding fields
line_of-fields [] = refl
line_of-fields (c ∷ s) =
    ground (arith, line_of-fields s, line_of-cons b' ' c (fields s).0 (fields s).1)

fields_lack : (s : Bytes) → AllLack (codes " ") (all_fields s)
unfolding fields find starts_with
fields_lack [] = ground arith
fields_lack (c ∷ s) = ground (arith, fields_lack s)

skip_spaces-fields :
    (s : Bytes) → drop_empty (all_fields (skip_spaces s)) ≡ drop_empty (all_fields s)
unfolding fields skip_spaces
skip_spaces-fields [] = refl
skip_spaces-fields (c ∷ s) = ground (arith, skip_spaces-fields s)

first_token-fields :
    (s : Bytes)
    → ((first_token s).0 ≡ (fields s).0)
      × (drop_empty (all_fields (first_token s).1) ≡ drop_empty (fields s).1)
unfolding fields first_token
first_token-fields [] = (refl, refl)
first_token-fields (c ∷ s) = ground (arith, first_token-fields s)

count_words-fields : (s : Bytes) → length (all_fields s) ≤ count_words s
unfolding fields count_words
count_words-fields [] = ground arith
count_words-fields (c ∷ s) = ground (arith, count_words-fields s)

length-drop_empty : (ts : List Bytes) → length (drop_empty ts) ≤ length ts
length-drop_empty [] = omega arith
length-drop_empty ([] ∷ ts) = omega (arith, length-drop_empty ts)
length-drop_empty ((c ∷ t) ∷ ts) = omega (arith, length-drop_empty ts)

-- What is left after the spaces is empty, or begins with the byte of a word.
skip_spaces-head :
    (s : Bytes)
    → (skip_spaces s ≡ [])
      ⊎ ((c : ℕ) × (s' : Bytes) × (skip_spaces s ≡ c ∷ s') × ((c == b' ') ≡ false))
unfolding skip_spaces
skip_spaces-head [] = inl refl
skip_spaces-head (c ∷ s) = elim (Bool-cases (c == b' ')) [
  | inl e ↦ rw e (skip_spaces-head s)
  | inr e ↦ rw e (inr (c, s, refl, e))
]

fill-fields :
    (n : ℕ) (s : Bytes)
    → length (drop_empty (all_fields s)) ≤ n
    → fill n s ≡ drop_empty (all_fields s)
unfolding fill strtok fields first_token
fill-fields zero s h = ground arith
fill-fields (suc n) s h = elim (skip_spaces-head s) [
  | inl e ↦ ground (arith, e, skip_spaces-fields s)
  | inr (c, s', e, word) ↦ ground (
    arith,
    e,
    word,
    skip_spaces-fields s,
    first_token-fields s',
    fill-fields n (first_token s').1,
  )
]

-- The words of a command are the tokens of the line at its spaces that are not empty: `strtok` and
-- the array of the counted size lose none.
pub command_words-tokenize_string :
    (line : Bytes) → command_words line ≡ drop_empty (tokenize_string line (codes " "))
unfolding command_words
command_words-tokenize_string line =
    let tokens : tokenize_string line (codes " ") ≡ all_fields line =
      rw (line_of-fields line) at
        (tokenize_string-line_of b' ' (fields line).0 (fields line).1 (fields_lack line)) in
    rw tokens (
      fill-fields (count_words line) line
        (omega (arith, count_words-fields line, length-drop_empty (all_fields line))))
