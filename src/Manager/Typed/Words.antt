-- ===== src/Manager/Typed/Words.antt =====
-- The words of a typed line are those it was put together from.
use laser_control.Common.{
  ◌≡◌, ◌∙◌, ◌++◌, append-nil, refl, Bool, true, false, Option-cases, inr, ℕ, none, some, inl, List,
  [], ◌∷◌, Bytes, codes, arith,
}
use laser_control.Common.Int.{ℤ, pos, negsuc}
use laser_control.Std.Strings.{find}
use laser_control.Std.Numbers.{show, show_ℤ}
use laser_control.Std.Numbers.RoundTrip.{show_head}
use laser_control.Util.Tokens.{AllLack}
use laser_control.Util.Tokens.RoundTrip.{line_of, tokenize_string-line_of}
use laser_control.Util.Tokens.Numbers.{find-show_ℤ}
use laser_control.Manager.Words.{command_words}
use laser_control.Manager.Words.Tokens.{drop_empty, command_words-tokenize_string}
use laser_control.Manager.Typed.{Setting, spelled, words, typed}

-- Words without spaces, none of them empty, are read as they were typed.
command_words-line_of :
    (ts : List Bytes)
    → AllLack (codes " ") ts
    → drop_empty ts ≡ ts
    → command_words (line_of b' ' ts) ≡ ts
command_words-line_of [] lacks full = unfold command_words in refl
command_words-line_of (t ∷ ts) lacks full =
    command_words-tokenize_string (line_of b' ' (t ∷ ts))
    ∙ (rw (tokenize_string-line_of b' ' t ts lacks) full)

-- A printed number is a word.
drop_empty-show : (n : ℕ) → drop_empty (show n ∷ []) ≡ show n ∷ []
drop_empty-show n = let (d, t, e, l) = show_head n [] in rw (rw (append-nil (show n)) at e) refl

drop_empty-show_ℤ : (z : ℤ) → drop_empty (show_ℤ z ∷ []) ≡ show_ℤ z ∷ []
unfolding show_ℤ
drop_empty-show_ℤ (pos n) = drop_empty-show n
drop_empty-show_ℤ (negsuc n) = refl

-- None of the words is empty or holds a space.
abbrev is_clean : List Bytes → Bool
is_clean [] = true
is_clean ([] ∷ ts) = false
is_clean ((c ∷ t) ∷ ts) = elim (find (codes " ") (c ∷ t)) [ none ↦ is_clean ts | some i ↦ false ]

spelled_clean : (k : Setting) → is_clean (spelled k) ≡ true
unfolding find
spelled_clean Setting.prescale = refl
spelled_clean Setting.division = refl
spelled_clean Setting.qswitch = refl
spelled_clean Setting.move = refl
spelled_clean Setting.move_to = refl
spelled_clean Setting.resolution = refl
spelled_clean Setting.idle_current = refl
spelled_clean Setting.move_current = refl
spelled_clean Setting.acceleration = refl
spelled_clean Setting.deceleration = refl
spelled_clean Setting.max_speed = refl
spelled_clean Setting.wavelength = refl
spelled_clean Setting.average = refl
spelled_clean Setting.measurement_mode = refl
spelled_clean Setting.threshold = refl

is_clean-AllLack :
    (ts : List Bytes) (t : Bytes)
    → is_clean ts ≡ true
    → find (codes " ") t ≡ none
    → drop_empty (t ∷ []) ≡ t ∷ []
    → AllLack (codes " ") (ts ++ t ∷ []) × (drop_empty (ts ++ t ∷ []) ≡ ts ++ t ∷ [])
is_clean-AllLack [] t clean lacks full = ((lacks, tt), full)
is_clean-AllLack ([] ∷ ts) t clean lacks full = ground arith
is_clean-AllLack ((c ∷ u) ∷ ts) t clean lacks full =
    elim (Option-cases (find (codes " ") (c ∷ u))) [
      | inl e ↦ ground (arith, e, is_clean-AllLack ts t)
      | inr (i, e) ↦ ground (arith, e)
    ]

pub command_words-typed : (k : Setting) (z : ℤ) → command_words (typed k z) ≡ words k z
command_words-typed k z =
    let number = find-show_ℤ b' ' z (inl (omega arith)) in
    let (lack, full) =
      is_clean-AllLack (spelled k) (show_ℤ z) (spelled_clean k) number (drop_empty-show_ℤ z) in
    command_words-line_of (words k z) lack full
