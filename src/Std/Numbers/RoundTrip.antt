-- ===== src/Std/Numbers/RoundTrip.antt =====
-- What a stream prints, `stoul` and `stol` read back.
use laser_control.Common.{
  ℕ, zero, suc, ◌+◌, ◌-◌, ◌/◌, ◌%◌, ◌^◌, ◌<◌, ◌≡◌, refl, sym, ◌∙◌, true, false, none, some, [], ◌∷◌,
  ◌++◌, append-nil, arith, Bytes, codes, ltb, inl, inr, Bool-cases,
}
use laser_control.Common.Int.{ℤ, pos, negsuc, IsI32}
use laser_control.Effects.{ok, err, invalid_argument}
use laser_control.Std.Numbers.{
  digits, show, show_ℤ, show_width3, digit, accumulate, magnitude, skip_prefix, signed_part,
  skip_space, strto, stoul_base, stoul, stol,
}

-- No decimal digit stands at the head of the text.
abbrev pub EndsNumber : Bytes → Type 0
EndsNumber [] = Unit
EndsNumber (c ∷ s) = digit 10 c ≡ none

digit_decimal : (n : ℕ) → n < 10 → digit 10 (b'0' + n) ≡ some n
unfolding digit
digit_decimal n h = ground arith

digits-append : (f n : ℕ) (out rest : Bytes) → digits f n (out ++ rest) ≡ digits f n out ++ rest
unfolding digits
digits-append zero n out rest = refl
digits-append (suc f) n out rest =
    ground (arith, digits-append f (n / 10) ((b'0' + n % 10) ∷ out) rest)

accumulate-digits :
    (f n : ℕ) (out : Bytes) → n < f → accumulate 10 0 (digits f n out) ≡ accumulate 10 n out
unfolding accumulate digits
accumulate-digits zero n out h = absurd (omega arith)
accumulate-digits (suc f) n out h = ground (
  arith,
  digit_decimal n,
  digit_decimal (n % 10),
  accumulate-digits f (n / 10) ((b'0' + n % 10) ∷ out),
)

-- The first byte of a print is a digit.
digits_head :
    (f n : ℕ) (out : Bytes)
    → n < f
    → (d : ℕ) × (t : Bytes) × (digits f n out ≡ (b'0' + d) ∷ t) × (d < 10)
unfolding digits
digits_head zero n out h = absurd (omega arith)
digits_head (suc f) n out h = elim (Bool-cases (ltb n 10)) [
  | inl small ↦ (n, out, ground arith, ground arith)
  | inr large ↦
      let (d, t, e, l) = digits_head f (n / 10) ((b'0' + n % 10) ∷ out) (ground arith) in
      (d, t, rw large e, l)
]

accumulate_ends : (n : ℕ) (s : Bytes) → EndsNumber s → accumulate 10 n s ≡ n
unfolding accumulate
accumulate_ends n [] h = refl
accumulate_ends n (c ∷ s) h = ground arith

-- There is no prefix in base 10.
pub skip_prefix_decimal : (s : Bytes) → skip_prefix 10 s ≡ s
unfolding skip_prefix
skip_prefix_decimal [] = refl
skip_prefix_decimal (z ∷ []) = refl
skip_prefix_decimal (z ∷ x ∷ s) = ground arith

accumulate_first :
    (d : ℕ) (t : Bytes) → d < 10 → accumulate 10 0 ((b'0' + d) ∷ t) ≡ accumulate 10 d t
unfolding accumulate
accumulate_first d t h = ground (arith, digit_decimal d h)

magnitude_digit :
    (d : ℕ) (t : Bytes)
    → d < 10
    → magnitude 10 ((b'0' + d) ∷ t) ≡ some (accumulate 10 0 ((b'0' + d) ∷ t))
unfolding magnitude
magnitude_digit d t h = ground (arith, digit_decimal d h, accumulate_first d t h)

-- A print begins with a digit, whatever follows it.
pub show_head :
    (n : ℕ) (rest : Bytes) → (d : ℕ) × (t : Bytes) × (show n ++ rest ≡ (b'0' + d) ∷ t) × (d < 10)
unfolding show
show_head n rest =
    let (d, t, e, l) = digits_head (suc n) n rest (omega arith) in
    (d, t, sym (digits-append (suc n) n [] rest) ∙ e, l)

accumulate-show : (n : ℕ) (rest : Bytes) → EndsNumber rest → accumulate 10 0 (show n ++ rest) ≡ n
unfolding show
accumulate-show n rest ends =
    rw (← digits-append (suc n) n [] rest, accumulate-digits (suc n) n rest (omega arith))
      (accumulate_ends n rest ends)

pub magnitude-show :
    (n : ℕ) (rest : Bytes) → EndsNumber rest → magnitude 10 (show n ++ rest) ≡ some n
magnitude-show n rest ends =
    let (d, t, e, l) = show_head n rest in
    rw (e, magnitude_digit d t l, ← e, accumulate-show n rest ends)

-- A text that begins with a digit has no sign, and nothing to skip.
strto_digit :
    (d : ℕ) (t : Bytes)
    → d < 10
    → strto 10 ((b'0' + d) ∷ t) ≡ (false, magnitude 10 ((b'0' + d) ∷ t))
unfolding strto skip_space signed_part
strto_digit d t h = ground (arith, skip_prefix_decimal ((b'0' + d) ∷ t))

strto_minus : (s : Bytes) → strto 10 (b'-' ∷ s) ≡ (true, magnitude 10 s)
unfolding strto skip_space signed_part
strto_minus s = rw (skip_prefix_decimal s)

strto-show : (n : ℕ) (rest : Bytes) → EndsNumber rest → strto 10 (show n ++ rest) ≡ (false, some n)
strto-show n rest ends =
    let (d, t, e, l) = show_head n rest in
    rw (e, strto_digit d t l, ← e, magnitude-show n rest ends)

-- Every `unsigned long` is read back from its print, whatever follows that is no digit.
pub stoul-show :
    (n : ℕ) (rest : Bytes) → n < 2 ^ 64 → EndsNumber rest → stoul (show n ++ rest) ≡ ok n
unfolding stoul
stoul-show n rest h ends = rw (strto-show n rest ends) (ground arith)

pub stoul-show_all : (n : ℕ) → n < 2 ^ 64 → stoul (show n) ≡ ok n
stoul-show_all n h = rw (append-nil (show n)) at (stoul-show n [] h tt)

pub stol-show :
    (n : ℕ) (rest : Bytes) → n < 2 ^ 63 → EndsNumber rest → stol (show n ++ rest) ≡ ok (pos n)
unfolding stol
stol-show n rest h ends = rw (strto-show n rest ends) (ground arith)

pub stol-show_ℤ :
    (a : ℤ) (rest : Bytes) → IsI32 a → EndsNumber rest → stol (show_ℤ a ++ rest) ≡ ok a
stol-show_ℤ (pos n) rest h ends = unfold show_ℤ in stol-show n rest (omega arith) ends
stol-show_ℤ (negsuc n) rest h ends =
    unfold stol show_ℤ in
    rw (strto_minus (show (suc n) ++ rest), magnitude-show (suc n) rest ends) (ground arith)

pub stol-show_all : (n : ℕ) → n < 2 ^ 63 → stol (show n) ≡ ok (pos n)
stol-show_all n h = rw (append-nil (show n)) at (stol-show n [] h tt)

pub stol-show_ℤ_all : (a : ℤ) → IsI32 a → stol (show_ℤ a) ≡ ok a
stol-show_ℤ_all a h = rw (append-nil (show_ℤ a)) at (stol-show_ℤ a [] h tt)

stoul_tests :
    (stoul (codes " -5;") ≡ ok (2 ^ 64 - 5))
    × (stoul (codes "007 8") ≡ ok 7)
    × (stoul_base 16 (codes "0x80000003") ≡ ok 0x80000003)
    × (stol (codes "-43") ≡ ok (negsuc 42))
    × (stoul [] ≡ err invalid_argument)
    × (show 1203 ≡ codes "1203")
    × (show_width3 7 ≡ codes "007")
unfolding stoul stoul_base stol show show_width3
stoul_tests = (refl, refl, refl, refl, refl, refl, refl)
