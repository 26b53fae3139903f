-- ===== src/Util/Tokens/Numbers.antt =====
-- A printed number holds no separator, so numbers are fields of a line.
use laser_control.Common.{
  ℕ, zero, suc, ◌+◌, ◌/◌, ◌%◌, ◌<◌, ◌≡◌, refl, ◌⊎◌, none, [], ◌∷◌, arith, Bytes,
}
use laser_control.Common.Int.{ℤ, pos, negsuc}
use laser_control.Std.Strings.{starts_with, find}
use laser_control.Std.Numbers.{digits, show, show_ℤ}

-- The byte is neither a digit nor a minus sign.
abbrev pub IsSeparator : ℕ → Type 0
IsSeparator p = (p < b'-') ⊎ (b'9' < p)

find-cons :
    (p c : ℕ) (s : Bytes)
    → IsSeparator p
    → (b'-' < c + 1) × (c < b'9' + 1)
    → find (p ∷ []) s ≡ none
    → find (p ∷ []) (c ∷ s) ≡ none
unfolding find starts_with
find-cons p c s sep range h = ground arith

find-digits :
    (p f n : ℕ) (out : Bytes)
    → IsSeparator p
    → find (p ∷ []) out ≡ none
    → find (p ∷ []) (digits f n out) ≡ none
unfolding digits
find-digits p zero n out sep h = h
find-digits p (suc f) n out sep h = ground (
  arith,
  find-cons p (b'0' + n) out,
  find-cons p (b'0' + n % 10) out,
  find-digits p f (n / 10) ((b'0' + n % 10) ∷ out),
)

pub find-show : (p n : ℕ) → IsSeparator p → find (p ∷ []) (show n) ≡ none
unfolding show find starts_with
find-show p n sep = find-digits p (suc n) n [] sep refl

pub find-show_ℤ : (p : ℕ) (a : ℤ) → IsSeparator p → find (p ∷ []) (show_ℤ a) ≡ none
unfolding show_ℤ
find-show_ℤ p (pos n) sep = find-show p n sep
find-show_ℤ p (negsuc n) sep =
    find-cons p b'-' (show (suc n)) sep (omega arith) (find-show p (suc n) sep)
