-- ===== src/Std/Numbers/Auto/RoundTrip.antt =====
-- What a stream prints, `strtol` with base 0 reads back.
use laser_control.Common.{
  ℕ, zero, suc, ◌+◌, ◌/◌, ◌%◌, ◌^◌, ◌≤◌, ◌<◌, ◌≡◌, refl, true, false, some, [], ◌∷◌, append-nil,
  arith, Bytes, ltb, inl, inr, Bool-cases, Option-cases,
}
use laser_control.Common.Int.{ℤ, pos, negsuc, neg_part, pos_part}
use laser_control.Std.Numbers.{digits, digit, accumulate, show, show_ℤ, magnitude, skip_space}
use laser_control.Std.Numbers.Auto.{strtol, prefix_base, auto_magnitude, auto_signed}
use laser_control.Std.Numbers.RoundTrip.{magnitude-show, skip_prefix_decimal}

-- The first byte of a print is no zero, unless the number is.
digits_first :
    (f n : ℕ) (out : Bytes)
    → n < f
    → 0 < n
    → (d : ℕ) × (t : Bytes) × (digits f n out ≡ (b'0' + d) ∷ t) × (0 < d) × (d < 10)
unfolding digits
digits_first zero n out h k = absurd (omega arith)
digits_first (suc f) n out h k = elim (Bool-cases (ltb n 10)) [
  | inl small ↦ (n, out, ground arith, k, ground arith)
  | inr large ↦
      let (d, t, e, l, u) =
        digits_first f (n / 10) ((b'0' + n % 10) ∷ out) (ground arith) (ground arith) in
      (d, t, rw large e, l, u)
]

prefix_base_decimal : (d : ℕ) (t : Bytes) → 0 < d → d < 10 → prefix_base ((b'0' + d) ∷ t) ≡ 10
unfolding prefix_base
prefix_base_decimal d [] l u = ground arith
prefix_base_decimal d (x ∷ s) l u = elim (Option-cases (magnitude 16 s)) [
  | inl e ↦ ground (arith, e)
  | inr (v, e) ↦ ground (arith, e)
]

auto_signed_digit :
    (d : ℕ) (t : Bytes)
    → 0 < d
    → d < 10
    → auto_signed (skip_space ((b'0' + d) ∷ t)) ≡ (false, magnitude 10 ((b'0' + d) ∷ t))
unfolding auto_signed skip_space auto_magnitude
auto_signed_digit d t l u =
    ground (arith, prefix_base_decimal d t l u, skip_prefix_decimal ((b'0' + d) ∷ t))

-- Every number below 2 ^ 63 is read back from its print.
pub strtol-show : (n : ℕ) → n < 2 ^ 63 → strtol (show n) ≡ pos n
unfolding strtol show
strtol-show zero h =
    unfold digits digit accumulate auto_signed auto_magnitude magnitude prefix_base skip_space in
    refl
strtol-show (suc n) h =
    let (d, t, e, l, u) = digits_first (suc (suc n)) (suc n) [] (omega arith) (omega arith) in
    let m : magnitude 10 ((b'0' + d) ∷ t) ≡ some (suc n) =
      rw (append-nil (show (suc n)), e) at (magnitude-show (suc n) [] tt) in
    rw (e, auto_signed_digit d t l u, m) (ground arith)

auto_signed_minus :
    (d : ℕ) (t : Bytes)
    → 0 < d
    → d < 10
    → auto_signed (skip_space (b'-' ∷ (b'0' + d) ∷ t)) ≡ (true, magnitude 10 ((b'0' + d) ∷ t))
unfolding auto_signed skip_space auto_magnitude
auto_signed_minus d t l u =
    ground (arith, prefix_base_decimal d t l u, skip_prefix_decimal ((b'0' + d) ∷ t))

-- The number fits in a `long`.
abbrev pub IsI64 : ℤ → Type 0
IsI64 a = (neg_part a ≤ 2 ^ 63) × (pos_part a < 2 ^ 63)

-- Every `long` is read back from its print.
pub strtol-show_ℤ : (a : ℤ) → IsI64 a → strtol (show_ℤ a) ≡ a
unfolding show_ℤ
strtol-show_ℤ (pos n) h = strtol-show n h.1
strtol-show_ℤ (negsuc n) h =
    unfold strtol show in
    let (d, t, e, l, u) = digits_first (suc (suc n)) (suc n) [] (omega arith) (omega arith) in
    let m : magnitude 10 ((b'0' + d) ∷ t) ≡ some (suc n) =
      rw (append-nil (show (suc n)), e) at (magnitude-show (suc n) [] tt) in
    rw (e, auto_signed_minus d t l u, m) (ground arith)
