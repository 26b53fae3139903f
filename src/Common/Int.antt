-- ===== src/Common/Int.antt =====
-- Signed integers over the native numbers, and the wrap-around of the machine's signed types.
use Prim.Native.Nat.{ℕ, suc, ◌+◌, ◌-◌, ◌/◌, ◌%◌, ◌^◌, ◌≤◌, ◌<◌}
use mathlib.Core.Path.{◌≡◌}
use mathlib.Core.Bool.{Bool, false}
use native.Mathlib.Omega.{arith}
use laser_control.Common.Tests.{ltb, leb, ◌==◌, if◌then◌else◌}

-- `negsuc n` is -(n + 1).
pub data ℤ : Type 0 where
  pos : ℕ → ℤ
  negsuc : ℕ → ℤ

abbrev pub pos_part : ℤ → ℕ
pos_part (pos n) = n
pos_part (negsuc n) = 0

abbrev pub neg_part : ℤ → ℕ
neg_part (pos n) = 0
neg_part (negsuc n) = suc n

-- a - b, as an integer.
abbrev pub sub_ℕ : ℕ → ℕ → ℤ
sub_ℕ a b = if leb b a then pos (a - b) else negsuc (b - a - 1)

infixl 65 ◌+ℤ◌ ◌-ℤ◌
infix 50 ◌≤ℤ◌
unfoldable pub ◌+ℤ◌ : ℤ → ℤ → ℤ
a +ℤ b = sub_ℕ (pos_part a + pos_part b) (neg_part a + neg_part b)

unfoldable pub ◌-ℤ◌ : ℤ → ℤ → ℤ
a -ℤ b = sub_ℕ (pos_part a + neg_part b) (neg_part a + pos_part b)

abbrev pub ◌≤ℤ◌ : ℤ → ℤ → Type 0
a ≤ℤ b = pos_part a + neg_part b ≤ pos_part b + neg_part a

abbrev pub ltb_ℤ : ℤ → ℤ → Bool
ltb_ℤ a b = ltb (pos_part a + neg_part b) (pos_part b + neg_part a)

abbrev pub is_zero : ℤ → Bool
is_zero (pos n) = n == 0
is_zero (negsuc n) = false

-- The two's complement pattern of `a` in `2 ^ w` values, for `m = 2 ^ w`.
unfoldable pub to_unsigned : ℕ → ℤ → ℕ
to_unsigned m (pos n) = n % m
to_unsigned m (negsuc n) = m - 1 - n % m

-- The integer that a pattern below `m` stands for.
unfoldable pub to_signed : ℕ → ℕ → ℤ
to_signed m u = if ltb u (m / 2) then pos u else negsuc (m - u - 1)

-- Conversion to `int32_t` and `int16_t`.
unfoldable pub wrap_i32 : ℤ → ℤ
unfolding to_unsigned to_signed
wrap_i32 a = to_signed (2 ^ 32) (to_unsigned (2 ^ 32) a)

unfoldable pub wrap_i16 : ℤ → ℤ
unfolding to_unsigned to_signed
wrap_i16 a = to_signed (2 ^ 16) (to_unsigned (2 ^ 16) a)

abbrev pub IsI32 : ℤ → Type 0
IsI32 a = (neg_part a ≤ 2 ^ 31) × (pos_part a < 2 ^ 31)

abbrev pub IsI16 : ℤ → Type 0
IsI16 a = (neg_part a ≤ 2 ^ 15) × (pos_part a < 2 ^ 15)

-- A 32-bit number without a sign.
abbrev pub IsU32 : ℤ → Type 0
IsU32 a = (neg_part a ≤ 0) × (pos_part a < 2 ^ 32)

-- In range the conversion changes nothing.
pub wrap_i32_id : (a : ℤ) → IsI32 a → wrap_i32 a ≡ a
unfolding wrap_i32
wrap_i32_id (pos n) h = ground arith
wrap_i32_id (negsuc n) h = ground arith

pub wrap_i32-IsI32 : (a : ℤ) → IsI32 (wrap_i32 a)
unfolding wrap_i32
wrap_i32-IsI32 (pos n) = ground arith
wrap_i32-IsI32 (negsuc n) = ground arith

-- The parts of a sum and of a difference, for `omega`.
+ℤ_parts :
    (a b : ℤ)
    → pos_part (a +ℤ b) + neg_part a + neg_part b ≡ neg_part (a +ℤ b) + pos_part a + pos_part b
unfolding ◌+ℤ◌
+ℤ_parts a b = ground arith

-ℤ_parts :
    (a b : ℤ)
    → pos_part (a -ℤ b) + neg_part a + pos_part b ≡ neg_part (a -ℤ b) + pos_part a + neg_part b
unfolding ◌-ℤ◌
-ℤ_parts a b = ground arith

eq_of_parts : (a b : ℤ) → pos_part a + neg_part b ≡ pos_part b + neg_part a → a ≡ b
eq_of_parts a b h = ground arith

-- Wrapping a part of a sum first makes no difference.
pub wrap_i32-add : (a b : ℤ) → wrap_i32 (wrap_i32 a +ℤ b) ≡ wrap_i32 (a +ℤ b)
unfolding wrap_i32 ◌+ℤ◌
wrap_i32-add (pos n) (pos m) = ground arith
wrap_i32-add (pos n) (negsuc m) = ground arith
wrap_i32-add (negsuc n) (pos m) = ground arith
wrap_i32-add (negsuc n) (negsuc m) = ground arith

pub wrap_i32-sub : (a b : ℤ) → wrap_i32 (wrap_i32 a -ℤ b) ≡ wrap_i32 (a -ℤ b)
unfolding wrap_i32 ◌-ℤ◌
wrap_i32-sub (pos n) (pos m) = ground arith
wrap_i32-sub (pos n) (negsuc m) = ground arith
wrap_i32-sub (negsuc n) (pos m) = ground arith
wrap_i32-sub (negsuc n) (negsuc m) = ground arith

-- Adding two offsets and taking them off again, each step in `int32_t`.
pub wrap_i32_cancel :
    (r o c : ℤ) → IsI32 r → wrap_i32 (wrap_i32 (wrap_i32 (wrap_i32 (r +ℤ o) +ℤ c) -ℤ o) -ℤ c) ≡ r
wrap_i32_cancel r o c h =
    let sums : r +ℤ o +ℤ c -ℤ o -ℤ c ≡ r = cancel r o c in
    rw
      (
        wrap_i32-add (r +ℤ o) c,
        wrap_i32-sub (r +ℤ o +ℤ c) o,
        wrap_i32-sub (r +ℤ o +ℤ c -ℤ o) c,
        sums,
      )
      (wrap_i32_id r h)
  where
    cancel : (r o c : ℤ) → r +ℤ o +ℤ c -ℤ o -ℤ c ≡ r
    cancel r o c = omega (
      arith,
      +ℤ_parts r o,
      +ℤ_parts (r +ℤ o) c,
      -ℤ_parts (r +ℤ o +ℤ c) o,
      -ℤ_parts (r +ℤ o +ℤ c -ℤ o) c,
      eq_of_parts (r +ℤ o +ℤ c -ℤ o -ℤ c) r,
    )
