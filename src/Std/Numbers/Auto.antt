-- ===== src/Std/Numbers/Auto.antt =====
-- `strtol` with base 0: the base is told by the prefix, and nothing is thrown.
pub mod RoundTrip
use laser_control.Common.{
  ℕ, zero, suc, ◌-◌, ◌^◌, Bool, true, false, ◌&&◌, ◌||◌, Option, none, some, [], ◌∷◌, Bytes, ltb,
  ◌==◌, if◌then◌else◌,
}
use laser_control.Common.Int.{ℤ, pos, negsuc}
use laser_control.Std.Numbers.{skip_space, magnitude, skip_prefix}

-- 16 behind `0x` and a digit of that base, 8 behind another zero, 10 otherwise.
pub prefix_base : Bytes → ℕ
prefix_base (z ∷ x ∷ s) = elim (magnitude 16 s) [
  | some _ ↦ if z == b'0' && (x == b'x' || x == b'X') then 16 else if z == b'0' then 8 else 10
  | none ↦ if z == b'0' then 8 else 10
]
prefix_base (z ∷ []) = if z == b'0' then 8 else 10
prefix_base [] = 10

auto_magnitude : Bytes → Option ℕ
unfolding prefix_base magnitude skip_prefix
auto_magnitude s = magnitude (prefix_base s) (skip_prefix (prefix_base s) s)

auto_signed : Bytes → Bool × Option ℕ
unfolding auto_magnitude
auto_signed [] = (false, none)
auto_signed (c ∷ s) =
    if c == b'-'
    then (true, auto_magnitude s)
    else if c == b'+'
    then (false, auto_magnitude s)
    else (false, auto_magnitude (c ∷ s))

-- 0 where there is no digit, and the nearest `long` where the number is too large.
abbrev as_long : Bool × Option ℕ → ℤ
as_long (minus, none) = pos 0
as_long (true, some zero) = pos 0
as_long (true, some (suc v)) = negsuc (if ltb v (2 ^ 63) then v else 2 ^ 63 - 1)
as_long (false, some v) = pos (if ltb v (2 ^ 63) then v else 2 ^ 63 - 1)

unfoldable pub strtol : Bytes → ℤ
unfolding auto_signed skip_space
strtol s = as_long (auto_signed (skip_space s))
