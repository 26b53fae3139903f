-- ===== src/Std/Strings.antt =====
-- `std::string`: the members that the sources call, with what they do out of range. Positions are
-- `size_t`, whose subtraction wraps around.
pub mod Find
use laser_control.Common.{
  ℕ, zero, suc, ◌+◌, ◌-◌, ◌%◌, ◌^◌, ◌<◌, ◌≡◌, ap, refl, Bool, true, false, ◌&&◌, Option, none, some,
  List, [], ◌∷◌, arith, Bytes, ltb, ◌==◌, if◌then◌else◌, length, take, drop, get_elem?,
}
use laser_control.Effects.{Result, ok, err, out_of_range}
use mathlib.Core.Option

-- `a - b` in `size_t`.
unfoldable pub size_sub : ℕ → ℕ → ℕ
size_sub a b = (a + 2 ^ 64 - b) % 2 ^ 64

-- `s.substr(p)` and `s.substr(p, n)`.
unfoldable pub substr : Bytes → ℕ → Result Bytes
substr s p = if ltb (length s) p then err out_of_range else ok (drop p s)

unfoldable pub substr_count : Bytes → ℕ → ℕ → Result Bytes
substr_count s p n = if ltb (length s) p then err out_of_range else ok (take n (drop p s))

-- `s.erase(p)`.
unfoldable pub erase_from : Bytes → ℕ → Result Bytes
erase_from s p = if ltb (length s) p then err out_of_range else ok (take p s)

-- `s.at(i)`, `v.at(i)`.
abbrev pub or_out_of_range : {A : Type 0} → Option A → Result A
or_out_of_range (some a) = ok a
or_out_of_range none = err out_of_range

unfoldable pub at : {A : Type 0} → List A → ℕ → Result A
at xs i = or_out_of_range (get_elem? xs i)

unfoldable pub starts_with : Bytes → Bytes → Bool
starts_with [] s = true
starts_with (p ∷ ps) [] = false
starts_with (p ∷ ps) (c ∷ s) = c == p && starts_with ps s

-- `s.find(pat)`: the first position, `none` for `npos`.
unfoldable pub find : Bytes → Bytes → Option ℕ
unfolding starts_with
find pat [] = if starts_with pat [] then some 0 else none
find pat (c ∷ s) = if starts_with pat (c ∷ s) then some 0 else Option.map suc (find pat s)

-- `a == b`.
unfoldable pub bytes_eq : Bytes → Bytes → Bool
bytes_eq [] [] = true
bytes_eq [] (c ∷ s) = false
bytes_eq (c ∷ s) [] = false
bytes_eq (c ∷ s) (d ∷ t) = c == d && bytes_eq s t
