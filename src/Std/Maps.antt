-- ===== src/Std/Maps.antt =====
-- `std::map` as the devices use it: its entries in the order of the keys.
pub mod Sorted
pub mod Numbered
use laser_control.Common.{
  ℕ, suc, ◌+◌, ◌%◌, ◌^◌, Bool, Option, none, some, List, [], ◌∷◌, Bytes, ltb, if◌then◌else◌,
}
use laser_control.Common.Int.{ℤ, pos, ltb_ℤ, wrap_i16}
use laser_control.Effects.{Result, ok, err, out_of_range}
use laser_control.Std.Strings.{or_out_of_range}

module _ {K V : Type 0} (lt : K → K → Bool) where
  -- `m.insert({k, v})`, which leaves the map alone if it has the key.
  unfoldable pub insert : K → V → List (K × V) → List (K × V)
  insert k v [] = (k, v) ∷ []
  insert k v ((l, w) ∷ m) =
      let rest = insert k v m in
      if lt k l then (k, v) ∷ (l, w) ∷ m else if lt l k then (l, w) ∷ rest else (l, w) ∷ m

  unfoldable pub lookup : K → List (K × V) → Option V
  lookup k [] = none
  lookup k ((l, w) ∷ m) =
      let rest = lookup k m in if lt k l then none else if lt l k then rest else some w

  -- `m.at(k)`.
  unfoldable pub map_at : List (K × V) → K → Result V
  unfolding lookup
  map_at m k = or_out_of_range (lookup k m)

-- Texts inserted under the keys that a counter gives: a `uint16_t`, and an `int` converted to
-- `int16_t`.
unfoldable pub number_u16 : ℕ → List Bytes → List (ℕ × Bytes) → List (ℕ × Bytes)
unfolding insert
number_u16 k [] m = m
number_u16 k (t ∷ ts) m = number_u16 ((k + 1) % 2 ^ 16) ts (insert ltb k t m)

unfoldable pub number_i16 : ℕ → List Bytes → List (ℤ × Bytes) → List (ℤ × Bytes)
unfolding insert
number_i16 k [] m = m
number_i16 k (t ∷ ts) m = number_i16 (suc k) ts (insert ltb_ℤ (wrap_i16 (pos k)) t m)
