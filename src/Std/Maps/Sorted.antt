-- ===== src/Std/Maps/Sorted.antt =====
-- Insertion keeps the keys of a map in order.
use laser_control.Common.{
  ℕ, suc, true, ◌≡◌, ⊤, ◌+◌, ◌%◌, ◌^◌, ◌<◌, List, [], ◌∷◌, arith, Bytes, ltb, All,
}
use laser_control.Common.Int.{ℤ, pos, ltb_ℤ, wrap_i16}
use laser_control.Std.Maps.{insert, number_u16, number_i16}

-- The keys go up.
abbrev pub IsSorted : {V : Type 0} → List (ℕ × V) → Type 0
IsSorted [] = ⊤
IsSorted ((k, v) ∷ m) = All (λ e. k < e.0) m × IsSorted m

module _ {V : Type 0} where
  All-insert :
      (low k : ℕ) (v : V) (m : List (ℕ × V))
      → low < k
      → All (λ e. low < e.0) m
      → All (λ e. low < e.0) (insert ltb k v m)
  unfolding insert
  All-insert low k v [] h a = (h, tt)
  All-insert low k v ((l, w) ∷ m) h a = ground (arith, All-insert low k v m)

  All-above :
      (low k : ℕ) (m : List (ℕ × V)) → low < k → All (λ e. k < e.0) m → All (λ e. low < e.0) m
  All-above low k [] h a = tt
  All-above low k (e ∷ m) h a = (omega arith, All-above low k m h a.1)

  pub insert-IsSorted :
      (k : ℕ) (v : V) (m : List (ℕ × V)) → IsSorted m → IsSorted (insert ltb k v m)
  unfolding insert
  insert-IsSorted k v [] s = (tt, tt)
  insert-IsSorted k v ((l, w) ∷ m) s =
      ground (arith, insert-IsSorted k v m, All-insert l k v m, All-above k l m)

pub number_u16-IsSorted :
    (k : ℕ) (ts : List Bytes) (m : List (ℕ × Bytes)) → IsSorted m → IsSorted (number_u16 k ts m)
unfolding number_u16
number_u16-IsSorted k [] m s = s
number_u16-IsSorted k (t ∷ ts) m s =
    number_u16-IsSorted ((k + 1) % 2 ^ 16) ts (insert ltb k t m) (insert-IsSorted k t m s)

-- The same for keys with a sign.
abbrev pub IsOrdered : {V : Type 0} → List (ℤ × V) → Type 0
IsOrdered [] = ⊤
IsOrdered ((k, v) ∷ m) = All (λ e. ltb_ℤ k e.0 ≡ true) m × IsOrdered m

module _ {V : Type 0} where
  All-insert_ℤ :
      (low k : ℤ) (v : V) (m : List (ℤ × V))
      → ltb_ℤ low k ≡ true
      → All (λ e. ltb_ℤ low e.0 ≡ true) m
      → All (λ e. ltb_ℤ low e.0 ≡ true) (insert ltb_ℤ k v m)
  unfolding insert
  All-insert_ℤ low k v [] h a = (h, tt)
  All-insert_ℤ low k v ((l, w) ∷ m) h a = ground (arith, All-insert_ℤ low k v m)

  All-above_ℤ :
      (low k : ℤ) (m : List (ℤ × V))
      → ltb_ℤ low k ≡ true
      → All (λ e. ltb_ℤ k e.0 ≡ true) m
      → All (λ e. ltb_ℤ low e.0 ≡ true) m
  All-above_ℤ low k [] h a = tt
  All-above_ℤ low k (e ∷ m) h a = (ground arith, All-above_ℤ low k m h a.1)

  insert-IsOrdered :
      (k : ℤ) (v : V) (m : List (ℤ × V)) → IsOrdered m → IsOrdered (insert ltb_ℤ k v m)
  unfolding insert
  insert-IsOrdered k v [] s = (tt, tt)
  insert-IsOrdered k v ((l, w) ∷ m) s =
      ground (arith, insert-IsOrdered k v m, All-insert_ℤ l k v m, All-above_ℤ k l m)

pub number_i16-IsOrdered :
    (k : ℕ) (ts : List Bytes) (m : List (ℤ × Bytes)) → IsOrdered m → IsOrdered (number_i16 k ts m)
unfolding number_i16
number_i16-IsOrdered k [] m s = s
number_i16-IsOrdered k (t ∷ ts) m s =
    number_i16-IsOrdered (suc k) ts (insert ltb_ℤ (wrap_i16 (pos k)) t m)
      (insert-IsOrdered (wrap_i16 (pos k)) t m s)
