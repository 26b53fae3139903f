-- ===== src/Std/Maps/Numbered.antt =====
-- A counter that does not wrap around numbers the texts in their order.
use laser_control.Common.{
  ℕ, suc, ◌+◌, ◌%◌, ◌^◌, ◌<◌, ◌≡◌, refl, sym, append-nil, List, [], ◌∷◌, ◌++◌, append_assoc, arith,
  Bytes, ltb, length, All, All-append, ◌∙◌,
}
use laser_control.Std.Maps.{insert, number_u16}

abbrev pub numbered : ℕ → List Bytes → List (ℕ × Bytes)
numbered k [] = []
numbered k (t ∷ ts) = (k, t) ∷ numbered (suc k) ts

insert_last :
    (k : ℕ) (t : Bytes) (m : List (ℕ × Bytes))
    → All (λ e. e.0 < k) m
    → insert ltb k t m ≡ m ++ (k, t) ∷ []
unfolding insert
insert_last k t [] h = refl
insert_last k t ((l, w) ∷ m) h = ground (arith, insert_last k t m h.1)

All-suc : (k : ℕ) (m : List (ℕ × Bytes)) → All (λ e. e.0 < k) m → All (λ e. e.0 < suc k) m
All-suc k [] h = tt
All-suc k (e ∷ m) h = (omega arith, All-suc k m h.1)

number_u16_lem :
    (k : ℕ) (ts : List Bytes) (m : List (ℕ × Bytes))
    → All (λ e. e.0 < k) m
    → k + length ts < 2 ^ 16
    → number_u16 k ts m ≡ m ++ numbered k ts
unfolding number_u16
number_u16_lem k [] m h fits = sym (append-nil m)
number_u16_lem k (t ∷ ts) m h fits =
    let next : (k + 1) % 2 ^ 16 ≡ suc k = omega arith in
    let below = All-append (λ e. e.0 < suc k) m ((k, t) ∷ []) (All-suc k m h) (omega arith, tt) in
    rw (next, insert_last k t m h)
      (number_u16_lem (suc k) ts (m ++ (k, t) ∷ []) below (omega arith) ∙ simp append_assoc)

pub number_u16-numbered :
    (k : ℕ) (ts : List Bytes) → k + length ts < 2 ^ 16 → number_u16 k ts [] ≡ numbered k ts
number_u16-numbered k ts fits = number_u16_lem k ts [] tt fits
