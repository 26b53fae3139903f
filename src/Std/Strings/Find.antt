-- ===== src/Std/Strings/Find.antt =====
-- What `find` finds: an occurrence, and the first one.
use laser_control.Common.{
  ℕ, zero, suc, ◌+◌, ◌≤◌, ◌≡◌, refl, ap, true, some, none, [], ◌∷◌, ◌++◌, arith, Bytes, length,
  take, drop, length-drop,
}
use laser_control.Std.Strings.{starts_with, find}

drop_nil : (k : ℕ) → [] ≡ drop {A = ℕ} k []
drop_nil zero = refl
drop_nil (suc k) = refl

pub drop-add : (i k : ℕ) (s : Bytes) → drop (i + k) s ≡ drop k (drop i s)
drop-add zero k s = ap (λ n. drop n s) (omega arith)
drop-add (suc i) k s =
    let e : suc i + k ≡ suc (i + k) = omega arith in rw e (after_head (drop-add i k) s)
  where
    after_head :
        ((t : Bytes) → drop (i + k) t ≡ drop k (drop i t))
        → (t : Bytes) → drop (suc (i + k)) t ≡ drop k (drop (suc i) t)
    after_head rest [] = drop_nil k
    after_head rest (c ∷ t) = rest t

starts_with_split : (pat s : Bytes) → starts_with pat s ≡ true → s ≡ pat ++ drop (length pat) s
unfolding starts_with
starts_with_split [] s h = refl
starts_with_split (p ∷ ps) [] h = ground arith
starts_with_split (p ∷ ps) (c ∷ s) h = ground (arith, starts_with_split ps s)

starts_with-take :
    (pat s : Bytes) (i : ℕ) → starts_with pat (take i s) ≡ true → starts_with pat s ≡ true
unfolding starts_with
starts_with-take [] s i h = refl
starts_with-take (p ∷ ps) s zero h = ground arith
starts_with-take (p ∷ ps) [] (suc i) h = h
starts_with-take (p ∷ ps) (c ∷ s) (suc i) h = ground (arith, starts_with-take ps s i)

-- The text falls into what stands before the match, the pattern, and the rest.
pub find_split :
    (pat s : Bytes) (i : ℕ)
    → find pat s ≡ some i
    → s ≡ take i s ++ (pat ++ drop (length pat) (drop i s))
unfolding find
find_split pat [] zero h = ground (arith, starts_with_split pat [])
find_split pat [] (suc i) h = ground arith
find_split pat (c ∷ s) zero h = ground (arith, starts_with_split pat (c ∷ s))
find_split pat (c ∷ s) (suc i) h = ground (arith, find_split pat s i)

-- There is no earlier match.
pub find-take :
    (p : ℕ) (ps s : Bytes) (i : ℕ) → find (p ∷ ps) s ≡ some i → find (p ∷ ps) (take i s) ≡ none
unfolding find
find-take p ps s zero h = refl
find-take p ps [] (suc i) h = ground arith
find-take p ps (c ∷ s) (suc i) h =
    ground (arith, find-take p ps s i, starts_with-take (p ∷ ps) (c ∷ s) (suc i))

-- What stands behind a match is shorter than the text.
pub length-drop-find :
    (p : ℕ) (ps s : Bytes) (i : ℕ)
    → find (p ∷ ps) s ≡ some i
    → suc (length (drop (i + suc (length ps)) s)) ≤ length s
unfolding find
length-drop-find p ps [] i h = ground arith
length-drop-find p ps (c ∷ s) i h = omega (arith, length-drop (i + suc (length ps)) (c ∷ s))
