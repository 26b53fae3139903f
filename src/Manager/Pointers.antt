-- ===== src/Manager/Pointers.antt =====
-- Calls through a pointer and `catch` clauses, for invariants of the whole program.
use laser_control.Common.{ℕ, ◌≡◌, refl, Option, none, some}
use laser_control.Effects.{Action}
use laser_control.Effects.Hoare.{Keeps}
use laser_control.Effects.Outcome.{Ends, Outcome}
use laser_control.Manager.{through, caught}

module _ {S T A : Type 0} (get : T → Option S) (put : S → T → T) (absent : A) (m : Action S A) where
  -- It is enough to look at the state that the call leaves in its place.
  pub Keeps-through :
      {I : T → Type 0}
      → ((t : T) (s : S) → get t ≡ some s → I t → I (put (m s).1 t))
      → Keeps I (λ t. through (get t) put absent m t)
  Keeps-through {I} h = record { after = λ t held. by_pointer t (get t) refl held }
    where
      by_pointer : (t : T) (o : Option S) → get t ≡ o → I t → I (through o put absent m t).1
      by_pointer t none e held = held
      by_pointer t (some s) e held = h t s e held

  pub Outcome-through :
      {I E Q : T → Type 0}
      → ((t : T) → get t ≡ none → I t → Q t)
      → ((t : T) (s : S) → get t ≡ some s → I t → Ends E Q (m s).0 (put (m s).1 t))
      → Outcome I E Q (λ t. through (get t) put absent m t)
  Outcome-through {I} {E} {Q} n h = record { ends = λ t held. by_pointer t (get t) refl held }
    where
      by_pointer :
          (t : T) (o : Option S)
          → get t ≡ o
          → I t
          → Ends E Q (through o put absent m t).0 (through o put absent m t).1
      by_pointer t none e held = n t e held
      by_pointer t (some s) e held = h t s e held

-- A `catch` clause changes the answer only.
pub Keeps-caught : {S : Type 0} {I : S → Type 0} (m : Action S ℕ) → Keeps I m → Keeps I (caught m)
unfolding caught
Keeps-caught m h = record { after = h.after }
