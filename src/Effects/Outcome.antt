-- ===== src/Effects/Outcome.antt =====
-- What an action leaves when it returns, and what it leaves when it throws.
use laser_control.Common.{⊤, Bool, true, false, ◌≡◌, refl, if◌then◌else◌}
use laser_control.Effects.{
  Exception, Result, ok, err, Action, resume, ◌>>=◌, modify, throw_if, gets,
}
use laser_control.Effects.Hoare.{Keeps}

abbrev pub Ends : {S A : Type 0} → (S → Type 0) → (S → Type 0) → Result A → S → Type 0
Ends E Q (ok a) s = Q s
Ends E Q (err e) s = E s

abbrev pub is_ok : {A : Type 0} → Result A → Bool
is_ok (ok a) = true
is_ok (err e) = false

-- From `I`, the action returns with `Q` or throws with `E`.
pub record Outcome {S A : Type 0} (I E Q : S → Type 0) (m : Action S A) : Type 0 where
  pub ends : (s : S) → I s → Ends E Q (m s).0 (m s).1

module _ {S : Type 0} {I E Q : S → Type 0} where
  module _ {A : Type 0} where
    outcome_keeps_at :
        (r : Result A) (s : S) → ((t : S) → I t → E t) → ((t : S) → I t → Q t) → I s → Ends E Q r s
    outcome_keeps_at (ok a) s e q h = q s h
    outcome_keeps_at (err x) s e q h = e s h

    pub Outcome-Keeps :
        (m : Action S A)
        → ((t : S) → I t → E t)
        → ((t : S) → I t → Q t)
        → Keeps I m
        → Outcome I E Q m
    Outcome-Keeps m e q h = record {
      ends = λ s held. outcome_keeps_at (m s).0 (m s).1 e q (h.after s held);
    }

  pub Outcome-if :
      {A : Type 0} (c : Bool) (m k : Action S A)
      → Outcome I E Q m
      → Outcome I E Q k
      → Outcome I E Q (if c then m else k)
  Outcome-if true m k hm hk = hm
  Outcome-if false m k hm hk = hk

  pub Outcome-modify : (f : S → S) → ((s : S) → I s → Q (f s)) → Outcome I E Q (modify f)
  unfolding modify
  Outcome-modify f h = record { ends = h }

module _ {S A B : Type 0} {M E Q : S → Type 0} where
  Outcome-resume :
      (r : Result A) (f : A → Action S B) (s : S)
      → ((a : A) → Outcome M E Q (f a))
      → Ends E M r s
      → Ends E Q (resume r f s).0 (resume r f s).1
  Outcome-resume (ok a) f s h held = (h a).ends s held
  Outcome-resume (err e) f s h held = held

module _ {S A B : Type 0} {I M E Q : S → Type 0} where
  -- In a sequence the first part returns with `M`, from which the second goes on.
  pub Outcome-bind :
      (m : Action S A) (f : A → Action S B)
      → Outcome I E M m
      → ((a : A) → Outcome M E Q (f a))
      → Outcome I E Q (m >>= f)
  unfolding ◌>>=◌
  Outcome-bind m f hm hf = record {
    ends = λ s held. Outcome-resume (m s).0 f (m s).1 hf (hm.ends s held);
  }

-- What follows a guard may use that it let the call pass.
pub Outcome-guard :
    {S B : Type 0} {I E Q : S → Type 0} (c : Bool) (x : Exception) (k : ⊤ → Action S B)
    → ((t : S) → I t → E t)
    → (c ≡ false → Outcome I E Q (k tt))
    → Outcome I E Q (throw_if c x >>= k)
unfolding ◌>>=◌
Outcome-guard true x k e h = record { ends = e }
Outcome-guard false x k e h = record { ends = (h refl).ends }

-- Where what holds at the end holds also after a throw.
pub Ends-always :
    {S A : Type 0} (Q : S → Type 0) (r : Result A) (s : S) → Q s → Ends (λ t. Unit) Q r s
Ends-always Q (ok a) s h = h
Ends-always Q (err x) s h = tt

-- What follows a read of the state may use the state that was read.
pub Outcome-bind_gets :
    {S A B : Type 0} {I E Q : S → Type 0} (f : S → A) (k : A → Action S B)
    → ((s : S) → I s → Ends E Q (k (f s) s).0 (k (f s) s).1)
    → Outcome I E Q (gets f >>= k)
unfolding ◌>>=◌
Outcome-bind_gets f k h = record { ends = h }

-- From less to more.
module _ {S A : Type 0} {Q Q' : S → Type 0} (after : (s : S) → Q s → Q' s) where
  Ends-weaken : (E : S → Type 0) (r : Result A) (s : S) → Ends E Q r s → Ends E Q' r s
  Ends-weaken E (ok a) s h = after s h
  Ends-weaken E (err x) s h = h

  pub Outcome-weaken :
      {I I' E : S → Type 0} (m : Action S A)
      → ((s : S) → I' s → I s)
      → Outcome I E Q m
      → Outcome I' E Q' m
  Outcome-weaken {E} m before h = record {
    ends = λ s held. Ends-weaken E (m s).0 (m s).1 (h.ends s (before s held));
  }
