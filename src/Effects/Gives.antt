-- ===== src/Effects/Gives.antt =====
-- What an action returns together with the state that it leaves.
use laser_control.Common.{Bool, true, false, ◌≡◌, refl, if◌then◌else◌}
use laser_control.Effects.{Result, ok, err, Action, resume, ◌>>=◌, pure, gets}
use laser_control.Effects.Hoare.{Keeps}

abbrev pub Given : {S A : Type 0} → (A → S → Type 0) → Result A → S → Type 0
Given Q (ok a) s = Q a s
Given Q (err e) s = Unit

-- From `I`, an action that returns does so with `Q`.
pub record Gives {S A : Type 0} (I : S → Type 0) (Q : A → S → Type 0) (m : Action S A)
    : Type 0 where
  pub gives : (s : S) → I s → Given Q (m s).0 (m s).1

module _ {S : Type 0} {I : S → Type 0} where
  pub Gives-pure :
      {A : Type 0} {Q : A → S → Type 0} (a : A) → ((s : S) → I s → Q a s) → Gives I Q (pure a)
  unfolding pure
  Gives-pure a h = record { gives = h }

  module _ {A B : Type 0} {Q : B → S → Type 0} where
    Gives-resume :
        (r : Result A) (f : A → Action S B) (s : S)
        → ((a : A) → Gives I Q (f a))
        → I s
        → Given Q (resume r f s).0 (resume r f s).1
    Gives-resume (ok a) f s h held = (h a).gives s held
    Gives-resume (err e) f s h held = tt

    pub Gives-bind :
        (m : Action S A) (f : A → Action S B)
        → Keeps I m
        → ((a : A) → Gives I Q (f a))
        → Gives I Q (m >>= f)
    unfolding ◌>>=◌
    Gives-bind m f k h = record {
      gives = λ s held. Gives-resume (m s).0 f (m s).1 h (k.after s held);
    }

    -- What follows a read of the state may use the state that was read.
    pub Gives-bind_gets :
        (f : S → A) (k : A → Action S B)
        → ((s : S) → I s → Given Q (k (f s) s).0 (k (f s) s).1)
        → Gives I Q (gets f >>= k)
    unfolding ◌>>=◌ gets
    Gives-bind_gets f k h = record { gives = h }

-- Either branch may use the outcome of the test.
pub Given-if :
    {S A : Type 0} (Q : A → S → Type 0) (c : Bool) (m k : Action S A) (s : S)
    → (c ≡ true → Given Q (m s).0 (m s).1)
    → (c ≡ false → Given Q (k s).0 (k s).1)
    → Given Q ((if c then m else k) s).0 ((if c then m else k) s).1
Given-if Q true m k s hm hk = hm refl
Given-if Q false m k s hm hk = hk refl
