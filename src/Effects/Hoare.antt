-- ===== src/Effects/Hoare.antt =====
-- What an action keeps: rules for invariants, one for each way of putting actions together.
use laser_control.Common.{⊤, Bool, true, false, ◌≡◌, refl, if◌then◌else◌}
use laser_control.Effects.{
  Exception, Result, ok, err, Action, resume, ◌>>=◌, pure, throw, gets, lift, modify, throw_if,
  on_part,
}
use laser_control.Effects.Returns.{Returns, Returned}

-- Whatever the action returns or throws, `I` holds after it if it held before.
pub record Keeps {S A : Type 0} (I : S → Type 0) (m : Action S A) : Type 0 where
  pub after : (s : S) → I s → I (m s).1

module _ {S : Type 0} {I : S → Type 0} where
  module _ {A : Type 0} where
    pub Keeps-pure : (a : A) → Keeps I (pure a)
    unfolding pure
    Keeps-pure a = record { after = λ s held. held }

    pub Keeps-throw : (e : Exception) → Keeps I (throw {A = A} e)
    unfolding throw
    Keeps-throw e = record { after = λ s held. held }

    pub Keeps-lift : (r : Result A) → Keeps I (lift r)
    unfolding lift
    Keeps-lift r = record { after = λ s held. held }

    pub Keeps-gets : (f : S → A) → Keeps I (gets f)
    unfolding gets
    Keeps-gets f = record { after = λ s held. held }

    -- Either branch may use the outcome of the test.
    pub Keeps-if :
        (c : Bool) (m k : Action S A)
        → (c ≡ true → Keeps I m)
        → (c ≡ false → Keeps I k)
        → Keeps I (if c then m else k)
    Keeps-if true m k hm hk = hm refl
    Keeps-if false m k hm hk = hk refl

  pub Keeps-throw_if : (c : Bool) (e : Exception) → Keeps I (throw_if c e)
  unfolding throw_if
  Keeps-throw_if c e = record { after = λ s held. held }

  pub Keeps-modify : (f : S → S) → ((s : S) → I s → I (f s)) → Keeps I (modify f)
  unfolding modify
  Keeps-modify f h = record { after = h }

  module _ {A B : Type 0} where
    Keeps-resume :
        (r : Result A) (f : A → Action S B)
        → ((a : A) → r ≡ ok a → Keeps I (f a))
        → Keeps I (resume r f)
    Keeps-resume (ok a) f h = record { after = λ s held. (h a refl).after s held }
    Keeps-resume (err e) f h = record { after = λ s held. held }

    pub Keeps-bind :
        (m : Action S A) (f : A → Action S B)
        → Keeps I m
        → ((a : A) → Keeps I (f a))
        → Keeps I (m >>= f)
    unfolding ◌>>=◌
    Keeps-bind m f hm hf = record {
      after = λ s held. (Keeps-resume (m s).0 f (λ a _. hf a)).after (m s).1 (hm.after s held);
    }

    -- After a conversion the rest may use the value that it gave.
    pub Keeps-bind_lift :
        (r : Result A) (f : A → Action S B)
        → ((a : A) → r ≡ ok a → Keeps I (f a))
        → Keeps I (lift r >>= f)
    unfolding ◌>>=◌
    Keeps-bind_lift r f h = record { after = (Keeps-resume r f h).after }

  module _ {A B : Type 0} {P : A → Type 0} where
    Keeps-returned :
        (r : Result A) (f : A → Action S B)
        → Returned P r
        → ((a : A) → P a → Keeps I (f a))
        → Keeps I (resume r f)
    Keeps-returned (ok a) f p h = h a p
    Keeps-returned (err e) f p h = record { after = λ s held. held }

    -- After an action that returns values of `P` the rest may use that.
    pub Keeps-bind_returned :
        (m : Action S A) (f : A → Action S B)
        → Keeps I m
        → Returns P m
        → ((a : A) → P a → Keeps I (f a))
        → Keeps I (m >>= f)
    unfolding ◌>>=◌
    Keeps-bind_returned m f hm hp hf = record {
      after = λ s held. (Keeps-returned (m s).0 f (hp.value s) hf).after (m s).1 (hm.after s held);
    }

-- The rules that follow the shape of a `do` block.
pub ruleset keeps_rules =
    (Keeps-pure, Keeps-throw, Keeps-lift, Keeps-gets, Keeps-throw_if, Keeps-if, Keeps-bind)

-- An action on a part keeps what the part's action keeps.
pub Keeps-on_part :
    {S T A : Type 0} {I : T → Type 0} (get : T → S) (put : S → T → T) (m : Action S A)
    → ((t : T) → I t → I (put (m (get t)).1 t))
    → Keeps I (on_part get put m)
unfolding on_part
Keeps-on_part get put m h = record { after = h }

-- What follows a read of the state may use the state that was read.
pub Keeps-bind_gets :
    {S A B : Type 0} {I : S → Type 0} (f : S → A) (k : A → Action S B)
    → ((s : S) → I s → I (k (f s) s).1)
    → Keeps I (gets f >>= k)
unfolding ◌>>=◌
Keeps-bind_gets f k h = record { after = h }

-- What follows a guard may use that it let the call pass.
pub Keeps-bind_throw_if :
    {S B : Type 0} {I : S → Type 0} (c : Bool) (e : Exception) (k : ⊤ → Action S B)
    → (c ≡ false → Keeps I (k tt))
    → Keeps I (throw_if c e >>= k)
unfolding ◌>>=◌
Keeps-bind_throw_if true e k h = record { after = λ s held. held }
Keeps-bind_throw_if false e k h = record { after = (h refl).after }

-- To drop the result of a call changes nothing of the state.
dropped_state : {S A : Type 0} (r : Result A) (s : S) → (resume r (λ a. pure {S = S} tt) s).1 ≡ s
unfolding pure
dropped_state (ok a) s = refl
dropped_state (err e) s = refl

pub Keeps-dropped :
    {S A : Type 0} {I : S → Type 0} (m : Action S A) → Keeps I (m >>= λ a. pure tt) → Keeps I m
unfolding ◌>>=◌
Keeps-dropped m h = record {
  after = λ s held. rw (dropped_state (m s).0 (m s).1) at (h.after s held);
}
