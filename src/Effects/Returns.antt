-- ===== src/Effects/Returns.antt =====
-- What an action returns, where it does not throw.
use laser_control.Common.{Bool, true, false, ◌≡◌, refl, if◌then◌else◌}
use laser_control.Effects.{Result, ok, err, Action, resume, ◌>>=◌, pure}

abbrev pub Returned : {A : Type 0} → (A → Type 0) → Result A → Type 0
Returned P (ok a) = P a
Returned P (err e) = Unit

-- Whatever the state: if the action returns, then with a value of `P`.
pub record Returns {S A : Type 0} (P : A → Type 0) (m : Action S A) : Type 0 where
  pub value : (s : S) → Returned P (m s).0

module _ {S A : Type 0} {P : A → Type 0} where
  pub Returns-pure : (a : A) → P a → Returns {S = S} P (pure a)
  unfolding pure
  Returns-pure a h = record { value = λ s. h }

  pub Returns-if :
      (c : Bool) (m k : Action S A)
      → (c ≡ true → Returns P m)
      → (c ≡ false → Returns P k)
      → Returns P (if c then m else k)
  Returns-if true m k hm hk = hm refl
  Returns-if false m k hm hk = hk refl

module _ {S A B : Type 0} {P : B → Type 0} where
  Returns-resume :
      (r : Result A) (f : A → Action S B) (s : S)
      → ((a : A) → Returns P (f a))
      → Returned P (resume r f s).0
  Returns-resume (ok a) f s h = (h a).value s
  Returns-resume (err e) f s h = tt

  -- Only the last action counts.
  pub Returns-bind :
      (m : Action S A) (f : A → Action S B) → ((a : A) → Returns P (f a)) → Returns P (m >>= f)
  unfolding ◌>>=◌
  Returns-bind m f h = record { value = λ s. Returns-resume (m s).0 f (m s).1 h }

pub ruleset returns_rules = (Returns-pure, Returns-if, Returns-bind)
