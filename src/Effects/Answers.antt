-- ===== src/Effects/Answers.antt =====
-- Actions that answer from every state: they return a value of which `P` holds, unless a wait has
-- not ended.
use laser_control.Common.{⊤, Bool, true, false, ◌≡◌, if◌then◌else◌}
use laser_control.Effects.{
  Result, ok, err, still_waiting, Action, resume, ◌>>=◌, pure, gets, modify, when, on_part,
}

abbrev pub Replies : {A : Type 0} → (A → Type 0) → Result A → Type 0
Replies P (ok a) = P a
Replies P (err e) = e ≡ still_waiting

pub record Answers {S A : Type 0} (P : A → Type 0) (m : Action S A) : Type 0 where
  pub answers : (s : S) → Replies P (m s).0

abbrev pub Any : {A : Type 0} → A → Type 0
Any a = Unit

weakened : {A : Type 0} (P : A → Type 0) (r : Result A) → Replies P r → Replies Any r
weakened P (ok a) h = tt
weakened P (err e) h = h

module _ {S : Type 0} where
  pub Answers-pure : {A : Type 0} {P : A → Type 0} (a : A) → P a → Answers {S = S} P (pure a)
  unfolding pure
  Answers-pure a h = record { answers = λ s. h }

  pub Answers-returned : {A : Type 0} (a : A) → Answers {S = S} Any (pure a)
  Answers-returned a = Answers-pure a tt

  pub Answers-gets : {A : Type 0} (f : S → A) → Answers Any (gets f)
  unfolding gets
  Answers-gets f = record { answers = λ s. tt }

  pub Answers-modify : (f : S → S) → Answers Any (modify f)
  unfolding modify
  Answers-modify f = record { answers = λ s. tt }

  pub Answers-when : (c : Bool) (m : Action S ⊤) → Answers Any m → Answers Any (when c m)
  Answers-when true m h = h
  Answers-when false m h = Answers-pure tt tt

  module _ {A : Type 0} {P : A → Type 0} where
    pub Answers-if :
        (c : Bool) (m k : Action S A) → Answers P m → Answers P k → Answers P (if c then m else k)
    Answers-if true m k hm hk = hm
    Answers-if false m k hm hk = hk

    pub Answers-weaken : (m : Action S A) → Answers P m → Answers Any m
    Answers-weaken m h = record { answers = λ s. weakened P (m s).0 (h.answers s) }

  module _ {A B : Type 0} {P : A → Type 0} {Q : B → Type 0} where
    Answers-resume :
        (r : Result A) (f : A → Action S B) (s : S)
        → Replies P r
        → ((a : A) → P a → Answers Q (f a))
        → Replies Q (resume r f s).0
    Answers-resume (ok a) f s h k = (k a h).answers s
    Answers-resume (err e) f s h k = h

    -- What follows may use what is known of the value.
    pub Answers-bind_known :
        (m : Action S A) (f : A → Action S B)
        → Answers P m
        → ((a : A) → P a → Answers Q (f a))
        → Answers Q (m >>= f)
    unfolding ◌>>=◌
    Answers-bind_known m f h k = record {
      answers = λ s. Answers-resume (m s).0 f (m s).1 (h.answers s) k;
    }

  pub Answers-bind :
      {A B : Type 0} {Q : B → Type 0} (m : Action S A) (f : A → Action S B)
      → Answers Any m
      → ((a : A) → Answers Q (f a))
      → Answers Q (m >>= f)
  Answers-bind m f h k = Answers-bind_known m f h (λ a u. k a)

  pub Answers-on_part :
      {T A : Type 0} {P : A → Type 0} (get : T → S) (put : S → T → T) (m : Action S A)
      → Answers P m
      → Answers P (on_part get put m)
  unfolding on_part
  Answers-on_part get put m h = record { answers = λ t. h.answers (get t) }

pub ruleset answers_rules = (
  Answers-returned, Answers-gets, Answers-modify, Answers-when, Answers-if, Answers-bind,
  Answers-on_part,
)
