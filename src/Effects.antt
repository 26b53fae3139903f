-- ===== src/Effects.antt =====
-- Member functions that read and write their object and may throw: a state monad with exceptions.
-- What was written before a throw stays written. A printed value in a message is left out of it.
pub mod Hoare
pub mod Outcome
pub mod Returns
pub mod Gives
pub mod Answers
use laser_control.Common.{⊤, Bool, String, if◌then◌else◌}

-- The exceptions that the sources throw: those of `serial` and those of `std`.
pub data Exception : Type 0 where
  io_exception port_not_opened serial_exception runtime_error range_error : String → Exception
  invalid_argument out_of_range : Exception
  -- no exception of the program: the mark of a wait that has not ended within its fuel
  still_waiting : Exception

pub data Result (A : Type 0) : Type 0 where
  ok : A → Result A
  err : Exception → Result A

abbrev pub Action : Type 0 → Type 0 → Type 0
Action S A = S → Result A × S

module _ {S A : Type 0} where
  unfoldable pub pure : A → Action S A
  pure a s = (ok a, s)

  unfoldable pub throw : Exception → Action S A
  throw e s = (err e, s)

  unfoldable pub gets : (S → A) → Action S A
  gets f s = (ok (f s), s)

  -- A call that touches no state, such as a conversion of the standard library.
  unfoldable pub lift : Result A → Action S A
  lift r s = (r, s)

module _ {S : Type 0} where
  unfoldable pub modify : (S → S) → Action S ⊤
  modify f s = (ok tt, f s)

  unfoldable pub throw_if : Bool → Exception → Action S ⊤
  throw_if c e s = (if c then err e else ok tt, s)

-- What follows a call that ended in `r`.
abbrev pub resume : {S A B : Type 0} → Result A → (A → Action S B) → Action S B
resume (ok a) f s = f a s
resume (err e) f s = (err e, s)

-- To open the bind is to open the actions above too.
infixl 5 ◌>>=◌ ◌>>◌
unfoldable pub ◌>>=◌ : {S A B : Type 0} → Action S A → (A → Action S B) → Action S B
unfolding pure throw gets lift modify throw_if
◌>>=◌ m f s = let (r, s') = m s in resume r f s'

abbrev pub ◌>>◌ : {S A B : Type 0} → Action S A → Action S B → Action S B
m >> k = m >>= λ _. k

-- `if (c) { m }`
abbrev pub when : {S : Type 0} → Bool → Action S ⊤ → Action S ⊤
when c m = if c then m else pure tt

-- An action on a part of an object: `get` reads the part and `put` stores it.
unfoldable pub on_part : {S T A : Type 0} → (T → S) → (S → T → T) → Action S A → Action T A
on_part get put m t = let (r, s) = m (get t) in (r, put s t)
