-- ===== src/Manager/Codes.antt =====
-- The codes of `run_command`.
use laser_control.Common.{
  ℕ, ◌≤◌, ◌≡◌, ◌⊎◌, inl, inr, refl, Bool, true, false, List, [], ◌∷◌, Bytes, codes, arith, ◌==◌,
  if◌then◌else◌, Bool-cases,
}
use laser_control.Effects.{Result, ok, err, still_waiting, pure}
use laser_control.Effects.Returns.{Returned, Returns, Returns-pure, Returns-if, Returns-bind}
use laser_control.Std.Strings.{bytes_eq}
use laser_control.Std.Floating.{Floating}
use laser_control.Serial.{Serial}
use laser_control.Manager.{Host, State, code_of, caught}
use laser_control.Manager.Commands.{
  run_laser, attenuator_words, run_attenuator, meter_words, run_meter, dispatch, run_command,
}

-- The first word is `name`.
unfoldable pub first_is : Bytes → List Bytes → Bool
first_is name [] = false
first_is name (word ∷ words) = bytes_eq word name

-- 0, 1, or a wait that has not ended.
abbrev pub IsPlainCode : Result ℕ → Type 0
IsPlainCode r = (r ≡ ok 0) ⊎ (r ≡ ok 1) ⊎ (r ≡ err still_waiting)

code_of_lem : (r : Result ℕ) → Returned (λ n. n ≤ 1) r → IsPlainCode (code_of r)
code_of_lem (ok n) h = ground arith
code_of_lem (err e) h = ground arith

abbrev IsPlain : ℕ → Type 0
IsPlain n = n ≤ 1

module _ {S : Type 0} where
  zero-Returns : Returns IsPlain (pure {S = S} 0)
  zero-Returns = Returns-pure 0 (omega arith)

  zero_or_one-Returns : (n : ℕ) → Returns IsPlain (pure {S = S} (if n == 0 then 0 else 1))
  zero_or_one-Returns n = Returns-pure _ (ground arith)

module _ ⦃sp : Serial⦄ ⦃fl : Floating⦄ (host : Host sp.Port) where
  run_laser-Returns : (args : List Bytes) → Returns IsPlain (run_laser args)
  unfolding run_laser
  run_laser-Returns args = search (Returns-if, Returns-bind, zero-Returns) depth 12

  run_attenuator-Returns : (args : List Bytes) → Returns IsPlain (run_attenuator host args)
  unfolding run_attenuator attenuator_words
  run_attenuator-Returns [] =
      search (Returns-if, Returns-bind, zero-Returns, zero_or_one-Returns) depth 12
  run_attenuator-Returns (arg ∷ args) = search (Returns-if, Returns-bind, zero-Returns) depth 12

  run_meter-Returns : (args : List Bytes) → Returns IsPlain (run_meter host args)
  unfolding run_meter meter_words
  run_meter-Returns [] =
      search (Returns-if, Returns-bind, zero-Returns, zero_or_one-Returns) depth 12
  run_meter-Returns (arg ∷ args) = search (Returns-if, Returns-bind, zero-Returns) depth 12

  dispatch-Returns :
      (cmd : Bytes) (args : List Bytes)
      → bytes_eq cmd (codes "exit") ≡ false
      → Returns IsPlain (dispatch host cmd args)
  unfolding dispatch
  dispatch-Returns cmd args e =
      Returns-if (bytes_eq cmd (codes "exit")) _ _ (λ e'. absurd (ground (arith, e, e')))
        λ _.
          search
            (Returns-if, zero-Returns, run_laser-Returns, run_attenuator-Returns, run_meter-Returns)
            depth 12

  dispatch_exit :
      (cmd : Bytes) (args : List Bytes)
      → bytes_eq cmd (codes "exit") ≡ true
      → dispatch host cmd args ≡ pure 255
  unfolding dispatch
  dispatch_exit cmd args e = rw e refl

  -- Whatever the state, `run_command` answers 255 and changes nothing if the first word is "exit",
  -- and otherwise 0 or 1, unless a wait for the motor has not ended.
  pub run_command_answers :
      (words : List Bytes) (m : State)
      → if first_is (codes "exit") words
        then run_command host words m ≡ (ok 255, m)
        else IsPlainCode (run_command host words m).0
  unfolding run_command first_is caught pure
  run_command_answers [] m = ground arith
  run_command_answers (cmd ∷ args) m = elim (Bool-cases (bytes_eq cmd (codes "exit"))) [
    | inl e ↦ rw (e, dispatch_exit cmd args e) refl
    | inr e ↦ rw e (code_of_lem _ ((dispatch-Returns cmd args e).value m))
  ]
