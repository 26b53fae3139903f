-- ===== src/Manager/Course.antt =====
-- The loop over the lines of input as a relation: how a session can go on, line by line.
use laser_control.Common.{
  ℕ, ◌≡◌, refl, ◌∙◌, sym, true, inl, inr, Bool-cases, List, [], ◌∷◌, Bytes, codes, arith,
}
use laser_control.Effects.{Result, ok, err, still_waiting, resume, ◌>>=◌, ◌>>◌, pure}
use laser_control.Std.Floating.{Floating}
use laser_control.Serial.{Serial}
use laser_control.Manager.{Host, State}
use laser_control.Manager.Mapping.{unmap_devices}
use laser_control.Manager.Words.{command_words}
use laser_control.Manager.Commands.{run_command}
use laser_control.Manager.Session.{session, follow}
use laser_control.Manager.Blank.{session_line}
use laser_control.Manager.Codes.{first_is, IsPlainCode, run_command_answers}

module _ ⦃sp : Serial⦄ ⦃fl : Floating⦄ (host : Host sp.Port) where
  -- The devices are unmapped, and that ends with `r`, or with the code.
  abbrev Closes : ℕ → State → Result ℕ → State → Type 0
  Closes code m r m' = (unmap_devices >> pure code) m ≡ (r, m')

  -- From `m`, the session over the lines ends with `r` in `m'`.
  pub data Course : List Bytes → State → Result ℕ → State → Type 0 where
    ended : {m m' : State} {r : Result ℕ} → Closes 0 m r m' → Course [] m r m'
    passed :
        {lines : List Bytes} {m m' : State} {r : Result ℕ}
        → Course lines m r m'
        → Course ([] ∷ lines) m r m'
    ran :
        {c : ℕ} {s : Bytes} {lines : List Bytes} {m m1 m' : State} {r : Result ℕ}
        → run_command host (command_words (c ∷ s)) m ≡ (ok 0, m1)
        → Course lines m1 r m'
        → Course ((c ∷ s) ∷ lines) m r m'
    left :
        {c : ℕ} {s : Bytes} {lines : List Bytes} {m m' : State} {r : Result ℕ}
        → first_is (codes "exit") (command_words (c ∷ s)) ≡ true
        → Closes 0 m r m'
        → Course ((c ∷ s) ∷ lines) m r m'
    failed :
        {c : ℕ} {s : Bytes} {lines : List Bytes} {m m1 m' : State} {r : Result ℕ}
        → run_command host (command_words (c ∷ s)) m ≡ (ok 1, m1)
        → Closes 1 m1 r m'
        → Course ((c ∷ s) ∷ lines) m r m'
    waited :
        {c : ℕ} {s : Bytes} {lines : List Bytes} {m m1 : State}
        → run_command host (command_words (c ∷ s)) m ≡ (err still_waiting, m1)
        → Course ((c ∷ s) ∷ lines) m (err still_waiting) m1

  -- A line that is not empty, by the answer to its command.
  session_answered :
      (c : ℕ) (s : Bytes) (lines : List Bytes) (m : State) {m1 : State} {a : Result ℕ}
      → run_command host (command_words (c ∷ s)) m ≡ (a, m1)
      → session host ((c ∷ s) ∷ lines) m ≡ resume a (λ ret. follow ret (session host lines)) m1
  unfolding ◌>>=◌
  session_answered c s lines m e = rw (session_line host (c ∷ s) lines (ground arith), e) refl

  run_command_exit :
      (words : List Bytes) (m : State)
      → first_is (codes "exit") words ≡ true
      → run_command host words m ≡ (ok 255, m)
  run_command_exit words m e = rw e at (run_command_answers host words m)

  session_of_Course :
      {lines : List Bytes} {m m' : State} {r : Result ℕ}
      → Course lines m r m'
      → session host lines m ≡ (r, m')
  unfolding follow session
  session_of_Course (ended e) = e
  session_of_Course (passed d) = session_of_Course d
  session_of_Course (ran {c} {s} {lines} {m} e d) =
      session_answered c s lines m e ∙ session_of_Course d
  session_of_Course (left {c} {s} {lines} {m} e close) =
      session_answered c s lines m (run_command_exit (command_words (c ∷ s)) m e) ∙ close
  session_of_Course (failed {c} {s} {lines} {m} e close) = session_answered c s lines m e ∙ close
  session_of_Course (waited {c} {s} {lines} {m} e) = session_answered c s lines m e

  Course-moved :
      {lines : List Bytes} {m : State} {x y : Result ℕ × State}
      → x ≡ y
      → Course lines m x.0 x.1
      → Course lines m y.0 y.1
  Course-moved e d = rw (← e) d

  -- The next step of a session, by the answer to the command of a line that is not empty.
  next-Course :
      (c : ℕ) (s : Bytes) (lines : List Bytes) (m m1 m' : State) (a r : Result ℕ)
      → IsPlainCode a
      → run_command host (command_words (c ∷ s)) m ≡ (a, m1)
      → ((m m' : State) → session host lines m ≡ (r, m') → Course lines m r m')
      → session host ((c ∷ s) ∷ lines) m ≡ (r, m')
      → Course ((c ∷ s) ∷ lines) m r m'
  unfolding follow
  next-Course c s lines m m1 m' a r (inl zero) e rest h =
      let e0 : run_command host (command_words (c ∷ s)) m ≡ (ok 0, m1) = rw zero at e in
      ran e0 (rest m1 m' (sym (session_answered c s lines m e0) ∙ h))
  next-Course c s lines m m1 m' a r (inr (inl one)) e rest h =
      let e1 : run_command host (command_words (c ∷ s)) m ≡ (ok 1, m1) = rw one at e in
      failed e1 (sym (session_answered c s lines m e1) ∙ h)
  next-Course c s lines m m1 m' a r (inr (inr stuck)) e rest h =
      let ew : run_command host (command_words (c ∷ s)) m ≡ (err still_waiting, m1) =
        rw stuck at e in
      Course-moved (sym (session_answered c s lines m ew) ∙ h) (waited ew)

  any_session-Course :
      (lines : List Bytes) (m m' : State) (r : Result ℕ)
      → session host lines m ≡ (r, m')
      → Course lines m r m'
  unfolding follow session
  any_session-Course [] m m' r h = ended h
  any_session-Course ([] ∷ lines) m m' r h = passed (any_session-Course lines m m' r h)
  any_session-Course ((c ∷ s) ∷ lines) m m' r h =
      elim (Bool-cases (first_is (codes "exit") (command_words (c ∷ s)))) [
        | inl e ↦
            left e (
              sym (session_answered c s lines m (run_command_exit (command_words (c ∷ s)) m e)) ∙ h)
        | inr e ↦
            next-Course c s lines m _ m' _ r
              (rw e at (run_command_answers host (command_words (c ∷ s)) m)) refl
              (λ m m'. any_session-Course lines m m' r) h
      ]

  -- The session over some lines ends with a result and a state just when there is a course to them:
  -- empty lines are passed over, commands that answer 0 are followed by the next line, and the
  -- first that is "exit", or that answers 1, is followed by `unmap_devices`, which follows the last
  -- line too; the code is 0 after "exit" or the last line and 1 after a failure. Lines behind the
  -- end are not looked at. A wait for the motor that has not ended stays one.
  pub session-Course :
      (lines : List Bytes) (m m' : State) (r : Result ℕ)
      → (Course lines m r m' → session host lines m ≡ (r, m'))
        × (session host lines m ≡ (r, m') → Course lines m r m')
  session-Course lines m m' r = (session_of_Course, any_session-Course lines m m' r)
