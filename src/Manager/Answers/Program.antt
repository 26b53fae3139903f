-- ===== src/Manager/Answers/Program.antt =====
-- Over ports that take what they are given, the program comes to its end.
use laser_control.Common.{
  Bool, true, ℕ, ◌≤◌, ◌≡◌, ◌⊎◌, inl, inr, refl, Bool-cases, List, [], ◌∷◌, Bytes, codes, arith,
  if◌then◌else◌,
}
use laser_control.Std.Strings.{bytes_eq}
use laser_control.Effects.{modify, ◌>>◌, Result, ok, err, pure}
use laser_control.Effects.Answers.{
  Replies, Answers, Answers-pure, Answers-if, Answers-bind, Answers-modify, Answers-bind_known,
}
use laser_control.Std.Floating.{Floating}
use laser_control.Serial.{Serial}
use laser_control.Serial.Accepts.{Accepts}
use laser_control.Manager.{Host, State, Act}
use laser_control.Manager.Mapping.{unmap_devices}
use laser_control.Manager.Commands.{run_command}
use laser_control.Manager.Codes.{first_is, IsPlainCode, run_command_answers}
use laser_control.Manager.Session.{Json, Flag, apply_flags, follow, session, operate, start, main}
use laser_control.Manager.Answers.{caught-Answers, unmap_devices-Answers, map_devices-Answers}

-- At most 1, or the code of "exit".
abbrev IsCode : ℕ → Type 0
IsCode n = (n ≡ 255) ⊎ (n ≤ 1)

module _ ⦃sp : Serial⦄ ⦃fl : Floating⦄ (port : Accepts sp) (host : Host sp.Port) where
  run_command-Answers : (words : List Bytes) → Answers IsCode (run_command host words)
  run_command-Answers words = record {
    answers = λ m. by_answer m (run_command_answers host words m);
  }
    where
      by_plain : (r : Result ℕ) → IsPlainCode r → Replies IsCode r
      by_plain r (inl e) = rw e (inr (omega arith))
      by_plain r (inr (inl e)) = rw e (inr (omega arith))
      by_plain r (inr (inr e)) = rw e refl

      by_answer :
          (m : State)
          → (if first_is (codes "exit") words
              then run_command host words m ≡ (ok 255, m)
              else IsPlainCode (run_command host words m).0)
          → Replies IsCode (run_command host words m).0
      by_answer m h = elim (Bool-cases (first_is (codes "exit") words)) [
        | inl e ↦ (let q : run_command host words m ≡ (ok 255, m) = rw e at h in rw q (inl refl))
        | inr e ↦ by_plain _ (rw e at h)
      ]

  -- The code is at most 1.
  abbrev IsSmall : ℕ → Type 0
  IsSmall n = n ≤ 1

  closed_with : (code : ℕ) → code ≤ 1 → Answers IsSmall (unmap_devices >> pure code)
  closed_with code h = Answers-bind _ _ (unmap_devices-Answers port) λ u. Answers-pure code h

  follow-Answers :
      (ret : ℕ) (rest : Act ℕ)
      → IsCode ret
      → Answers IsSmall rest
      → Answers IsSmall (follow ret rest)
  unfolding follow
  follow-Answers ret rest (inl e) h = rw e (closed_with 0 (omega arith))
  follow-Answers ret rest (inr small) h =
      Answers-if _ _ _ (closed_with 0 (omega arith)) (Answers-if _ _ _ (closed_with ret small) h)

  session-Answers : (lines : List Bytes) → Answers IsSmall (session host lines)
  unfolding session
  session-Answers [] = closed_with 0 (omega arith)
  session-Answers (line ∷ lines) = Answers-if _ _ _ (session-Answers lines) (
      Answers-bind_known _ _ (run_command-Answers _)
        λ ret code. follow-Answers ret _ code (session-Answers lines))

  operate-Answers : (lines : List Bytes) → Answers IsSmall (operate host lines)
  unfolding operate
  operate-Answers lines =
      Answers-bind _ _ (map_devices-Answers port host)
        λ ret. Answers-if _ _ _ (closed_with 0 (omega arith)) (session-Answers lines)

  start-Answers :
      (file : Result Json) (lines : List Bytes) → Answers IsSmall (start host file lines)
  unfolding start
  start-Answers file lines = Answers-bind _ _ (Answers-modify _) λ u.
      Answers-bind _ _ (caught-Answers _)
        λ failed. Answers-if _ _ _ (Answers-pure 0 (omega arith)) (operate-Answers lines)

  abbrev IsParsed : ℕ ⊎ Bytes → Type 0
  IsParsed (inl code) = code ≤ 1
  IsParsed (inr name) = Unit

  -- A flag that is noted before the others are read.
  noted :
      (c : Bool) (f : State → State) (rest other : Act (ℕ ⊎ Bytes))
      → Answers IsParsed rest
      → Answers IsParsed other
      → Answers IsParsed (if c then modify f >> rest else other)
  noted c f rest other h k = Answers-if c _ _ (Answers-bind _ _ (Answers-modify f) λ u. h) k

  apply_flags-Answers :
      (file : Bytes) (flags : List Flag) → Answers {S = State} IsParsed (apply_flags file flags)
  unfolding apply_flags
  apply_flags-Answers file [] = Answers-pure _ tt
  apply_flags-Answers file (Flag.verbose ∷ flags) = apply_flags-Answers file flags
  apply_flags-Answers file (Flag.unknown ∷ flags) = Answers-pure (inl 1) (omega arith)
  apply_flags-Answers file (Flag.config_file name ∷ flags) = apply_flags-Answers name flags
  apply_flags-Answers file (Flag.ignore device ∷ flags) =
      let rest = apply_flags-Answers file flags in
      noted (bytes_eq device (codes "laser")) (λ m. record m { ignore_laser = true }) _ _ rest
        (noted (bytes_eq device (codes "attenuator")) (λ m. record m { ignore_attenuator = true }) _
          _ rest
          (noted (bytes_eq device (codes "power_meter")) (λ m. record m { ignore_pm = true }) _ _
            rest (Answers-pure (inl 0) (omega arith))))

  main-Answers :
      (files : Bytes → Result Json) (flags : List Flag) (lines : List Bytes)
      → Answers IsSmall (main host files flags lines)
  unfolding main
  main-Answers files flags lines =
      Answers-bind _ _ (Answers-modify _)
        λ u. Answers-bind_known _ _ (apply_flags-Answers _ flags) by_flags
    where
      by_flags :
          (parsed : ℕ ⊎ Bytes)
          → IsParsed parsed
          → Answers {S = State} IsSmall
              (elim parsed [ inl code ↦ pure code | inr name ↦ start host (files name) lines ])
      by_flags (inl code) h = Answers-pure code h
      by_flags (inr name) h = start-Answers (files name) lines

  small_code : (r : Result ℕ) → Replies IsSmall r → IsPlainCode r
  small_code (ok n) h = ground (arith, h)
  small_code (err e) h = ground (arith, h)

  -- Whatever is read from the ports, whatever the options, the configuration and the input are,
  -- and whichever commands fail: over ports that can be opened when they are closed, closed at any
  -- time, and flushed when they are open, and that then write every message in full, `main` returns
  -- 0 or 1, unless a wait for the motor has not ended.
  pub main_answers :
      (files : Bytes → Result Json) (flags : List Flag) (lines : List Bytes) (m : State)
      → IsPlainCode (main host files flags lines m).0
  main_answers files flags lines m =
      small_code (main host files flags lines m).0 ((main-Answers files flags lines).answers m)
