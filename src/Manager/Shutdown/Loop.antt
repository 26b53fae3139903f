-- ===== src/Manager/Shutdown/Loop.antt =====
-- However the loop over the lines ends, it ends with `unmap_devices`.
use laser_control.Common.{ℕ, not, List, [], ◌∷◌, Bytes, length, ◌==◌, if◌then◌else◌}
use laser_control.Effects.{Action, ◌>>=◌, ◌>>◌, pure}
use laser_control.Effects.Hoare.{Keeps, Keeps-pure}
use laser_control.Effects.Outcome.{Outcome, Outcome-Keeps, Outcome-bind, Outcome-if}
use laser_control.Std.Floating.{Floating}
use laser_control.Serial.{Serial}
use laser_control.Serial.Logged.{LoggedPort, logged}
use laser_control.Manager.{Host}
use laser_control.Manager.Mapping.{unmap_devices}
use laser_control.Manager.Commands.{run_command}
use laser_control.Manager.Words.{command_words}
use laser_control.Manager.Session.{session, follow}
use laser_control.Manager.Safety.{World}

-- From `I`, `unmap_devices` returns with `Q`.
module _ (sp : Serial) ⦃fl : Floating⦄ (I Q : World sp → Type 0)
    (unmap : Outcome I (λ w. Unit) Q (unmap_devices ⦃sp = logged sp⦄)) where
  abbrev Retires : Action (World sp) ℕ → Type 0
  Retires m = Outcome I (λ w. Unit) Q m

  pub ended_by : (code : ℕ) → Retires (unmap_devices ⦃sp = logged sp⦄ >> pure code)
  ended_by code =
      Outcome-bind _ _ unmap λ r. Outcome-Keeps _ (λ t h. tt) (λ t h. h) (Keeps-pure code)

  follow-Ends :
      (ret : ℕ) (rest : Action (World sp) ℕ)
      → Retires rest
      → Retires (follow ⦃sp = logged sp⦄ ret rest)
  unfolding follow
  follow-Ends ret rest h =
      Outcome-if (ret == 255) _ _ (ended_by 0) (Outcome-if (not (ret == 0)) _ _ (ended_by ret) h)

  module _ (host : Host (LoggedPort sp))
      (run : (words : List Bytes) → Keeps I (run_command ⦃sp = logged sp⦄ host words)) where
    line-Ends :
        (line : Bytes) (rest : Action (World sp) ℕ)
        → Retires rest
        → Retires (
            if length line == 0
            then rest
            else run_command ⦃sp = logged sp⦄ host (command_words line) >>= λ ret.
                follow ⦃sp = logged sp⦄ ret rest)
    line-Ends line rest h = Outcome-if (length line == 0) _ _ h (
        Outcome-bind _ _ (Outcome-Keeps _ (λ t held. tt) (λ t held. held) (run _))
          (λ ret. follow-Ends ret rest h))

    pub session-Ends : (lines : List Bytes) → Retires (session ⦃sp = logged sp⦄ host lines)
    unfolding session
    session-Ends [] = ended_by 0
    session-Ends (line ∷ lines) = line-Ends line _ (session-Ends lines)
