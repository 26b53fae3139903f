-- ===== src/Manager/Safety/Lasers.antt =====
-- What the commands of the program do to the laser keeps its traffic and its settings safe.
use laser_control.Common.{ℕ, List, [], ◌∷◌, Bytes, codes}
use laser_control.Effects.{Action}
use laser_control.Effects.Hoare.{Keeps, keeps_rules}
use laser_control.Std.Floating.{Floating}
use laser_control.Serial.{Serial}
use laser_control.Serial.Logged.{LoggedPort, logged}
use laser_control.Device as Dev
use laser_control.Device.Keeps.{IsClean, quiet-IsClean}
use laser_control.Laser
use laser_control.Laser.{Laser, on_device, new_laser}
use laser_control.Laser.Frames.{IsFrame, unrated}
use laser_control.Laser.Safety.{
  IsSafe, device-IsSafe, shutter-IsSafe, fire-IsSafe, set_prescale-IsSafe, voltage-IsSafe,
  qswitch-IsSafe, single_shot-IsSafe, security-IsSafe, shot_count-IsSafe,
}
use laser_control.Manager.LaserCommand.{
  laser_request, laser_setting, laser_command, check_laser, retire_laser,
}

module _ (sp : Serial) ⦃fl : Floating⦄ where
  abbrev Holds : {A : Type 0} → Action (Laser (LoggedPort sp) fl.Float) A → Type 0
  Holds m = Keeps (IsSafe sp) m

  is_open-IsClean : Keeps (IsClean sp IsFrame [] (codes "\r")) (Dev.is_open ⦃sp = logged sp⦄)
  unfolding Dev.is_open
  is_open-IsClean = search keeps_rules

  close-IsClean : Keeps (IsClean sp IsFrame [] (codes "\r")) (Dev.close ⦃sp = logged sp⦄)
  unfolding Dev.close
  close-IsClean = quiet-IsClean sp IsFrame [] (codes "\r") _

  destroy-IsClean : Keeps (IsClean sp IsFrame [] (codes "\r")) (Dev.destroy ⦃sp = logged sp⦄)
  unfolding Dev.destroy
  destroy-IsClean = search (keeps_rules, is_open-IsClean, close-IsClean)

  set_timeout_ms-IsClean :
      (t : ℕ) → Keeps (IsClean sp IsFrame [] (codes "\r")) (Dev.set_timeout_ms ⦃sp = logged sp⦄ t)
  unfolding Dev.set_timeout_ms
  set_timeout_ms-IsClean t = quiet-IsClean sp IsFrame [] (codes "\r") _

  pub connect-IsSafe : Holds (Laser.connect ⦃sp = logged sp⦄)
  unfolding Laser.connect
  connect-IsSafe = search (keeps_rules, device-IsSafe, quiet-IsClean, is_open-IsClean) depth 30

  pub check_laser-IsSafe : Holds (check_laser ⦃sp = logged sp⦄)
  unfolding check_laser
  check_laser-IsSafe =
      search
        (keeps_rules, device-IsSafe, set_timeout_ms-IsClean, security-IsSafe, shot_count-IsSafe)
        depth 20

  pub retire_laser-IsSafe : Holds (retire_laser ⦃sp = logged sp⦄)
  unfolding retire_laser
  retire_laser-IsSafe =
      search (keeps_rules, device-IsSafe, destroy-IsClean, fire-IsSafe, shutter-IsSafe) depth 12

  laser_request-IsSafe : (sub : Bytes) → Holds (laser_request ⦃sp = logged sp⦄ sub)
  unfolding laser_request
  laser_request-IsSafe sub =
      search
        (
          keeps_rules, single_shot-IsSafe, shot_count-IsSafe, security-IsSafe, fire-IsSafe,
          shutter-IsSafe,
        )
        depth 20

  -- A voltage that passes the test is sent as it is.
  passed-IsSafe : (hv : fl.Float) → Holds (Laser.set_pump_voltage ⦃sp = logged sp⦄ hv)
  passed-IsSafe hv = voltage-IsSafe sp hv λ fits. fits

  laser_setting-IsSafe : (sub text : Bytes) → Holds (laser_setting ⦃sp = logged sp⦄ sub text)
  unfolding laser_setting
  laser_setting-IsSafe sub text =
      search (keeps_rules, set_prescale-IsSafe, passed-IsSafe, qswitch-IsSafe) depth 20

  pub laser_command-IsSafe : (args : List Bytes) → Holds (laser_command ⦃sp = logged sp⦄ args)
  unfolding laser_command
  laser_command-IsSafe [] = search keeps_rules
  laser_command-IsSafe (sub ∷ []) = laser_request-IsSafe sub
  laser_command-IsSafe (sub ∷ text ∷ []) = laser_setting-IsSafe sub text
  laser_command-IsSafe (a ∷ b ∷ c ∷ args) = search keeps_rules
