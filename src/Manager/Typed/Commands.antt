-- ===== src/Manager/Typed/Commands.antt =====
-- From a typed line to a call of a device.
use laser_control.Common.{
  ◌≡◌, refl, false, inl, inr, ⊤, Option-cases, ◌∷◌, codes, arith, Bytes, List,
}
use laser_control.Common.Int.{ℤ}
use laser_control.Effects.{◌>>=◌, ◌>>◌, pure}
use laser_control.Std.Strings.{bytes_eq}
use laser_control.Std.Numbers.Auto.RoundTrip.{IsI64}
use laser_control.Std.Floating.{Floating}
use laser_control.Serial.{Serial}
use laser_control.Laser as Lasers
use laser_control.Attenuator as Attenuators
use laser_control.PowerMeter as Meters
use laser_control.Manager.{Host, State, caught, on_laser, on_attenuator, on_meter}
use laser_control.Manager.LaserCommand.{laser_command, laser_setting}
use laser_control.Manager.MotorCommand.{attenuator_command, attenuator_setting}
use laser_control.Manager.MeterCommand.{meter_command, meter_set}
use laser_control.Manager.Commands.{
  run_laser, run_attenuator, attenuator_words, run_meter, meter_words, dispatch, run_command,
}
use laser_control.Manager.Words.{command_words}
use laser_control.Manager.Typed.{Setting, words, typed, ignored, issued}
use laser_control.Manager.Typed.Words.{command_words-typed}
use laser_control.Manager.Typed.Numbers.{u16_of-show_ℤ, u32_of-show_ℤ, i32_of-show_ℤ}

module _ ⦃sp : Serial⦄ ⦃fl : Floating⦄ (host : Host sp.Port) where
  -- The words of a device, behind its name, are a call of it.
  run_laser-called :
      (args : List Bytes) (call : Lasers.Act ⊤) (m : State)
      → laser_command args ≡ call
      → m.ignore_laser ≡ false
      → run_laser args m ≡ (on_laser tt call >> pure 0) m
  unfolding run_laser ◌>>=◌
  run_laser-called args call m e h = rw e (ground (arith, h))

  run_attenuator-called :
      (w : Bytes) (args : List Bytes) (call : Attenuators.Act ⊤) (m : State)
      → attenuator_command host.polls (w ∷ args) ≡ call
      → m.ignore_attenuator ≡ false
      → run_attenuator host (w ∷ args) m ≡ (on_attenuator tt call >> pure 0) m
  unfolding run_attenuator attenuator_words on_attenuator ◌>>=◌
  run_attenuator-called w args call m e h = elim (Option-cases m.attenuator) [
    | inl missing ↦ rw e (ground (arith, h, missing))
    | inr (a, mapped) ↦ rw e (ground (arith, h, mapped))
  ]

  run_meter-called :
      (w : Bytes) (args : List Bytes) (call : Meters.Act ⊤) (m : State)
      → meter_command host.leftover (w ∷ args) ≡ call
      → m.ignore_pm ≡ false
      → run_meter host (w ∷ args) m ≡ (on_meter tt call >> pure 0) m
  unfolding run_meter meter_words on_meter ◌>>=◌
  run_meter-called w args call m e h = elim (Option-cases m.power_meter) [
    | inl missing ↦ rw e (ground (arith, h, missing))
    | inr (a, mapped) ↦ rw e (ground (arith, h, mapped))
  ]

  laser_issued :
      (args : List Bytes) (call : Lasers.Act ⊤) (m : State)
      → laser_command args ≡ call
      → m.ignore_laser ≡ false
      → run_command host (codes "laser" ∷ args) m ≡ caught (on_laser tt call >> pure 0) m
  unfolding run_command dispatch bytes_eq caught
  laser_issued args call m e h = rw (run_laser-called args call m e h) refl

  motor_issued :
      (w : Bytes) (args : List Bytes) (call : Attenuators.Act ⊤) (m : State)
      → attenuator_command host.polls (w ∷ args) ≡ call
      → m.ignore_attenuator ≡ false
      → run_command host (codes "attenuator" ∷ w ∷ args) m
        ≡ caught (on_attenuator tt call >> pure 0) m
  unfolding run_command dispatch bytes_eq caught
  motor_issued w args call m e h = rw (run_attenuator-called w args call m e h) refl

  meter_issued :
      (w : Bytes) (args : List Bytes) (call : Meters.Act ⊤) (m : State)
      → meter_command host.leftover (w ∷ args) ≡ call
      → m.ignore_pm ≡ false
      → run_command host (codes "power_meter" ∷ w ∷ args) m ≡ caught (on_meter tt call >> pure 0) m
  unfolding run_command dispatch bytes_eq caught
  meter_issued w args call m e h = rw (run_meter-called w args call m e h) refl

  run_command-issued :
      (k : Setting) (z : ℤ) (m : State)
      → IsI64 z
      → ignored k m ≡ false
      → run_command host (words k z) m ≡ caught (issued host k z >> pure 0) m
  unfolding laser_command laser_setting attenuator_command attenuator_setting meter_command
      meter_set bytes_eq
  run_command-issued Setting.prescale z m h e = laser_issued _ _ m (rw (u32_of-show_ℤ z h) refl) e
  run_command-issued Setting.division z m h e = laser_issued _ _ m (rw (u32_of-show_ℤ z h) refl) e
  run_command-issued Setting.qswitch z m h e = laser_issued _ _ m (rw (u32_of-show_ℤ z h) refl) e
  run_command-issued Setting.move z m h e = motor_issued _ _ _ m (rw (i32_of-show_ℤ z h) refl) e
  run_command-issued Setting.move_to z m h e = motor_issued _ _ _ m (rw (i32_of-show_ℤ z h) refl) e
  run_command-issued Setting.resolution z m h e =
      motor_issued _ _ _ m (rw (u16_of-show_ℤ z h) refl) e
  run_command-issued Setting.idle_current z m h e =
      motor_issued _ _ _ m (rw (u16_of-show_ℤ z h) refl) e
  run_command-issued Setting.move_current z m h e =
      motor_issued _ _ _ m (rw (u16_of-show_ℤ z h) refl) e
  run_command-issued Setting.acceleration z m h e =
      motor_issued _ _ _ m (rw (u16_of-show_ℤ z h) refl) e
  run_command-issued Setting.deceleration z m h e =
      motor_issued _ _ _ m (rw (u16_of-show_ℤ z h) refl) e
  run_command-issued Setting.max_speed z m h e =
      motor_issued _ _ _ m (rw (u32_of-show_ℤ z h) refl) e
  run_command-issued Setting.wavelength z m h e =
      meter_issued _ _ _ m (rw (u16_of-show_ℤ z h) refl) e
  run_command-issued Setting.average z m h e = meter_issued _ _ _ m (rw (u16_of-show_ℤ z h) refl) e
  run_command-issued Setting.measurement_mode z m h e =
      meter_issued _ _ _ m (rw (u16_of-show_ℤ z h) refl) e
  run_command-issued Setting.threshold z m h e =
      meter_issued _ _ _ m (rw (u16_of-show_ℤ z h) refl) e

  -- A line that names a device which is not ignored, one of its settings and a `long` in decimal:
  -- the command is the call with that number, converted to the type of the parameter, where there
  -- is a device, and answers 0, or 1 where the call throws.
  pub setting_typed :
      (k : Setting) (z : ℤ) (m : State)
      → IsI64 z
      → ignored k m ≡ false
      → run_command host (command_words (typed k z)) m ≡ caught (issued host k z >> pure 0) m
  setting_typed k z m h e = rw (command_words-typed k z) (run_command-issued k z m h e)
