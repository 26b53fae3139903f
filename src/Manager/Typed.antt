-- ===== src/Manager/Typed.antt =====
-- A typed line that sets a number of a device: the words of the line, and the call it stands for.
pub mod Words
pub mod Numbers
pub mod Commands
use laser_control.Common.{ℕ, ⊤, ◌%◌, ◌^◌, Bool, true, List, [], ◌∷◌, ◌++◌, Bytes, codes}
use laser_control.Common.Int.{ℤ, to_unsigned, wrap_i16, wrap_i32}
use laser_control.Effects.{◌>>◌, pure}
use laser_control.Std.Numbers.{show_ℤ}
use laser_control.Std.Floating.{Floating}
use laser_control.Serial.{Serial}
use laser_control.Util.Tokens.RoundTrip.{line_of}
use laser_control.Laser
use laser_control.Attenuator.Motion
use laser_control.Attenuator.Settings
use laser_control.PowerMeter.Modes
use laser_control.PowerMeter.Threshold
use laser_control.Manager.{Host, State, Act, on_laser, on_attenuator, on_meter}
use laser_control.Manager.MeterCommand.{choose_wavelength}

-- The settings of the three devices that are whole numbers.
pub data Setting : Type 0 where
  prescale division qswitch : Setting
  move move_to resolution idle_current move_current acceleration deceleration : Setting
  max_speed : Setting
  wavelength average measurement_mode threshold : Setting

abbrev pub laser_words : Bytes → List Bytes
laser_words sub = codes "laser" ∷ sub ∷ []

abbrev pub motor_words : Bytes → List Bytes
motor_words sub = codes "attenuator" ∷ sub ∷ []

abbrev pub meter_words : Bytes → List Bytes
meter_words setting = codes "power_meter" ∷ codes "set" ∷ setting ∷ []

-- The words in front of the number.
abbrev pub spelled : Setting → List Bytes
spelled Setting.prescale = laser_words (codes "prescale")
spelled Setting.division = laser_words (codes "division")
spelled Setting.qswitch = laser_words (codes "qswitch")
spelled Setting.move = motor_words (codes "move")
spelled Setting.move_to = motor_words (codes "move_to")
spelled Setting.resolution = motor_words (codes "set_resolution")
spelled Setting.idle_current = motor_words (codes "set_idle_current")
spelled Setting.move_current = motor_words (codes "set_move_current")
spelled Setting.acceleration = motor_words (codes "set_acceleration")
spelled Setting.deceleration = motor_words (codes "set_deceleration")
spelled Setting.max_speed = motor_words (codes "set_max_speed")
spelled Setting.wavelength = meter_words (codes "wavelength")
spelled Setting.average = meter_words (codes "average")
spelled Setting.measurement_mode = meter_words (codes "measurement_mode")
spelled Setting.threshold = meter_words (codes "threshold")

abbrev pub words : Setting → ℤ → List Bytes
words k z = spelled k ++ show_ℤ z ∷ []

-- The words and the number in decimal, with a space between each two.
abbrev pub typed : Setting → ℤ → Bytes
typed k z = line_of b' ' (words k z)

module _ ⦃sp : Serial⦄ ⦃fl : Floating⦄ where
  -- Whether the device of the setting is left out by an option of the program.
  abbrev pub ignored : Setting → State → Bool
  ignored Setting.prescale m = m.ignore_laser
  ignored Setting.division m = m.ignore_laser
  ignored Setting.qswitch m = m.ignore_laser
  ignored Setting.wavelength m = m.ignore_pm
  ignored Setting.average m = m.ignore_pm
  ignored Setting.measurement_mode m = m.ignore_pm
  ignored Setting.threshold m = m.ignore_pm
  ignored k m = m.ignore_attenuator

  abbrev pub u16 : ℤ → ℕ
  u16 z = to_unsigned (2 ^ 16) z

  abbrev pub u32 : ℤ → ℕ
  u32 z = to_unsigned (2 ^ 32) z

  -- The call of the device, with the number converted to the type of the parameter.
  abbrev pub issued : Host sp.Port → Setting → ℤ → Act ⊤
  issued host Setting.prescale z = on_laser tt (Laser.set_prescale (u32 z))
  issued host Setting.division z = on_laser tt (Laser.set_prescale (u32 z))
  issued host Setting.qswitch z = on_laser tt (Laser.set_qswitch (u32 z))
  issued host Setting.move z =
      on_attenuator tt (Motion.move host.polls (wrap_i32 z) true >> pure tt)
  issued host Setting.move_to z =
      on_attenuator tt (Motion.go host.polls (wrap_i32 z) true >> pure tt)
  issued host Setting.resolution z = on_attenuator tt (Settings.set_resolution (u16 z))
  issued host Setting.idle_current z = on_attenuator tt (Settings.set_idle_current (u16 z))
  issued host Setting.move_current z = on_attenuator tt (Settings.set_moving_current (u16 z))
  issued host Setting.acceleration z = on_attenuator tt (Settings.set_acceleration (u16 z))
  issued host Setting.deceleration z = on_attenuator tt (Settings.set_deceleration (u16 z))
  issued host Setting.max_speed z = on_attenuator tt (Settings.set_max_speed (u32 z))
  issued host Setting.wavelength z = on_meter tt (choose_wavelength (u16 z))
  issued host Setting.average z = on_meter tt (Modes.average_query (u16 z) >> pure tt)
  issued host Setting.measurement_mode z = on_meter tt (Modes.measurement_mode (u16 z) >> pure tt)
  issued host Setting.threshold z =
      on_meter tt (Threshold.user_threshold (u16 z) (host.leftover % 2 ^ 16) >> pure tt)
