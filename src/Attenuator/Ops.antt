-- ===== src/Attenuator/Ops.antt =====
-- Sequences of calls of the attenuator.
use laser_control.Common.{ℕ, ⊤, Bool, ◌<◌, ◌^◌, List, [], ◌∷◌, Bytes}
use laser_control.Common.Int.{ℤ, IsI32}
use laser_control.Effects.{◌>>◌, pure}
use laser_control.Std.Floating.{Floating}
use laser_control.Serial.{Serial}
use laser_control.Attenuator.{Attenuator, Act}
use laser_control.Attenuator.Frames.{Limits}
use laser_control.Attenuator.Position
use laser_control.Attenuator.Motion
use laser_control.Attenuator.Settings
use laser_control.Attenuator.Status
use laser_control.Attenuator.Transmission
use laser_control.Attenuator.Getters

-- Those that wait for the motor carry the number of polls that they may make. `D` is `double`.
pub data Op (D : Type 0) : Type 0 where
  move go : ℕ → ℤ → Bool → Op D
  get_position : ℕ → Bool → Op D
  set_transmission : ℕ → D → Bool → Op D
  set_cal_parameters : ℤ → D → Op D
  set_current_position : ℤ → Op D
  set_zero go_home save_settings reset_controller refresh_status refresh_position : Op D
  get_status_raw : Op D
  stop : Bool → Op D
  set_resolution set_idle_current set_moving_current set_acceleration : ℕ → Op D
  set_deceleration set_max_speed : ℕ → Op D
  set_serial_number get_serial_number : Bytes → Op D

-- The arguments are numbers of their types, and within the limits. The steps that set_transmission
-- computes can be any int32, so it is within limits that admit them all.
abbrev pub IsWithin : ⦃lim : Limits⦄ {D : Type 0} → Op D → Type 0
IsWithin ⦃lim⦄ (Op.move polls z wait) = lim.steps z
IsWithin ⦃lim⦄ (Op.go polls z wait) = lim.steps z
IsWithin ⦃lim⦄ (Op.set_transmission polls t wait) = (z : ℤ) → IsI32 z → lim.steps z
IsWithin ⦃lim⦄ (Op.set_current_position z) = lim.steps z
IsWithin (Op.set_cal_parameters z scale) = IsI32 z
IsWithin ⦃lim⦄ (Op.set_resolution n) = (n < 2 ^ 16) × lim.resolution n
IsWithin (Op.set_idle_current n) = n < 2 ^ 16
IsWithin (Op.set_moving_current n) = n < 2 ^ 16
IsWithin (Op.set_acceleration n) = n < 2 ^ 16
IsWithin (Op.set_deceleration n) = n < 2 ^ 16
IsWithin ⦃lim⦄ (Op.set_max_speed n) = (n < 2 ^ 32) × lim.speed n
IsWithin op = Unit

module _ ⦃sp : Serial⦄ ⦃fl : Floating⦄ where
  open fl use {Double}

  -- A call, with its answer dropped.
  unfoldable pub call : Op Double → Act ⊤
  call (Op.move polls z wait) = Motion.move polls z wait >> pure tt
  call (Op.go polls z wait) = Motion.go polls z wait >> pure tt
  call (Op.get_position polls wait) = Position.get_position polls (λ p. pure tt) wait >> pure tt
  call (Op.set_transmission polls t wait) = Transmission.set_transmission polls t wait >> pure tt
  call (Op.set_cal_parameters z scale) = Getters.set_cal_parameters z scale
  call (Op.set_current_position z) = Motion.set_current_position z
  call Op.set_zero = Motion.set_zero
  call Op.go_home = Motion.go_home
  call Op.save_settings = Settings.save_settings
  call Op.reset_controller = Settings.reset_controller
  call Op.refresh_status = Status.refresh_status
  call Op.refresh_position = Position.refresh_position
  call Op.get_status_raw = Status.get_status_raw >> pure tt
  call (Op.stop force) = Motion.stop force
  call (Op.set_resolution n) = Settings.set_resolution n
  call (Op.set_idle_current n) = Settings.set_idle_current n
  call (Op.set_moving_current n) = Settings.set_moving_current n
  call (Op.set_acceleration n) = Settings.set_acceleration n
  call (Op.set_deceleration n) = Settings.set_deceleration n
  call (Op.set_max_speed n) = Settings.set_max_speed n
  call (Op.set_serial_number sn) = Settings.set_serial_number sn
  call (Op.get_serial_number before) = Settings.get_serial_number before >> pure tt

  -- A client that goes on after an exception.
  unfoldable pub run : List (Op Double) → Attenuator sp.Port Double → Attenuator sp.Port Double
  run [] a = a
  run (op ∷ ops) a = run ops (call op a).1
