-- ===== src/Manager/MotorCommand.antt =====
-- The commands of the attenuator, and its list of settings.
use laser_control.Common.{ℕ, ⊤, true, false, List, [], ◌∷◌, Bytes, codes, if◌then◌else◌}
use laser_control.Effects.{◌>>◌, pure}
use laser_control.Std.Strings.{bytes_eq}
use laser_control.Std.Floating.{Floating}
use laser_control.Serial.{Serial}
use laser_control.Attenuator.{Act}
use laser_control.Attenuator.Position
use laser_control.Attenuator.Motion
use laser_control.Attenuator.Settings
use laser_control.Attenuator.Status
use laser_control.Attenuator.Getters
use laser_control.Manager.Arguments.{u16_of, u32_of, i32_of}

module _ ⦃sp : Serial⦄ ⦃fl : Floating⦄ where
  -- The calls of `query_attenuator_settings`. The position is read to a local variable.
  unfoldable pub query_settings : Act ⊤
  query_settings = do
    Status.refresh_status
    Settings.get_serial_number []
    Status.get_status_raw
    Position.get_position 0 (λ p. pure tt) false
    Getters.get_offset
    Getters.get_max_speed
    Getters.get_op_mode
    Getters.get_acceleration
    Getters.get_deceleration
    Settings.get_resolution
    Getters.get_current_idle
    Getters.get_current_move
    pure tt

  -- The subcommand `get_settings`.
  unfoldable pub get_settings : Act ⊤
  get_settings = do
    Status.refresh_status
    Settings.get_serial_number []
    Getters.get_offset
    Getters.get_max_speed
    Getters.get_op_mode
    Getters.get_motor_state
    Getters.get_acceleration
    Getters.get_deceleration
    Settings.get_resolution
    Getters.get_current_idle
    Getters.get_current_move
    pure tt

  unfoldable pub attenuator_request : Bytes → Act ⊤
  attenuator_request sub =
      if bytes_eq sub (codes "set_zero")
      then Motion.set_zero
      else if bytes_eq sub (codes "stop")
      then Motion.stop false
      else if bytes_eq sub (codes "go_home")
      then Motion.go_home
      else if bytes_eq sub (codes "get_position")
      then Position.get_position 0 (λ p. pure tt) false >> pure tt
      else if bytes_eq sub (codes "reset")
      then Settings.reset_controller
      else if bytes_eq sub (codes "get_settings")
      then get_settings
      else pure tt

  unfoldable pub attenuator_setting : ℕ → Bytes → Bytes → Act ⊤
  attenuator_setting polls sub text =
      if bytes_eq sub (codes "move")
      then Motion.move polls (i32_of text) true >> pure tt
      else if bytes_eq sub (codes "move_to")
      then Motion.go polls (i32_of text) true >> pure tt
      else if bytes_eq sub (codes "set_resolution")
      then Settings.set_resolution (u16_of text)
      else if bytes_eq sub (codes "set_idle_current")
      then Settings.set_idle_current (u16_of text)
      else if bytes_eq sub (codes "set_move_current")
      then Settings.set_moving_current (u16_of text)
      else if bytes_eq sub (codes "set_acceleration")
      then Settings.set_acceleration (u16_of text)
      else if bytes_eq sub (codes "set_deceleration")
      then Settings.set_deceleration (u16_of text)
      else if bytes_eq sub (codes "set_max_speed")
      then Settings.set_max_speed (u32_of text)
      else pure tt

  -- The words behind "attenuator", of which there is at least one.
  unfoldable pub attenuator_command : ℕ → List Bytes → Act ⊤
  attenuator_command polls (sub ∷ []) = attenuator_request sub
  attenuator_command polls (sub ∷ text ∷ []) = attenuator_setting polls sub text
  attenuator_command polls _ = pure tt
