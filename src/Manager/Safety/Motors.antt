-- ===== src/Manager/Safety/Motors.antt =====
-- What the commands of the program do to the attenuator keeps its traffic and its registers.
use laser_control.Common.{ℕ, Bool, ◌<◌, ◌^◌, List, [], ◌∷◌, Bytes, arith}
use laser_control.Common.Int.{ℤ, IsI32, to_unsigned, wrap_i32-IsI32, pos, negsuc}
use laser_control.Effects.{Action, pure}
use laser_control.Effects.Hoare.{Keeps, keeps_rules, Keeps-pure}
use laser_control.Std.Floating.{Floating}
use laser_control.Serial.{Serial}
use laser_control.Serial.Logged.{logged}
use laser_control.Device as Dev
use laser_control.Device.Keeps.{quiet-IsClean}
use laser_control.Attenuator.{on_device}
use laser_control.Attenuator.Position
use laser_control.Attenuator.Settings
use laser_control.Attenuator.Transmission
use laser_control.Attenuator.Getters
use laser_control.Attenuator.Frames.{widths}
use laser_control.Attenuator.Safety.{Motor, IsKept, device-IsKept}
use laser_control.Attenuator.Safety.Polls.{get_position-IsKept, refresh_position-IsKept}
use laser_control.Attenuator.Safety.Calls.{
  move-IsKept, go-IsKept, set_zero-IsKept, go_home-IsKept, stop-IsKept, set_resolution-IsKept,
  set_idle_current-IsKept, set_moving_current-IsKept, set_acceleration-IsKept,
  set_deceleration-IsKept, set_max_speed-IsKept, reset_controller-IsKept, get_serial_number-IsKept,
}
use laser_control.Attenuator.Safety.Runs.{refresh_status-IsKept, get_status_raw-IsKept}
use laser_control.Manager.Arguments.{u16_of, u32_of, i32_of}
use laser_control.Manager.MotorCommand.{
  query_settings, get_settings, attenuator_request, attenuator_setting, attenuator_command,
}

-- The numbers of a command are numbers of their types.
i32_of-IsI32 : (text : Bytes) → IsI32 (i32_of text)
unfolding i32_of
i32_of-IsI32 text = wrap_i32-IsI32 _

u16_below : (z : ℤ) → to_unsigned (2 ^ 16) z < 2 ^ 16
unfolding to_unsigned
u16_below (pos n) = omega arith
u16_below (negsuc n) = omega arith

u32_below : (z : ℤ) → to_unsigned (2 ^ 32) z < 2 ^ 32
unfolding to_unsigned
u32_below (pos n) = omega arith
u32_below (negsuc n) = omega arith

pub u16_of_fits : (text : Bytes) → u16_of text < 2 ^ 16
unfolding u16_of
u16_of_fits text = u16_below _

u32_of_fits : (text : Bytes) → u32_of text < 2 ^ 32
unfolding u32_of
u32_of_fits text = u32_below _

module _ (sp : Serial) ⦃fl : Floating⦄ where
  abbrev Holds : {A : Type 0} → Action (Motor sp) A → Type 0
  Holds m = Keeps (IsKept sp) m

  is_open-IsKept : Holds (on_device (Dev.is_open ⦃sp = logged sp⦄))
  unfolding Dev.is_open
  is_open-IsKept = device-IsKept sp _ (search keeps_rules)

  pub destroy-IsKept : Holds (Getters.destroy ⦃sp = logged sp⦄)
  unfolding Getters.destroy Dev.destroy Dev.is_open Dev.close
  destroy-IsKept = search (keeps_rules, device-IsKept, quiet-IsClean) depth 20

  pub connect-IsKept : Holds (Transmission.connect ⦃sp = logged sp⦄)
  unfolding Transmission.connect
  connect-IsKept =
      search
        (
          keeps_rules, device-IsKept, quiet-IsClean, is_open-IsKept, refresh_status-IsKept,
          refresh_position-IsKept,
        )
        depth 30

  looks :
      (polls : ℕ) (wait : Bool)
      → Holds (Position.get_position ⦃sp = logged sp⦄ polls (λ p. pure tt) wait)
  looks polls wait = get_position-IsKept sp polls _ wait (λ z. Keeps-pure tt)

  pub query_settings-IsKept : Holds (query_settings ⦃sp = logged sp⦄)
  unfolding query_settings Getters.get_offset Getters.get_max_speed Getters.get_op_mode
      Getters.get_acceleration Getters.get_deceleration Settings.get_resolution
      Getters.get_current_idle Getters.get_current_move
  query_settings-IsKept =
      search
        (keeps_rules, refresh_status-IsKept, get_serial_number-IsKept, get_status_raw-IsKept, looks)
        depth 30

  get_settings-IsKept : Holds (get_settings ⦃sp = logged sp⦄)
  unfolding get_settings Getters.get_offset Getters.get_max_speed Getters.get_op_mode
      Getters.get_motor_state Getters.get_acceleration Getters.get_deceleration
      Settings.get_resolution Getters.get_current_idle Getters.get_current_move
  get_settings-IsKept =
      search (keeps_rules, refresh_status-IsKept, get_serial_number-IsKept) depth 30

  attenuator_request-IsKept : (sub : Bytes) → Holds (attenuator_request ⦃sp = logged sp⦄ sub)
  unfolding attenuator_request
  attenuator_request-IsKept sub =
      search
        (
          keeps_rules, set_zero-IsKept, stop-IsKept, go_home-IsKept, looks, reset_controller-IsKept,
          get_settings-IsKept,
        )
        depth 20

  attenuator_setting-IsKept :
      (polls : ℕ) (sub text : Bytes) → Holds (attenuator_setting ⦃sp = logged sp⦄ polls sub text)
  unfolding attenuator_setting
  attenuator_setting-IsKept polls sub text =
      search
        (
          keeps_rules, i32_of-IsI32, u16_of_fits, u32_of_fits, move-IsKept, go-IsKept,
          set_resolution-IsKept, set_idle_current-IsKept, set_moving_current-IsKept,
          set_acceleration-IsKept, set_deceleration-IsKept, set_max_speed-IsKept,
        )
        depth 20

  pub attenuator_command-IsKept :
      (polls : ℕ) (args : List Bytes) → Holds (attenuator_command ⦃sp = logged sp⦄ polls args)
  unfolding attenuator_command
  attenuator_command-IsKept polls [] = search keeps_rules
  attenuator_command-IsKept polls (sub ∷ []) = attenuator_request-IsKept sub
  attenuator_command-IsKept polls (sub ∷ text ∷ []) = attenuator_setting-IsKept polls sub text
  attenuator_command-IsKept polls (a ∷ b ∷ c ∷ args) = search keeps_rules
