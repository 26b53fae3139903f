-- ===== src/Attenuator/Getters.antt =====
-- The functions of the attenuator that answer from the cached settings, those of the calibration,
-- and the destructor.
use laser_control.Common.{ℕ, ⊤, Bool}
use laser_control.Common.Int.{ℤ, pos}
use laser_control.Effects.{◌>>=◌, ◌>>◌, pure, gets, modify}
use laser_control.Std.Floating.{Floating}
use laser_control.Serial.{Serial}
use laser_control.Device as Dev
use laser_control.Attenuator.{Act, on_device}
use laser_control.Attenuator.Position

module _ ⦃sp : Serial⦄ ⦃fl : Floating⦄ where
  open fl use {Float, Double, literal, to_float, mul, of_int}

  unfoldable pub get_offset : Act ℤ
  get_offset = gets (λ a. a.offset)

  unfoldable pub get_max_speed : Act ℕ
  get_max_speed = gets (λ a. a.max_speed)

  unfoldable pub get_op_mode : Act ℤ
  get_op_mode = gets (λ a. a.op_mode)

  unfoldable pub get_motor_state : Act ℤ
  get_motor_state = gets (λ a. a.motor_state)

  unfoldable pub get_acceleration : Act ℕ
  get_acceleration = gets (λ a. a.acceleration)

  unfoldable pub get_deceleration : Act ℕ
  get_deceleration = gets (λ a. a.deceleration)

  unfoldable pub get_current_idle : Act ℕ
  get_current_idle = gets (λ a. a.current_idle)

  unfoldable pub get_current_move : Act ℕ
  get_current_move = gets (λ a. a.current_move)

  unfoldable pub get_reset_on_zero : Act Bool
  get_reset_on_zero = gets (λ a. a.reset_on_zero)

  unfoldable pub get_report_on_zero : Act Bool
  get_report_on_zero = gets (λ a. a.report_on_zero)

  unfoldable pub set_cal_parameters : ℤ → Double → Act ⊤
  set_cal_parameters offset scale =
      modify (λ a. record a { cal_offset = offset; cal_scale = scale })

  unfoldable pub get_cal_parameters : Act (ℤ × Double)
  get_cal_parameters = gets (λ a. (a.cal_offset, a.cal_scale))

  unfoldable pub convert_current : ℕ → Float
  convert_current val = to_float (mul (literal (pos 835) 5) (of_int (pos val)))

  -- The overload whose status is a `MotorState`.
  unfoldable pub get_position_state : ℕ → (ℤ → Act ⊤) → Bool → Act (ℤ × ℤ)
  get_position_state polls put wait = do
    now ← Position.get_position polls put wait
    pure (now.0, pos now.1)

  -- `Attenuator::~Attenuator`, and the destructor of the base class after it.
  unfoldable pub destroy : Act ⊤
  destroy = do on_device Dev.destroy; on_device Dev.destroy
