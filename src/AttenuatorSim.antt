-- ===== src/AttenuatorSim.antt =====
-- include/AttenuatorSim.hh and src/AttenuatorSim.cpp: the attenuator without a device. An
-- enumeration that the code casts a number to is that number. What `move` and `go` store in their
-- reference argument is their result.
pub mod Refines
pub mod Histories
pub mod Tests
use laser_control.Common.{
  ℕ, ⊤, Bool, true, false, not, ◌||◌, ◌==◌, ◌%◌, ◌^◌, Bytes, codes, if◌then◌else◌, String,
}
use laser_control.Common.Int.{ℤ, pos, negsuc, ◌+ℤ◌, ◌-ℤ◌, is_zero, wrap_i32}
use laser_control.Effects.{
  Action, runtime_error, range_error, ◌>>=◌, ◌>>◌, pure, gets, modify, throw_if,
}
use laser_control.Std.Floating.{Floating}
use laser_control.Attenuator.Settings.{padded_name}

pub record AttenuatorSim : Type 0 where
  pub offset : ℤ
  pub max_speed : ℕ
  pub op_mode : ℤ
  -- 0 is `Stopped`
  pub motor_state : ℤ
  pub acceleration : ℕ
  pub deceleration : ℕ
  pub resolution : ℕ
  pub motor_enabled : Bool
  pub position : ℤ
  pub current_idle : ℕ
  pub current_move : ℕ
  pub reset_on_zero : Bool
  pub report_on_zero : Bool
  pub serial_number : Bytes

abbrev pub SimAct : Type 0 → Type 0
SimAct A = Action AttenuatorSim A

-- The fields as `AttenuatorSim::AttenuatorSim` sets them, before its two calls.
abbrev pub new_sim : AttenuatorSim
new_sim = record {
  offset = pos 0;
  max_speed = 59000;
  op_mode = pos 1;
  motor_state = pos 0;
  acceleration = 0;
  deceleration = 0;
  resolution = 2;
  motor_enabled = true;
  position = pos 0;
  current_idle = 10;
  current_move = 100;
  reset_on_zero = false;
  report_on_zero = false;
  serial_number = codes "unknown";
}

unfoldable pub refresh_status : SimAct ⊤
refresh_status = modify (λ a. record a {
  op_mode = pos 1;
  motor_state = pos 0;
  acceleration = 200;
  deceleration = 200;
  max_speed = 200;
  current_move = 42;
  current_idle = 42;
  resolution = 1;
  motor_enabled = true;
  reset_on_zero = false;
  report_on_zero = true;
})

-- `get_position`: the position and the status.
unfoldable pub get_position : SimAct (ℤ × ℕ)
get_position = gets (λ a. (a.position, 0))

unfoldable pub refresh_position : SimAct ⊤
refresh_position = do
  now ← get_position
  modify (λ a. record a { position = now.0; motor_state = pos now.1 })

-- The rest of `AttenuatorSim::AttenuatorSim`.
unfoldable pub connect : SimAct ⊤
connect = do refresh_status; refresh_position

-- The poll and the test at the head of each command.
unfoldable pub require_stopped : String → SimAct ⊤
require_stopped message = do
  refresh_position
  state ← gets (λ a. a.motor_state)
  throw_if (not (is_zero state)) (runtime_error message)

unfoldable pub move : ℤ → SimAct ℤ
move steps = do
  require_stopped "Can't move motor until it is in a stopped (state="
  modify (λ a. record a { position = wrap_i32 (a.position +ℤ steps) })
  gets (λ a. a.position)

unfoldable pub go : ℤ → SimAct ℤ
go target = do
  require_stopped "Can't move motor until it is in a stopped (state="
  modify (λ a. record a { position = target })
  pure target

unfoldable pub set_current_position : ℤ → SimAct ⊤
set_current_position p = do
  require_stopped "Can't reconfigure motor until it is in a stopped (state="
  modify (λ a. record a { offset = wrap_i32 (a.offset +ℤ wrap_i32 (p -ℤ a.position)) })

unfoldable pub set_zero : SimAct ⊤
set_zero = do
  require_stopped "Can't reconfigure motor until it is in a stopped (state="
  modify (λ a. record a { offset = wrap_i32 (a.offset +ℤ a.position) })

unfoldable pub go_home : SimAct ⊤
go_home = do
  require_stopped "Can't reconfigure motor until it is in a stopped (state="
  modify (λ a. record a { offset = pos 0 })

-- `stop`, `save_settings` and `reset_controller` do nothing.
unfoldable pub stop : Bool → SimAct ⊤
stop force = pure tt

unfoldable pub save_settings : SimAct ⊤
save_settings = pure tt

unfoldable pub reset_controller : SimAct ⊤
reset_controller = pure tt

unfoldable pub set_resolution : ℕ → SimAct ⊤
set_resolution res = modify (λ a. record a { resolution = res })

unfoldable pub set_idle_current : ℕ → SimAct ⊤
set_idle_current val = modify (λ a. record a { current_idle = val })

unfoldable pub set_moving_current : ℕ → SimAct ⊤
set_moving_current val = modify (λ a. record a { current_move = val })

unfoldable pub set_acceleration : ℕ → SimAct ⊤
set_acceleration val = modify (λ a. record a { acceleration = val })

unfoldable pub set_deceleration : ℕ → SimAct ⊤
set_deceleration val = modify (λ a. record a { deceleration = val })

unfoldable pub set_max_speed : ℕ → SimAct ⊤
set_max_speed speed = modify (λ a. record a { max_speed = speed })

unfoldable pub get_status_raw : SimAct Bytes
get_status_raw = pure (codes "unknown")

unfoldable pub set_serial_number : Bytes → SimAct ⊤
set_serial_number sn = modify (λ a. record a { serial_number = padded_name sn })

unfoldable pub get_serial_number : SimAct Bytes
get_serial_number = gets (λ a. a.serial_number)

-- The number that is returned is also stored.
unfoldable pub get_resolution : SimAct ℕ
get_resolution = do
  held ← gets (λ a. a.resolution % 2 ^ 16)
  let res = if held == 6 then 16 else held
  modify (λ a. record a { resolution = res })
  pure res

module _ ⦃fl : Floating⦄ where
  open fl use {
    Float, Double, literal, lt, mul, div, pi, acos, sqrt, of_int, to_int, to_double, to_float,
  }

  -- A function of `double`, rounded: the overload for `float`.
  abbrev rounded : (Double → Double) → Double → Double
  rounded f x = to_double (to_float (f x))

  -- `static_cast<int32_t>` of the float that `-43.333333 * 180/M_PI * acos(sqrt(trans))` is.
  unfoldable pub raw_steps : Float → ℤ
  raw_steps trans =
      let scale = div (mul (literal (negsuc 43333332) 6) (of_int (pos 180))) pi in
      to_int (to_double (to_float (mul scale (rounded acos (rounded sqrt (to_double trans))))))

  unfoldable pub trans_to_steps : Float → AttenuatorSim → ℤ
  trans_to_steps trans a = wrap_i32 (wrap_i32 (raw_steps trans +ℤ a.offset) +ℤ pos 3900)

  unfoldable pub transmission_out_of_range : Float → Bool
  transmission_out_of_range trans =
      lt (to_double trans) (literal (pos 0) 1) || lt (literal (pos 100) 2) (to_double trans)

  unfoldable pub set_transmission : Float → SimAct ⊤
  set_transmission trans = do
    throw_if (transmission_out_of_range trans)
        (range_error "Attenuator::set_transmission : transmission [")
    steps ← gets (trans_to_steps trans)
    reached ← go steps
    pure tt
