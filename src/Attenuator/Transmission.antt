-- ===== src/Attenuator/Transmission.antt =====
-- Transmission and motor steps, and the constructor.
pub mod Calibration
use laser_control.Common.{ℕ, ⊤, Bool, not, ◌||◌, Option}
use laser_control.Common.Int.{ℤ, pos, ◌+ℤ◌, ◌-ℤ◌, wrap_i32}
use laser_control.Effects.{range_error, port_not_opened, ◌>>=◌, ◌>>◌, gets, throw_if}
use laser_control.Std.Floating.{Floating}
use laser_control.Serial.{Serial}
use laser_control.Device as Dev
use laser_control.Attenuator.{Attenuator, Act, on_device}
use laser_control.Attenuator.Position.{refresh_position}
use laser_control.Attenuator.Motion.{go}
use laser_control.Attenuator.Status.{refresh_status}

module _ ⦃sp : Serial⦄ ⦃fl : Floating⦄ where
  open fl use {Double, literal, lt, mul, div, pi, acos, cos, sqrt, pow, of_int, to_int}

  -- `static_cast<int32_t>(m_cal_scale * 180/M_PI * std::acos(std::sqrt(trans)))`.
  unfoldable pub raw_steps : Double → Double → ℤ
  raw_steps scale trans = to_int (mul (div (mul scale (of_int (pos 180))) pi) (acos (sqrt trans)))

  unfoldable pub trans_to_steps : Double → Attenuator sp.Port Double → ℤ
  trans_to_steps trans a =
      wrap_i32 (wrap_i32 (raw_steps a.cal_scale trans +ℤ a.offset) +ℤ a.cal_offset)

  -- `std::pow(std::cos(step_raw * M_PI / (m_cal_scale * 180.)), 2)`.
  unfoldable pub raw_transmission : Double → ℤ → Double
  raw_transmission scale step_raw =
      pow (cos (div (mul (of_int step_raw) pi) (mul scale (of_int (pos 180))))) (of_int (pos 2))

  unfoldable pub steps_to_trans : ℤ → Attenuator sp.Port Double → Double
  steps_to_trans steps a =
      raw_transmission a.cal_scale (wrap_i32 (wrap_i32 (steps -ℤ a.offset) -ℤ a.cal_offset))

  unfoldable pub transmission_out_of_range : Double → Bool
  transmission_out_of_range trans = lt trans (literal (pos 0) 1) || lt (literal (pos 100) 2) trans

  unfoldable pub set_transmission : ℕ → Double → Bool → Act (Option ℤ)
  set_transmission polls trans wait = do
    throw_if (transmission_out_of_range trans)
        (range_error "Attenuator::set_transmission : transmission [")
    steps ← gets (trans_to_steps trans)
    go polls steps wait

  unfoldable pub get_transmission : Act Double
  get_transmission = gets (λ a. steps_to_trans a.position a)

  -- The rest of `Attenuator::Attenuator`: the port is set up and opened, and the registers read.
  unfoldable pub connect : Act ⊤
  connect = do
    baud ← gets (λ a. a.baud)
    on_device (Dev.on_serial (sp.set_baudrate baud))
    port ← gets (λ a. a.comport)
    on_device (Dev.on_serial (sp.set_port port))
    on_device (Dev.on_serial sp.set_8n1)
    ms ← gets (λ a. a.timeout_ms)
    on_device (Dev.on_serial (sp.set_timeout ms))
    on_device (Dev.on_serial sp.open_port)
    opened ← on_device Dev.is_open
    throw_if (not opened) (port_not_opened "initial communication")
    refresh_status
    refresh_position
