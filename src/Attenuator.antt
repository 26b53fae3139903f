-- ===== src/Attenuator.antt =====
-- include/Attenuator.hh and src/Attenuator.cpp: the rotating attenuator and its stepper motor. An
-- enumeration that the code casts a number to is that number. A reference argument to which
-- `get_position` writes before it may throw is the action `put`.
pub mod Port
pub mod Position
pub mod Motion
pub mod Getters
pub mod Settings
pub mod Status
pub mod Transmission
pub mod Guards
pub mod Frames
pub mod Ops
pub mod Safety
pub mod Waits
pub mod Replies
pub mod Names
pub mod Offsets
pub mod Registers
pub mod Tests
use laser_control.Common.{ℕ, ⊤, Bool, true, false, not, Bytes, codes, []}
use laser_control.Common.Int.{ℤ, pos, negsuc}
use laser_control.Effects.{Action, on_part}
use laser_control.Std.Floating.{Floating}
use laser_control.Serial.{Serial}
use laser_control.Device
use laser_control.Device.{Device}

-- `P` is the type of `m_serial`, and `D` is `double`.
pub record Attenuator (P D : Type 0) : Type 0 where
  pub device : Device P
  pub open device use *
  pub offset : ℤ
  pub max_speed : ℕ
  pub op_mode : ℤ
  -- 0 is `Stopped`
  pub motor_state : ℤ
  pub acceleration : ℕ
  pub deceleration : ℕ
  pub resolution : ℕ
  pub motor_enabled : Bool
  pub position : ℤ
  pub current_idle : ℕ
  pub current_move : ℕ
  pub reset_on_zero : Bool
  pub report_on_zero : Bool
  pub serial_number : Bytes
  pub cal_scale : D
  pub cal_offset : ℤ

unfoldable pub on_device : {P D A : Type 0} → Action (Device P) A → Action (Attenuator P D) A
on_device = on_part (λ a. a.device) (λ d a. record a { device = d })

module _ ⦃sp : Serial⦄ ⦃fl : Floating⦄ where
  abbrev pub Act : Type 0 → Type 0
  Act A = Action (Attenuator sp.Port fl.Double) A

  -- The fields as `Attenuator::Attenuator` sets them, before it opens the port.
  abbrev pub new_attenuator : Bytes → ℕ → sp.Port → Attenuator sp.Port fl.Double
  new_attenuator port baud_rate p = record {
    device = record {
      comport = port;
      baud = baud_rate;
      com_pre = [];
      com_sfx = codes "\r";
      read_sfx = [];
      timeout_ms = 50;
      serial = p;
    };
    offset = pos 0;
    max_speed = 59000;
    op_mode = pos 1;
    motor_state = pos 0;
    acceleration = 0;
    deceleration = 0;
    resolution = 2;
    motor_enabled = true;
    position = pos 0;
    current_idle = 10;
    current_move = 100;
    reset_on_zero = false;
    report_on_zero = false;
    serial_number = codes "unknown";
    cal_scale = fl.literal (negsuc 433332) 4;
    cal_offset = pos 3900;
  }
