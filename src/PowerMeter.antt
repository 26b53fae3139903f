-- ===== src/PowerMeter.antt =====
-- include/PowerMeter.hh and src/PowerMeter.cpp: the power meter. An enumeration that the code casts
-- a number to is that number. A result of an operation is what the code stores in its reference
-- arguments; what such an argument holds after a throw is not modelled. The lock on `m_cmd_mutex`
-- in `send_cmd` is left out: calls follow each other.
pub mod Caches
pub mod Frames
pub mod Missing
pub mod Ranges
pub mod Modes
pub mod Energy
pub mod Threshold
pub mod Info
pub mod Getters
pub mod Ops
pub mod Exchange
pub mod Keeps
pub mod Lengths
pub mod Heads
pub mod Valid
pub mod Tests
use laser_control.Common.{
  ℕ, ⊤, Bool, true, false, not, String, Bytes, codes, List, [], ◌∷◌, if◌then◌else◌,
}
use laser_control.Common.Int.{ℤ, pos}
use laser_control.Effects.{
  Action, ◌>>=◌, ◌>>◌, pure, gets, on_part, throw_if, io_exception, port_not_opened,
}
use laser_control.Std.Floating.{Floating}
use laser_control.Serial.{Serial}
use laser_control.Device
use laser_control.Device.{Device}

-- `P` is the type of `m_serial`.
pub record PowerMeter (P : Type 0) : Type 0 where
  pub device : Device P
  pub open device use *
  pub mmode : ℕ
  pub range : ℤ
  pub wavelength : ℕ
  pub e_threshold : ℕ
  pub ave_query_state : ℕ
  pub pulse_length : ℕ
  pub ranges : List (ℤ × Bytes)
  pub pulse_lengths : List (ℕ × Bytes)
  pub ave_windows : List (ℕ × Bytes)
  pub measurement_units : List (ℕ × Bytes)
  pub threshold_ranges : ℕ × ℕ
  pub interval_between_cmds_ms : ℕ

unfoldable pub on_device : {P A : Type 0} → Action (Device P) A → Action (PowerMeter P) A
on_device = on_part (λ m. m.device) (λ d m. record m { device = d })

-- The units as `PowerMeter::PowerMeter` inserts them, in the order of the keys.
abbrev pub units_table : List (ℕ × Bytes)
units_table =
    (b'I', codes "Lux")
    ∷ (b'J', codes "Joules")
    ∷ (b'W', codes "Watts")
    ∷ (b'X', codes "No measurement")
    ∷ (b'c', codes "Foot-Candles")
    ∷ (b'd', codes "dBm")
    ∷ (b'i', codes "Irradiance (Joules/cm^2)")
    ∷ (b'u', codes "Lumens")
    ∷ (b'w', codes "Dosage (Watts/cm^2)")
    ∷ []

module _ ⦃sp : Serial⦄ where
  abbrev pub Act : Type 0 → Type 0
  Act A = Action (PowerMeter sp.Port) A

  -- The fields as `PowerMeter::PowerMeter` sets them.
  abbrev pub new_power_meter : Bytes → ℕ → sp.Port → PowerMeter sp.Port
  new_power_meter port baud_rate p = record {
    device = record {
      comport = port;
      baud = baud_rate;
      com_pre = codes "$";
      com_sfx = codes "\r\n";
      read_sfx = codes "\r\n";
      timeout_ms = 1000;
      serial = p;
    };
    mmode = 3;
    range = pos 2;
    wavelength = 266;
    e_threshold = 1;
    ave_query_state = 1;
    pulse_length = 0;
    ranges = [];
    pulse_lengths = [];
    ave_windows = [];
    measurement_units = units_table;
    threshold_ranges = (0xffff, 0xffff);
    interval_between_cmds_ms = 1;
  }

  -- The part of `PowerMeter::PowerMeter` that sets the port up and opens it.
  unfoldable pub connect : Act ⊤
  connect = do
    port ← gets (λ m. m.comport)
    on_device (Device.on_serial (sp.set_port port))
    baud ← gets (λ m. m.baud)
    on_device (Device.on_serial (sp.set_baudrate baud))
    on_device (Device.on_serial sp.set_8n1)
    ms ← gets (λ m. m.timeout_ms)
    on_device (Device.on_serial (sp.set_timeout ms))
    on_device (Device.on_serial sp.open_port)
    opened ← on_device Device.is_open
    throw_if (not opened) (port_not_opened "Failed to open the port [")

  unfoldable pub write_cmd : Bytes → Act Bool
  write_cmd cmd = on_device (Device.write_cmd cmd)

  unfoldable pub read_cmd : Bytes → Act (Bool × Bytes)
  read_cmd resp = on_device (Device.read_cmd resp)

  unfoldable pub reset_connection : Act ⊤
  reset_connection = on_device Device.reset_connection

  -- `send_cmd` up to its first `read_cmd`: whether the command went out.
  unfoldable pub send_twice : Bytes → Bool → Act Bool
  send_twice cmd repeat = do
    st ← write_cmd cmd
    if st then pure true else if repeat then (do reset_connection; write_cmd cmd) else pure false

  -- The rest of `send_cmd`. The second reading appends to what the first one left in `resp`.
  unfoldable pub read_twice : Bytes → Bool → Act (Bool × Bytes)
  read_twice resp repeat = do
    got ← read_cmd resp
    if got.0 then pure got else if repeat then (do reset_connection; read_cmd got.1) else pure got

  unfoldable pub send_cmd : Bytes → Bytes → Bool → Act (Bool × Bytes)
  send_cmd cmd resp repeat = do
    st ← send_twice cmd repeat
    if st then read_twice resp repeat else pure (false, resp)

  -- `send_cmd(cmd, resp)` on an empty `resp`, and the exception that its failure is turned to.
  unfoldable pub ask : Bytes → String → Act Bytes
  ask cmd message = do
    got ← send_cmd cmd [] true
    throw_if (not got.0) (io_exception message)
    pure got.1
