-- ===== src/Laser.antt =====
-- include/Laser.hh and src/Laser.cpp: the Surelite laser. `Laser::write_cmd` only adds a pause to
-- the one of the base class. An out-parameter is part of the result.
pub mod Enums
pub mod Security
pub mod Shots
pub mod Ops
pub mod Settings
pub mod Frames
pub mod Safety
pub mod Sending
pub mod Traffic
pub mod Answers
pub mod Tests
use laser_control.Common.{
  ℕ, ⊤, Bool, true, false, not, ◌||◌, String, Bytes, codes, List, [], ◌∷◌, ◌++◌, ltb, ◌==◌,
  if◌then◌else◌, length,
}
use laser_control.Common.Int.{pos}
use laser_control.Effects.{
  Exception, io_exception, port_not_opened, range_error, Action, ◌>>=◌, ◌>>◌, pure, gets, modify,
  throw_if, when, on_part,
}
use laser_control.Std.Numbers.{show, show_width3}
use laser_control.Std.Floating.{Floating}
use laser_control.Serial.{Serial}
use laser_control.Device
use laser_control.Device.{Device, new_device}
use laser_control.Laser.Enums.{Shutter, Fire, shutter_code, fire_code, is_start, security_table}

-- `P` is the type of `m_serial`, and `F` is `float`.
pub record Laser (P F : Type 0) : Type 0 where
  pub device : Device P
  pub open device use *
  pub is_firing : Bool
  pub prescale : ℕ
  pub pump_hv : F
  pub rate : F
  pub qswitch : ℕ
  pub sec_map : List (Bytes × Bytes)
  pub wait_read : Bool

unfoldable pub on_device : {P F A : Type 0} → Action (Device P) A → Action (Laser P F) A
on_device = on_part (λ l. l.device) (λ d l. record l { device = d })

module _ ⦃fl : Floating⦄ where
  open fl use {Float, literal, to_double, lt}

  -- `hv > 1.3 || hv < 0`.
  unfoldable pub voltage_out_of_range : Float → Bool
  voltage_out_of_range hv =
      lt (literal (pos 13) 1) (to_double hv) || lt (to_double hv) (literal (pos 0) 0)

module _ ⦃sp : Serial⦄ ⦃fl : Floating⦄ where
  open fl use {Float, literal, to_float, show_fixed}

  abbrev pub Act : Type 0 → Type 0
  Act A = Action (Laser sp.Port Float) A

  -- The fields as `Laser::Laser` sets them, before it opens the port.
  abbrev pub new_laser : Bytes → ℕ → sp.Port → Laser sp.Port Float
  new_laser port baud_rate p = record {
    device = record {
      comport = port;
      baud = baud_rate;
      com_pre = [];
      com_sfx = codes "\r";
      read_sfx = codes "\r";
      timeout_ms = 500;
      serial = p;
    };
    is_firing = false;
    prescale = 0;
    pump_hv = to_float (literal (pos 11) 1);
    rate = to_float (literal (pos 100) 1);
    qswitch = 170;
    sec_map = security_table;
    wait_read = false;
  }

  -- The rest of `Laser::Laser`: the port is set up and opened.
  unfoldable pub connect : Act ⊤
  connect = do
    port ← gets (λ l. l.comport)
    on_device (Device.on_serial (sp.set_port port))
    baud ← gets (λ l. l.baud)
    on_device (Device.on_serial (sp.set_baudrate baud))
    on_device (Device.on_serial sp.set_8n1)
    ms ← gets (λ l. l.timeout_ms)
    on_device (Device.on_serial (sp.set_timeout ms))
    on_device (Device.on_serial sp.open_port)
    opened ← on_device Device.is_open
    throw_if (not opened) (port_not_opened "Failed to open the port [")

  unfoldable pub write_cmd : Bytes → Act Bool
  write_cmd cmd = on_device (Device.write_cmd cmd)

  unfoldable pub reset_connection : Act ⊤
  reset_connection = on_device Device.reset_connection

  -- The retry that the commands share: send; if that fails reset the connection and send again; if
  -- that fails too, throw.
  unfoldable pub send_or_throw : Bytes → String → Act ⊤
  send_or_throw cmd message = do
    success ← write_cmd cmd
    when (not success)
        do reset_connection; again ← write_cmd cmd; throw_if (not again) (io_exception message)

  unfoldable pub shutter : Shutter → Act ⊤
  shutter s = send_or_throw (codes "SH " ++ show (shutter_code s)) "Failed to send SH command"

  unfoldable pub fire : Fire → Act ⊤
  fire s = do
    send_or_throw (codes "ST " ++ show (fire_code s)) "Failed to send ST command"
    modify (λ l. record l { is_firing = is_start s })

  unfoldable pub set_prescale : ℕ → Act ⊤
  set_prescale pre = do
    let pre' = if ltb 99 pre then 99 else pre
    send_or_throw (codes "PD " ++ show_width3 pre') "Failed to send PD command"
    modify (λ l. record l { prescale = pre' })

  unfoldable pub set_pump_voltage : Float → Act ⊤
  set_pump_voltage hv = do
    throw_if (voltage_out_of_range hv) (range_error "Argument out of range [")
    send_or_throw (codes "VA " ++ show_fixed 2 hv) "Failed to send VA command"
    modify (λ l. record l { pump_hv = hv })

  unfoldable pub single_shot : Act ⊤
  single_shot = do set_prescale 0; send_or_throw (codes "SS") "Failed to send SS command"

  unfoldable pub set_repetition_rate : Float → Act ⊤
  set_repetition_rate rate = do
    send_or_throw (codes "RR " ++ show_fixed 1 rate) "Failed to send RR command"
    modify (λ l. record l { rate = rate })

  unfoldable pub set_qswitch : ℕ → Act ⊤
  set_qswitch qs = do
    let qs' = if ltb 999 qs then 999 else qs
    send_or_throw (codes "QS " ++ show_width3 qs') "Failed to send QS command"
    modify (λ l. record l { qswitch = qs' })
