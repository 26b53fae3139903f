-- ===== src/Serial.antt =====
-- The serial library that the devices hold as `m_serial` (include/serial/serial.h, a copy of
-- another project's code): an interface, whose implementations stand for the library, the cable and
-- the instrument at its other end.
pub mod Accepts
pub mod Logged
pub mod Script
use laser_control.Common.{ℕ, ⊤, Bool, Bytes, List}
use laser_control.Effects.{Action}

pub record Serial : Type 1 where
  -- the state of the port object and of what it is connected to
  pub Port : Type 0
  pub is_open : Port → Bool
  pub open_port : Action Port ⊤
  pub close_port : Action Port ⊤
  pub flush_input : Action Port ⊤
  pub flush_output : Action Port ⊤
  -- the number of bytes written
  pub write : Bytes → Action Port ℕ
  -- `readline(buffer, size, eol)`: the bytes that the call appends to the buffer; it returns how
  -- many they are
  pub readline : ℕ → Bytes → Action Port Bytes
  pub readlines : ℕ → Bytes → Action Port (List Bytes)
  pub wait_readable : Action Port Bool
  -- `setPort` and `setBaudrate`; the devices set byte size, parity and stop bits to 8N1
  pub set_port : Bytes → Action Port ⊤
  pub set_baudrate : ℕ → Action Port ⊤
  pub set_8n1 : Action Port ⊤
  -- `setTimeout(Timeout::simpleTimeout(ms))`
  pub set_timeout : ℕ → Action Port ⊤
