-- ===== src/Manager.antt =====
-- apps/serial_manager.cpp: the terminal program that drives the three devices. What it logs and
-- prints is left out. Pointers are options; the state of a deleted device stays in its place.
pub mod Arguments
pub mod LaserCommand
pub mod MotorCommand
pub mod MeterCommand
pub mod Mapping
pub mod Mapped
pub mod Pointers
pub mod Words
pub mod Commands
pub mod Typed
pub mod Session
pub mod Codes
pub mod Blank
pub mod Course
pub mod Answers
pub mod Shutdown
pub mod Frame
pub mod Safety
pub mod Tests
use laser_control.Common.{
  ℕ, ⊤, Bool, true, false, Option, none, some, List, Bytes, ◌==◌, length, if◌then◌else◌, not,
}
use laser_control.Effects.{Exception, still_waiting, Result, ok, err, Action}
use laser_control.Laser.{Laser}
use laser_control.Attenuator.{Attenuator}
use laser_control.PowerMeter.{PowerMeter}
use laser_control.Std.Floating.{Floating}
use laser_control.Serial.{Serial}
use laser_control.Util.Ports.{PortInfo}

-- `iols_dev_t`.
pub record DeviceConfig : Type 0 where
  pub serial_nr : Bytes
  pub port : Bytes
  pub baud_rate : ℕ

unfoldable pub port_valid : DeviceConfig → Bool
port_valid c = not (length c.port == 0)

-- `iols_config_t`.
pub record Config : Type 0 where
  pub laser : DeviceConfig
  pub attenuator : DeviceConfig
  pub power_meter : DeviceConfig

-- `iols` and the three flags.
pub record Manager (P F D : Type 0) : Type 0 where
  pub config : Config
  pub attenuator : Option (Attenuator P D)
  pub laser : Option (Laser P F)
  pub power_meter : Option (PowerMeter P)
  pub ignore_laser : Bool
  pub ignore_pm : Bool
  pub ignore_attenuator : Bool

-- What the program finds outside: the ports that `serial::list_ports` reports, a port object as its
-- constructor leaves it, how many polls a wait for the motor may make, and what a local variable
-- that is read before it is set holds.
pub record Host (P : Type 0) : Type 0 where
  pub ports : List PortInfo
  pub new_serial : P
  pub polls : ℕ
  pub leftover : ℕ

-- The `catch` clauses: every exception becomes the code 1. A wait that has not ended stays one.
abbrev pub to_code : Exception → Result ℕ
to_code still_waiting = err still_waiting
to_code _ = ok 1

abbrev pub code_of : Result ℕ → Result ℕ
code_of (ok n) = ok n
code_of (err e) = to_code e

unfoldable pub caught : {S : Type 0} → Action S ℕ → Action S ℕ
caught m s = let (r, s') = m s in (code_of r, s')

-- A call through a pointer, and the answer where it is null.
abbrev pub through : {S T A : Type 0} → Option S → (S → T → T) → A → Action S A → Action T A
through none put absent m t = (ok absent, t)
through (some s) put absent m t = let (r, s') = m s in (r, put s' t)

-- What a constructor yields, where it does not throw.
abbrev pub built : {S : Type 0} → Result ⊤ × S → Result S
built (ok u, s) = ok s
built (err e, s) = err e

abbrev pub is_null : {S : Type 0} → Option S → Bool
is_null none = true
is_null (some s) = false

module _ ⦃sp : Serial⦄ ⦃fl : Floating⦄ where
  open fl use {Float, Double}

  abbrev pub State : Type 0
  State = Manager sp.Port Float Double

  abbrev pub Act : Type 0 → Type 0
  Act A = Action State A

  unfoldable pub on_laser : {A : Type 0} → A → Action (Laser sp.Port Float) A → Act A
  on_laser absent m t = through t.laser (λ l s. record s { laser = some l }) absent m t

  unfoldable pub on_attenuator : {A : Type 0} → A → Action (Attenuator sp.Port Double) A → Act A
  on_attenuator absent m t =
      through t.attenuator (λ a s. record s { attenuator = some a }) absent m t

  unfoldable pub on_meter : {A : Type 0} → A → Action (PowerMeter sp.Port) A → Act A
  on_meter absent m t = through t.power_meter (λ p s. record s { power_meter = some p }) absent m t
