-- ===== src/Attenuator/Safety.antt =====
-- Safety of the attenuator: over a recording port, every message that any sequence of calls sends
-- is one of Attenuator/Frames, and the cached registers keep their widths.
pub mod Polls
pub mod Calls
pub mod Runs
use laser_control.Common.{
  ℕ, ⊤, Bool, ◌≡◌, ◌<◌, ◌^◌, refl, not, [], ◌∷◌, ◌++◌, arith, String, Bytes, codes,
}
use laser_control.Common.Int.{ℤ, IsI32, IsU32}
use laser_control.Effects.{Action, modify}
use laser_control.Effects.Hoare.{Keeps, keeps_rules, Keeps-on_part, Keeps-modify, Keeps-bind}
use laser_control.Std.Floating.{Floating}
use laser_control.Serial.{Serial}
use laser_control.Serial.Logged.{LoggedPort, logged, on_port}
use laser_control.Device as Dev
use laser_control.Device.{Device}
use laser_control.Device.Keeps.{IsClean, write_cmd-IsClean, reset_connection-IsClean, quiet-IsClean}
use laser_control.Attenuator.{Attenuator, on_device}
use laser_control.Attenuator.Port
use laser_control.Attenuator.Frames.{Limits, IsFrame}

module _ (sp : Serial) ⦃fl : Floating⦄ ⦃lim : Limits⦄ where
  abbrev pub Motor : Type 0
  Motor = Attenuator (LoggedPort sp) fl.Double

  -- The registers in the widths of their types; the last three are enumerations.
  abbrev pub Fits : Motor → Type 0
  Fits a =
      IsI32 a.offset
      × IsI32 a.position
      × (a.max_speed < 2 ^ 32)
      × (a.acceleration < 2 ^ 16)
      × (a.deceleration < 2 ^ 16)
      × (a.current_idle < 2 ^ 16)
      × (a.current_move < 2 ^ 16)
      × IsU32 a.op_mode
      × IsU32 a.motor_state
      × (a.resolution < 2 ^ 32)

  pub record IsKept (a : Motor) : Type 0 where
    pub clean : IsClean sp IsFrame [] (codes "\r") a.device
    pub fits : Fits a

  pub device-IsKept :
      {A : Type 0} (m : Action (Device (LoggedPort sp)) A)
      → Keeps (IsClean sp IsFrame [] (codes "\r")) m
      → Keeps IsKept (on_device m)
  unfolding on_device
  device-IsKept m h =
      Keeps-on_part _ _ m λ a held. record { clean = h.after a.device held.clean; fits = held.fits }

  -- A change of the registers that leaves the device alone.
  pub modify-IsKept :
      (f : Motor → Motor)
      → ((a : Motor) → (f a).device ≡ a.device)
      → ((a : Motor) → Fits a → Fits (f a))
      → Keeps IsKept (modify f)
  modify-IsKept f same fits =
      Keeps-modify f λ a held. record { clean = rw (same a) held.clean; fits = fits a held.fits }

  reset_connection-IsKept : Keeps IsKept (Port.reset_connection ⦃sp = logged sp⦄)
  unfolding Port.reset_connection
  reset_connection-IsKept = device-IsKept _ (reset_connection-IsClean sp IsFrame [] (codes "\r"))

  readline-IsKept :
      (n : ℕ) (eol : Bytes) → Keeps IsKept (on_device (Dev.on_serial ((logged sp).readline n eol)))
  readline-IsKept n eol = device-IsKept _ (quiet-IsClean sp IsFrame [] (codes "\r") _)

  write-IsKept :
      (cmd : Bytes)
      → IsFrame (cmd ++ codes "\r")
      → Keeps IsKept (on_device (Dev.write_cmd ⦃sp = logged sp⦄ cmd))
  write-IsKept cmd frame = device-IsKept _ (write_cmd-IsClean sp IsFrame [] (codes "\r") cmd frame)

  pub send-IsKept :
      (cmd : Bytes) (message : String)
      → IsFrame (cmd ++ codes "\r")
      → Keeps IsKept (Port.send ⦃sp = logged sp⦄ cmd message)
  unfolding Port.send Port.write_cmd Port.write_once
  send-IsKept cmd message frame =
      search (keeps_rules, write-IsKept, reset_connection-IsKept) depth 12

  pub read_cmd-IsKept : (answer : Bytes) → Keeps IsKept (Port.read_cmd ⦃sp = logged sp⦄ answer)
  unfolding Port.read_cmd Port.read_once
  read_cmd-IsKept answer = search (keeps_rules, readline-IsKept, reset_connection-IsKept) depth 12

  pub ask-IsKept :
      (cmd : Bytes) (unsent unread : String)
      → IsFrame (cmd ++ codes "\r")
      → Keeps IsKept (Port.ask ⦃sp = logged sp⦄ cmd unsent unread)
  unfolding Port.ask
  ask-IsKept cmd unsent unread frame = search (keeps_rules, send-IsKept, read_cmd-IsKept) depth 12
