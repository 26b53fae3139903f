-- ===== src/Laser/Ops.antt =====
-- The public operations of the laser as data, for statements about any sequence of calls.
use laser_control.Common.{ℕ, ⊤, Bool, false, ◌≡◌, List, [], ◌∷◌}
use laser_control.Effects.Outcome.{is_ok}
use laser_control.Effects.{◌>>◌, pure}
use laser_control.Std.Floating.{Floating}
use laser_control.Serial.{Serial}
use laser_control.Laser
use laser_control.Laser.{Laser, Act, voltage_out_of_range}
use laser_control.Laser.Frames.{Forms}
use laser_control.Laser.Enums.{Shutter, Fire}
use laser_control.Laser.Security
use laser_control.Laser.Shots

pub data Op (F : Type 0) : Type 0 where
  shutter : Shutter → Op F
  fire : Fire → Op F
  set_prescale : ℕ → Op F
  set_pump_voltage : F → Op F
  single_shot get_shot_count security security_u16 security_enum : Op F
  set_repetition_rate : F → Op F
  set_qswitch : ℕ → Op F

-- A voltage that is let through and a rate have their forms.
abbrev pub IsWithin : ⦃fl : Floating⦄ ⦃fm : Forms⦄ → Op fl.Float → Type 0
IsWithin ⦃fl⦄ ⦃fm⦄ (Op.set_pump_voltage hv) = voltage_out_of_range hv ≡ false → fm.voltage hv
IsWithin ⦃fl⦄ ⦃fm⦄ (Op.set_repetition_rate r) = fm.rate r
IsWithin op = Unit

module _ ⦃sp : Serial⦄ ⦃fl : Floating⦄ where
  open fl use {Float}

  -- A call, with its answer dropped.
  unfoldable pub call : Op Float → Act ⊤
  call (Op.shutter s) = Laser.shutter s
  call (Op.fire s) = Laser.fire s
  call (Op.set_prescale n) = Laser.set_prescale n
  call (Op.set_pump_voltage hv) = Laser.set_pump_voltage hv
  call Op.single_shot = Laser.single_shot
  call Op.get_shot_count = Shots.get_shot_count >> pure tt
  call Op.security = Security.security >> pure tt
  call Op.security_u16 = Security.security_u16 >> pure tt
  call Op.security_enum = Security.security_enum >> pure tt
  call (Op.set_repetition_rate r) = Laser.set_repetition_rate r
  call (Op.set_qswitch n) = Laser.set_qswitch n

  -- A client that goes on after an exception.
  unfoldable pub run : List (Op Float) → Laser sp.Port Float → Laser sp.Port Float
  run [] l = l
  run (op ∷ ops) l = run ops (call op l).1

  -- A client that stops at an exception.
  unfoldable pub run_all : List (Op Float) → Act ⊤
  run_all [] = pure tt
  run_all (op ∷ ops) = call op >> run_all ops

  -- Which of the calls of `run` return.
  unfoldable pub returns : List (Op Float) → Laser sp.Port Float → List Bool
  returns [] l = []
  returns (op ∷ ops) l = is_ok (call op l).0 ∷ returns ops (call op l).1
