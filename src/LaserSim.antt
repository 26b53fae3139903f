-- ===== src/LaserSim.antt =====
-- include/LaserSim.hh and src/LaserSim.cpp: the laser without a device.
pub mod Cached
pub mod Refines
pub mod Histories
pub mod Tests
use laser_control.Common.{ℕ, ⊤, Bool, true, false, Bytes, codes, List, ltb, if◌then◌else◌, ◌%◌, ◌^◌}
use laser_control.Common.Int.{ℤ, pos}
use laser_control.Effects.{Action, ◌>>=◌, ◌>>◌, pure, gets, lift, modify, throw_if, range_error}
use laser_control.Std.Numbers.{stoul, stol}
use laser_control.Std.Floating.{Floating}
use laser_control.Laser.{voltage_out_of_range}
use laser_control.Laser.Enums.{Shutter, Fire, shutter_code, is_start, security_table}
use laser_control.Laser.Security.{message_of}

pub record LaserSim (F : Type 0) : Type 0 where
  pub is_firing : Bool
  pub prescale : ℕ
  pub pump_hv : F
  pub rate : F
  pub qswitch : ℕ
  pub sec_map : List (Bytes × Bytes)
  pub wait_read : Bool
  pub shot_count : ℕ
  pub shutter_state : ℕ

module _ ⦃fl : Floating⦄ where
  open fl use {Float, literal, to_float}

  abbrev pub SimAct : Type 0 → Type 0
  SimAct A = Action (LaserSim Float) A

  -- `LaserSim::LaserSim`.
  abbrev pub new_sim : LaserSim Float
  new_sim = record {
    is_firing = false;
    prescale = 0;
    pump_hv = to_float (literal (pos 11) 1);
    rate = to_float (literal (pos 100) 1);
    qswitch = 170;
    sec_map = security_table;
    wait_read = false;
    shot_count = 0;
    shutter_state = 0;
  }

  unfoldable pub shutter : Shutter → SimAct ⊤
  shutter s = modify (λ l. record l { shutter_state = shutter_code s })

  unfoldable pub fire : Fire → SimAct ⊤
  fire s = modify (λ l. record l { is_firing = is_start s })

  unfoldable pub set_prescale : ℕ → SimAct ⊤
  set_prescale pre =
      let pre' = if ltb 99 pre then 99 else pre in modify (λ l. record l { prescale = pre' })

  unfoldable pub set_pump_voltage : Float → SimAct ⊤
  set_pump_voltage hv = do
    throw_if (voltage_out_of_range hv) (range_error "Argument out of range [")
    modify (λ l. record l { pump_hv = hv })

  unfoldable pub single_shot : SimAct ⊤
  single_shot = set_prescale 0

  unfoldable pub get_shot_count : SimAct ℕ
  get_shot_count = gets (λ l. l.shot_count)

  unfoldable pub security_code : SimAct Bytes
  security_code = pure (codes "00")

  unfoldable pub security : SimAct (Bytes × Bytes)
  security = do code ← security_code; m ← gets (λ l. l.sec_map); pure (code, message_of m code)

  unfoldable pub security_u16 : SimAct (ℕ × Bytes)
  security_u16 = do answer ← security; code ← lift (stoul answer.0); pure (code % 2 ^ 16, answer.1)

  unfoldable pub security_enum : SimAct (ℤ × Bytes)
  security_enum = do answer ← security; code ← lift (stol answer.0); pure (code, answer.1)

  unfoldable pub set_repetition_rate : Float → SimAct ⊤
  set_repetition_rate rate = modify (λ l. record l { rate = rate })

  unfoldable pub set_qswitch : ℕ → SimAct ⊤
  set_qswitch qs =
      let qs' = if ltb 999 qs then 999 else qs in modify (λ l. record l { qswitch = qs' })
