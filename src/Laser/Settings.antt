-- ===== src/Laser/Settings.antt =====
-- The settings that the laser caches.
use laser_control.Common.{ℕ, Bool}
use laser_control.Laser.{Laser}

pub record Settings (F : Type 0) : Type 0 where
  pub is_firing : Bool
  pub prescale : ℕ
  pub pump_hv : F
  pub rate : F
  pub qswitch : ℕ

abbrev pub settings : {P F : Type 0} → Laser P F → Settings F
settings l = record {
  is_firing = l.is_firing;
  prescale = l.prescale;
  pump_hv = l.pump_hv;
  rate = l.rate;
  qswitch = l.qswitch;
}
