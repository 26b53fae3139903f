-- ===== src/LaserSim/Cached.antt =====
-- The settings that the laser and its simulation cache, and the calls on the simulation.
use laser_control.Common.{⊤, ◌≡◌, ◌⊎◌}
use laser_control.Effects.{◌>>◌, pure}
use laser_control.Std.Floating.{Floating}
use laser_control.Laser.Settings.{Settings}
use laser_control.Laser.Ops.{Op}
use laser_control.LaserSim
use laser_control.LaserSim.{LaserSim, SimAct}

abbrev pub sim_settings : {F : Type 0} → LaserSim F → Settings F
sim_settings l = record {
  is_firing = l.is_firing;
  prescale = l.prescale;
  pump_hv = l.pump_hv;
  rate = l.rate;
  qswitch = l.qswitch;
}

module _ ⦃fl : Floating⦄ where
  open fl use {Float}

  -- The same call on the simulation.
  unfoldable pub sim_call : Op Float → SimAct ⊤
  sim_call (Op.shutter s) = LaserSim.shutter s
  sim_call (Op.fire s) = LaserSim.fire s
  sim_call (Op.set_prescale n) = LaserSim.set_prescale n
  sim_call (Op.set_pump_voltage hv) = LaserSim.set_pump_voltage hv
  sim_call Op.single_shot = LaserSim.single_shot
  sim_call Op.get_shot_count = LaserSim.get_shot_count >> pure tt
  sim_call Op.security = LaserSim.security >> pure tt
  sim_call Op.security_u16 = LaserSim.security_u16 >> pure tt
  sim_call Op.security_enum = LaserSim.security_enum >> pure tt
  sim_call (Op.set_repetition_rate r) = LaserSim.set_repetition_rate r
  sim_call (Op.set_qswitch n) = LaserSim.set_qswitch n

-- What a call that throws may leave: the settings as they were, or, for a single shot whose
-- second command fails, with the prescale at 0.
abbrev pub AfterThrow : {F : Type 0} → Op F → Settings F → Settings F → Type 0
AfterThrow Op.single_shot before after = (after ≡ before) ⊎ (after ≡ record before { prescale = 0 })
AfterThrow _ before after = after ≡ before
