-- ===== src/LaserSim/Tests.antt =====
-- An example of the comparison with the simulation, on a scripted port.
use laser_control.Common.{refl, true, false, List, [], ◌∷◌, codes}
use laser_control.Common.Int.{ℤ}
use laser_control.Std.Floating.Thousandths.{thousandths}
use laser_control.Serial.Script.{ScriptPort, script}
use laser_control.Laser.{Laser, new_laser}
use laser_control.Laser.Ops.{Op}
use laser_control.LaserSim.{new_sim}
use laser_control.Laser.Enums.{start}
use laser_control.LaserSim.Histories.{HasHistory, run-HasHistory}

abbrev laser : Laser ScriptPort ℤ
laser = new_laser ⦃sp = script⦄ (codes "/dev/ttyUSB0") 9600 (record {
  opened = true;
  accepts = false ∷ false ∷ [];
  answers = [];
  batches = [];
  received = [];
})

-- The first call sends its command twice and throws, since the port accepts neither.
abbrev ops : List (Op ℤ)
ops = Op.fire start ∷ Op.set_prescale 250 ∷ []

run-HasHistory_example : HasHistory ⦃sp = script⦄ ops laser new_sim
run-HasHistory_example = run-HasHistory ⦃sp = script⦄ ops laser new_sim refl
