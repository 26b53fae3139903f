-- ===== src/AttenuatorSim/Tests.antt =====
-- Examples of the theorems about the simulated attenuator.
use laser_control.Common.{◌≡◌, refl, true, false, codes, List, [], ◌∷◌}
use laser_control.Common.Int.{ℤ}
use laser_control.Std.Floating.Thousandths.{thousandths}
use laser_control.Serial.Script.{ScriptPort, script}
use laser_control.Attenuator.{Attenuator, new_attenuator}
use laser_control.AttenuatorSim.{new_sim}
use laser_control.AttenuatorSim.Refines.{ConfigOp, config, sim_config}
use laser_control.AttenuatorSim.Histories.{replay, run, returns, run_follows_sim}

-- The port takes neither sending of the first command.
abbrev motor : Attenuator ScriptPort ℤ
motor = new_attenuator ⦃sp = script⦄ (codes "/dev/ttyUSB1") 38400 (record {
  opened = true;
  accepts = false ∷ false ∷ [];
  answers = [];
  batches = [];
  received = [];
})

abbrev ops : List ConfigOp
ops = ConfigOp.set_resolution 4 ∷ ConfigOp.set_acceleration 60 ∷ []

run_follows_sim_example :
    config (run ⦃sp = script⦄ ops motor)
    ≡ sim_config (replay ops (returns ⦃sp = script⦄ ops motor) new_sim)
run_follows_sim_example = run_follows_sim ⦃sp = script⦄ ops motor new_sim refl
