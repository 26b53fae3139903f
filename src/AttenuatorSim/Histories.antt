-- ===== src/AttenuatorSim/Histories.antt =====
-- A run of configuration commands of the attenuator as a run of its simulation in which the same
-- commands fail.
use laser_control.Common.{Bool, true, false, ◌≡◌, List, [], ◌∷◌, ⊤}
use laser_control.Effects.{Result, ok, err}
use laser_control.Effects.Outcome.{Ends, is_ok}
use laser_control.Std.Floating.{Floating}
use laser_control.Serial.{Serial}
use laser_control.AttenuatorSim.{AttenuatorSim}
use laser_control.AttenuatorSim.Refines.{
  Config, ConfigOp, config, sim_config, sim_call, config_call, AfterThrow, Motor,
  config_follows_sim,
}

-- A command that throws leaves the simulation alone, but for the resolution that it has noted.
abbrev pub refused : ConfigOp → AttenuatorSim → AttenuatorSim
refused (ConfigOp.set_resolution v) s = record s { resolution = v }
refused op s = s

-- The simulation after the commands, of which those marked `true` return.
unfoldable pub replay : List ConfigOp → List Bool → AttenuatorSim → AttenuatorSim
replay (op ∷ ops) (true ∷ bs) s = replay ops bs (sim_call op s).1
replay (op ∷ ops) (false ∷ bs) s = replay ops bs (refused op s)
replay ops bs s = s

refused-AfterThrow :
    (op : ConfigOp) (s : AttenuatorSim) (c : Config)
    → AfterThrow op (sim_config s) c
    → c ≡ sim_config (refused op s)
refused-AfterThrow (ConfigOp.set_resolution v) s c e = e
refused-AfterThrow op s c e = e

module _ ⦃sp : Serial⦄ ⦃fl : Floating⦄ where
  -- The motor after the commands, and which of them returned.
  unfoldable pub run : List ConfigOp → Motor → Motor
  run [] a = a
  run (op ∷ ops) a = run ops (config_call op a).1

  unfoldable pub returns : List ConfigOp → Motor → List Bool
  returns [] a = []
  returns (op ∷ ops) a = is_ok (config_call op a).0 ∷ returns ops (config_call op a).1

  -- Whatever the port does: from equal configurations, the configuration after a run of commands,
  -- some of which throw, is that of the simulation after the same commands, where those that throw
  -- do nothing, except that `set_resolution` has then cached the resolution.
  pub run_follows_sim :
      (ops : List ConfigOp) (a : Motor) (s : AttenuatorSim)
      → config a ≡ sim_config s
      → config (run ops a) ≡ sim_config (replay ops (returns ops a) s)
  unfolding run returns replay
  run_follows_sim [] a s e = e
  run_follows_sim (op ∷ ops) a s e =
      after_call (config_call op a).0 (config_call op a).1
        (run_follows_sim ops (config_call op a).1) (config_follows_sim s op a e)
    where
      after_call :
          (r : Result ⊤) (a' : Motor)
          → ((t : AttenuatorSim)
              → config a' ≡ sim_config t
              → config (run ops a') ≡ sim_config (replay ops (returns ops a') t))
          → Ends
              (λ a'. AfterThrow op (sim_config s) (config a'))
              (λ a'. ((sim_call op s).0 ≡ ok tt) × (config a' ≡ sim_config (sim_call op s).1))
              r
              a'
          → config (run ops a') ≡ sim_config (replay (op ∷ ops) (is_ok r ∷ returns ops a') s)
      after_call (ok u) a' rest h = rest (sim_call op s).1 h.1
      after_call (err x) a' rest h = rest (refused op s) (refused-AfterThrow op s (config a') h)
