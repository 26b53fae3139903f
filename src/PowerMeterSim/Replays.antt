-- ===== src/PowerMeterSim/Replays.antt =====
-- The simulation parses a fixed answer as the power meter parses that of the instrument.
use laser_control.Common.{ℕ, ◌≡◌, ◌++◌, arith, Bytes, codes}
use laser_control.Effects.{ok, ◌>>=◌}
use laser_control.Std.Strings.{at, substr, substr_count}
use laser_control.Std.Numbers.{show, stoul}
use laser_control.Std.Maps.{number_u16}
use laser_control.Util.Tokens.{tokenize_string}
use laser_control.Util.Trim.{trim}
use laser_control.Serial.{Serial}
use laser_control.PowerMeter.{PowerMeter, ask}
use laser_control.PowerMeter.Modes
use laser_control.PowerMeterSim as Sim
use laser_control.PowerMeterSim.{PowerMeterSim, lengths_line}

-- The fixed answer as a port delivers it, without the end of the line.
abbrev lengths_text : Bytes
lengths_text = codes "*1 1.0ms 2.0ms 5.0ms 10ms 20ms "

module _ ⦃sp : Serial⦄ where
  -- An instrument that answers as the simulation does, and the same map of pulse lengths: for every
  -- setting the two operations return the same and leave the same map.
  pulse_length_replays :
      (value : ℕ) (m m' : PowerMeter sp.Port) (s : PowerMeterSim)
      → ask (codes "PL " ++ show value) "Failed to set pulse length" m ≡ (ok lengths_text, m')
      → m'.pulse_lengths ≡ s.pulse_lengths
      → ((Modes.pulse_length value m).0 ≡ (Sim.pulse_length value s).0)
        × ((Modes.pulse_length value m).1.pulse_lengths
            ≡ (Sim.pulse_length value s).1.pulse_lengths)
  unfolding Modes.pulse_length Sim.pulse_length at substr substr_count stoul tokenize_string trim
      number_u16 ◌>>=◌
  pulse_length_replays value m m' s e same = ground (arith, e, same)
