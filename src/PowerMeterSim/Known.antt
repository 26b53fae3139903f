-- ===== src/PowerMeterSim/Known.antt =====
-- What the simulated power meter can come to hold.
use laser_control.Common.{
  ℕ, zero, suc, ⊤, ◌<◌, ◌^◌, ◌≡◌, refl, ◌⊎◌, inl, inr, Bytes, codes, List, [], ◌∷◌, All, map, arith,
}
use laser_control.Common.Int.{IsI16, ℤ, pos, wrap_i16}
use laser_control.Effects.{Result, ok, ◌>>=◌, ◌>>◌, pure}
use laser_control.Std.Strings.{at, substr, substr_count}
use laser_control.Std.Numbers.{stoul, stol}
use laser_control.Std.Maps.{insert, map_at, number_u16, number_i16}
use laser_control.Util.Tokens.{tokenize_string}
use laser_control.Util.Trim.{trim}
use laser_control.Std.Floating.{Floating}
use laser_control.PowerMeter.{units_table}
use laser_control.PowerMeterSim as Sim
use laser_control.PowerMeterSim.{PowerMeterSim, SimAct}
use laser_control.PowerMeterSim.Measurements
use laser_control.PowerMeterSim.Ops.{Op, IsTyped, outcome, call, run}

abbrev pub ranges_table : List (ℤ × Bytes)
ranges_table =
    (pos 0, codes "10.0J")
    ∷ (pos 1, codes "2.00J")
    ∷ (pos 2, codes "200mJ")
    ∷ (pos 3, codes "20.0mJ")
    ∷ (pos 4, codes "2.00mJ")
    ∷ []

abbrev pub lengths_table : List (ℕ × Bytes)
lengths_table =
    (1, codes "1.0ms")
    ∷ (2, codes "2.0ms")
    ∷ (3, codes "5.0ms")
    ∷ (4, codes "10ms")
    ∷ (5, codes "20ms")
    ∷ []

abbrev pub windows_table : List (ℕ × Bytes)
windows_table =
    (0, codes "NONE")
    ∷ (1, codes "0.5sec")
    ∷ (2, codes "1sec")
    ∷ (3, codes "3sec")
    ∷ (4, codes "10sec")
    ∷ (5, codes "30sec")
    ∷ []

-- Nothing yet, or the whole table.
abbrev pub IsAllOrNone : {K : Type 0} → List (K × Bytes) → List (K × Bytes) → Type 0
IsAllOrNone table m = (m ≡ []) ⊎ (m ≡ table)

-- The three maps, the units, the wavelength, the threshold and its range, and the range that is
-- set.
abbrev pub IsKnown : PowerMeterSim → Type 0
IsKnown s =
    IsAllOrNone ranges_table s.ranges
    × IsAllOrNone lengths_table s.pulse_lengths
    × IsAllOrNone windows_table s.ave_windows
    × (s.measurement_units ≡ units_table)
    × (s.wavelength < 2 ^ 16)
    × ((s.e_threshold < 2) ⊎ (s.e_threshold ≡ 100))
    × ((s.threshold_ranges ≡ (0, 0)) ⊎ (s.threshold_ranges ≡ (1, 1000)))
    × IsI16 s.range

module _ ⦃fl : Floating⦄ where
  -- A call ends with `r` and leaves a known state.
  abbrev Ends : SimAct ⊤ → Result ⊤ → Type 0
  Ends m r = (s : PowerMeterSim) → IsKnown s → ((m s).0 ≡ r) × IsKnown (m s).1

  set_wavelength-Ends : (n : ℕ) → Ends (Sim.set_wavelength n) (ok tt)
  unfolding Sim.set_wavelength Sim.wavelength ◌>>=◌
  set_wavelength-Ends n s (r, l, w, u, f, t, h, g) = (refl, (r, l, w, u, omega arith, t, h, g))

  get_all_ranges-Ends : Ends (Sim.get_all_ranges >> pure tt) (ok tt)
  unfolding Sim.get_all_ranges ◌>>=◌ substr tokenize_string trim at stol number_i16 wrap_i16
  get_all_ranges-Ends s (r, l, w, u, f, t, h, g) = (refl, (inr refl, l, w, u, f, t, h, g))

  average_query-Ends : (n : ℕ) → Ends (Sim.average_query n >> pure tt) (ok tt)
  unfolding Sim.average_query ◌>>=◌ insert
  average_query-Ends n s (r, l, w, u, f, t, h, g) = (refl, (r, l, filled w, u, f, t, h, g))
    where
      filled :
          IsAllOrNone windows_table s.ave_windows
          → IsAllOrNone windows_table (Sim.average_query n s).1.ave_windows
      filled (inl e) = rw e (inr refl)
      filled (inr e) = rw e (inr refl)

  pulse_length-Ends : (n : ℕ) → Ends (Sim.pulse_length n >> pure tt) (ok tt)
  unfolding Sim.pulse_length ◌>>=◌ substr substr_count tokenize_string trim at stoul number_u16
  pulse_length-Ends zero s (r, inl e, w, u, f, t, h, g) =
      rw e (refl, (r, inr refl, w, u, f, t, h, g))
  pulse_length-Ends zero s (r, inr e, w, u, f, t, h, g) =
      rw e (refl, (r, inr refl, w, u, f, t, h, g))
  pulse_length-Ends (suc n) s k = ground (arith, k)

  get_all_wavelengths-Ends : Ends (Sim.get_all_wavelengths >> pure tt) (ok tt)
  unfolding Sim.get_all_wavelengths ◌>>=◌ substr
  get_all_wavelengths-Ends s k = (refl, k)

  query_user_threshold-Ends : (b : ℕ × ℕ × ℕ) → Ends (Sim.query_user_threshold b >> pure tt) (ok tt)
  unfolding Sim.query_user_threshold ◌>>=◌
  query_user_threshold-Ends b s (r, l, w, u, f, t, h, g) =
      (refl, (r, l, w, u, f, inr refl, inr refl, g))

  send_units_long-Ends : Ends (Measurements.send_units_long >> pure tt) (ok tt)
  unfolding Measurements.send_units_long Measurements.send_units ◌>>=◌ map_at
  send_units_long-Ends s (r, l, w, u, f, t, h, g) = rw u (refl, (r, l, w, refl, f, t, h, g))

  -- The others change at most one field, to a number.
  call-Ends : (op : Op) → IsTyped op → Ends (call op) (outcome op)
  unfolding call ◌>>=◌ Sim.get_range_fast Sim.get_wavelength Sim.get_all_wavelengths_u16
      Sim.get_e_threshold Sim.wavelength Sim.energy_threshold Sim.user_threshold Sim.write_range
      Measurements.get_average_flag Measurements.energy_flag Measurements.energy_ready
      Measurements.force_energy Measurements.force_power Measurements.force_exposure
      Measurements.head_info_raw Measurements.head_info Measurements.head_type
      Measurements.inst_config Measurements.inst_info Measurements.max_freq Measurements.reset
      Measurements.get_range Measurements.send_units Measurements.version Measurements.send_energy
      Measurements.get_energy Measurements.read_energy Measurements.send_average
      Measurements.read_average Measurements.send_frequency Measurements.send_power
      Measurements.send_max Measurements.exposure_energy Measurements.bc20_sensor_mode
      Measurements.diffuser_query Measurements.filter_query Measurements.mains_frequency
      Measurements.query_beam_track Measurements.force_screen Measurements.head_configuration
      Measurements.key_legends Measurements.simulate_key_press Measurements.wavelength_erase
      Measurements.write_discrete_wavelength Measurements.wavelength_add
      Measurements.measurement_mode Measurements.trigger_window Measurements.wavelength_index
  call-Ends (Op.set_wavelength n) t s k = set_wavelength-Ends n s k
  call-Ends Op.get_all_ranges t s k = get_all_ranges-Ends s k
  call-Ends (Op.average_query n) t s k = average_query-Ends n s k
  call-Ends (Op.pulse_length n) t s k = pulse_length-Ends n s k
  call-Ends (Op.query_user_threshold b) t s k = query_user_threshold-Ends b s k
  call-Ends Op.send_units_long t s k = send_units_long-Ends s k
  call-Ends (Op.wavelength n) fits s (r, l, w, u, f, t, h, g) = (refl, (r, l, w, u, fits, t, h, g))
  call-Ends (Op.energy_threshold n) typed s (r, l, w, u, f, t, h, g) =
      (refl, (r, l, w, u, f, inl (omega arith), h, g))
  call-Ends (Op.user_threshold n) typed s (r, l, w, u, f, t, h, g) =
      (refl, (r, l, w, u, f, inl (omega arith), h, g))
  call-Ends (Op.write_range z) fits s (r, l, w, u, f, t, h, g) = (refl, (r, l, w, u, f, t, h, fits))
  call-Ends Op.get_all_wavelengths t s k = get_all_wavelengths-Ends s k
  call-Ends op t s k = (refl, k)

  -- From a known state, whatever the calls are, with arguments in the types of the parameters: each
  -- call ends as its outcome says, so the overload of get_all_wavelengths and the eight members
  -- that are not implemented throw, and all others return; and the state stays known: each of the
  -- three maps is empty or its whole table, the units are those of the constructor, the wavelength
  -- and the range have 16 bits, the threshold is 0, 1 or 100, and its range the initial one or
  -- (1, 1000).
  pub run-IsKnown :
      (ops : List Op) (s : PowerMeterSim)
      → All IsTyped ops
      → IsKnown s
      → ((run ops s).0 ≡ map outcome ops) × IsKnown (run ops s).1
  unfolding run
  run-IsKnown [] s t k = (refl, k)
  run-IsKnown (op ∷ ops) s t k =
      let (r, k') = call-Ends op t.0 s k in
      let (rs, k'') = run-IsKnown ops (call op s).1 t.1 k' in (rw (r, rs) refl, k'')
