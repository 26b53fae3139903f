-- ===== src/PowerMeter/Valid.antt =====
-- The invariant of the power meter: its messages and its caches, for every sequence of calls.
use laser_control.Common.{
  ℕ, ◌<◌, All, refl, ◌^◌, List, [], ◌∷◌, arith, Bytes, codes, Option, none, some,
}
use laser_control.Common.Int.{ℤ, pos, IsI16}
use laser_control.Effects.{Action, pure}
use laser_control.Effects.Hoare.{Keeps, keeps_rules}
use laser_control.Std.Floating.{Floating}
use laser_control.Serial.{Serial}
use laser_control.Serial.Logged.{LoggedPort, logged}
use laser_control.PowerMeter.{PowerMeter}
use laser_control.PowerMeter.Keeps.{IsValid}
use laser_control.PowerMeter.Ranges
use laser_control.PowerMeter.Missing
use laser_control.PowerMeter.Modes
use laser_control.PowerMeter.Energy
use laser_control.PowerMeter.Threshold
use laser_control.PowerMeter.Info
use laser_control.PowerMeter.Caches.{meter_rules}
use laser_control.PowerMeter.Ops.{Op, IsTyped, call, run}
use laser_control.Std.Numbers.Width.{show_digit}
use laser_control.PowerMeter.Frames.{IsCommand}
use laser_control.Std.Strings.{find}

module _ (sp : Serial) where
  abbrev Holds : {A : Type 0} → Action (PowerMeter (LoggedPort sp)) A → Type 0
  Holds m = Keeps (IsValid sp) m

  field-IsValid : (ts : List Bytes) (i : ℕ) → Holds (Threshold.field ⦃sp = logged sp⦄ ts i)
  unfolding Threshold.field
  field-IsValid ts i = search keeps_rules

  query_user_threshold-IsValid : Holds (Threshold.query_user_threshold ⦃sp = logged sp⦄)
  unfolding Threshold.query_user_threshold
  query_user_threshold-IsValid = search (meter_rules, field-IsValid) depth 20

  set_range-IsValid : (r : ℤ) → IsI16 r → Holds (Ranges.set_range ⦃sp = logged sp⦄ r)
  unfolding Ranges.set_range
  set_range-IsValid r h = search meter_rules depth 12

  store_threshold-IsValid :
      (ts : List Bytes) → Holds (Threshold.store_threshold ⦃sp = logged sp⦄ ts)
  unfolding Threshold.store_threshold
  store_threshold-IsValid ts = search (meter_rules, field-IsValid) depth 20

  user_threshold-IsValid :
      (v a : ℕ) → v < 2 ^ 16 → Holds (Threshold.user_threshold ⦃sp = logged sp⦄ v a)
  unfolding Threshold.user_threshold
  user_threshold-IsValid v a h =
      search (meter_rules, store_threshold-IsValid, query_user_threshold-IsValid) depth 20

  third_byte-IsValid : (resp : Bytes) → Holds (Modes.third_byte ⦃sp = logged sp⦄ resp)
  unfolding Modes.third_byte
  third_byte-IsValid resp = search keeps_rules

  filter_setting-IsValid : (resp : Bytes) → Holds (Modes.filter_setting ⦃sp = logged sp⦄ resp)
  unfolding Modes.filter_setting
  filter_setting-IsValid resp = by_case (find (codes "N/A") resp)
    where
      by_case :
          (o : Option ℕ)
          → Holds (elim o [ some p ↦ pure (pos 3) | none ↦ Modes.third_byte ⦃sp = logged sp⦄ resp ])
      by_case (some p) = search keeps_rules
      by_case none = third_byte-IsValid resp

  pub wavelength_op-IsValid : (wl : ℕ) → wl < 2 ^ 16 → Holds (Ranges.wavelength ⦃sp = logged sp⦄ wl)
  unfolding Ranges.wavelength
  wavelength_op-IsValid wl h = search meter_rules depth 12

  set_wavelength-IsValid : (wl : ℕ) → Holds (Ranges.set_wavelength ⦃sp = logged sp⦄ wl)
  unfolding Ranges.set_wavelength
  set_wavelength-IsValid wl = search (meter_rules, wavelength_op-IsValid) depth 12

  average_query-IsValid : (q : ℕ) → q < 2 ^ 16 → Holds (Modes.average_query ⦃sp = logged sp⦄ q)
  unfolding Modes.average_query
  average_query-IsValid q h = search meter_rules depth 20

  pulse_length-IsValid : (v : ℕ) → v < 2 ^ 16 → Holds (Modes.pulse_length ⦃sp = logged sp⦄ v)
  unfolding Modes.pulse_length
  pulse_length-IsValid v h = search meter_rules depth 20

  measurement_mode-IsValid :
      (q : ℕ) → q < 2 ^ 16 → Holds (Modes.measurement_mode ⦃sp = logged sp⦄ q)
  unfolding Modes.measurement_mode Modes.new_mode Modes.current_mode
  measurement_mode-IsValid q h = search meter_rules depth 20

  zero_frame : IsCommand (codes "MM 0")
  zero_frame = rw (show_digit 0 (omega arith)) at (IsCommand.setting b'M' b'M' 0 refl (omega arith))

  init_pulse_lengths-IsValid : Holds (Modes.init_pulse_lengths ⦃sp = logged sp⦄)
  unfolding Modes.init_pulse_lengths
  init_pulse_lengths-IsValid = search (meter_rules, zero_frame) depth 20

  energy_flag-IsValid : Holds (Energy.energy_flag ⦃sp = logged sp⦄)
  unfolding Energy.energy_flag
  energy_flag-IsValid = search meter_rules depth 12

  average_flag-IsValid : Holds (Energy.get_average_flag ⦃sp = logged sp⦄)
  unfolding Energy.get_average_flag
  average_flag-IsValid = search meter_rules depth 12

  send_units-IsValid : Holds (Energy.send_units ⦃sp = logged sp⦄)
  unfolding Energy.send_units
  send_units-IsValid = search meter_rules depth 12

  module _ ⦃fl : Floating⦄ where
    send_energy-IsValid : Holds (Energy.send_energy ⦃sp = logged sp⦄)
    unfolding Energy.send_energy
    send_energy-IsValid = search meter_rules depth 12

    send_average-IsValid : Holds (Energy.send_average ⦃sp = logged sp⦄)
    unfolding Energy.send_average
    send_average-IsValid = search meter_rules depth 12

    pub call-IsValid : (op : Op) → IsTyped op → Holds (call ⦃sp = logged sp⦄ op)
    unfolding call Missing.query_beam_track Missing.force_screen Missing.head_configuration
        Missing.key_legends Missing.simulate_key_press Missing.wavelength_add
        Missing.wavelength_erase Missing.write_discrete_wavelength Ranges.get_all_wavelengths_u16
        Ranges.get_range_fast Ranges.get_wavelength Ranges.set_range Ranges.write_range
        Ranges.wavelength_index Ranges.get_all_wavelengths Ranges.get_range Ranges.get_all_ranges
        Modes.bc20_sensor_mode Modes.diffuser_query Modes.filter_query Modes.mains_frequency
        Modes.force_energy Modes.force_power Modes.force_exposure Modes.trigger_window
        Threshold.energy_threshold Info.head_info_raw Info.head_info Info.head_type Info.inst_config
        Info.inst_info Info.version Info.reset Energy.exposure_energy Energy.energy_ready
        Energy.max_freq Energy.get_energy Energy.read_energy Energy.send_frequency
        Energy.read_average Energy.send_units_long Energy.send_power Energy.send_max
    call-IsValid (Op.set_wavelength wl) h = set_wavelength-IsValid wl
    call-IsValid (Op.average_query q) h = search (keeps_rules, average_query-IsValid)
    call-IsValid (Op.pulse_length v) h = search (keeps_rules, pulse_length-IsValid)
    call-IsValid (Op.measurement_mode q) h = search (keeps_rules, measurement_mode-IsValid)
    call-IsValid (Op.user_threshold v a) h = search (keeps_rules, user_threshold-IsValid)
    call-IsValid Op.query_user_threshold h = search (keeps_rules, query_user_threshold-IsValid)
    call-IsValid (Op.diffuser_query s) h = search (meter_rules, filter_setting-IsValid) depth 12
    call-IsValid (Op.filter_query s) h = search (meter_rules, filter_setting-IsValid) depth 12
    call-IsValid (Op.bc20_sensor_mode s) h = search (meter_rules, third_byte-IsValid) depth 12
    call-IsValid Op.energy_flag h = search (keeps_rules, energy_flag-IsValid)
    call-IsValid Op.get_average_flag h = search (keeps_rules, average_flag-IsValid)
    call-IsValid Op.send_energy h = search (keeps_rules, send_energy-IsValid)
    call-IsValid Op.send_average h = search (keeps_rules, send_average-IsValid)
    call-IsValid Op.read_energy h =
        search (keeps_rules, energy_flag-IsValid, send_energy-IsValid) depth 12
    call-IsValid Op.read_average h =
        search (keeps_rules, average_flag-IsValid, send_average-IsValid) depth 12
    call-IsValid Op.send_units h = search (keeps_rules, send_units-IsValid)
    call-IsValid Op.send_units_long h = search (keeps_rules, send_units-IsValid) depth 12
    call-IsValid Op.init_pulse_lengths h = init_pulse_lengths-IsValid
    call-IsValid (Op.wavelength wl) h = search (keeps_rules, wavelength_op-IsValid)
    call-IsValid Op.get_energy h = search (keeps_rules, send_energy-IsValid)
    call-IsValid op h = search meter_rules depth 20

    -- Whatever the port does, and whichever calls throw: from a valid state every sequence of calls
    -- with arguments in the types of the parameters leaves a valid one. So each message sent is a
    -- dollar sign, one of the instrument's commands of PowerMeter/Frames with a decimal argument in
    -- the width of its parameter or with none, and "\r\n"; the cached wavelength and thresholds fit
    -- in 16 bits; the maps of ranges, pulse lengths and averaging windows have their keys in order;
    -- the table of units is as constructed.
    pub run-IsValid :
        (ops : List Op) (m : PowerMeter (LoggedPort sp))
        → All IsTyped ops
        → IsValid sp m
        → IsValid sp (run ⦃sp = logged sp⦄ ops m)
    unfolding run
    run-IsValid [] m typed h = h
    run-IsValid (op ∷ ops) m typed h =
        run-IsValid ops (call ⦃sp = logged sp⦄ op m).1 typed.1 ((call-IsValid op typed.0).after m h)
