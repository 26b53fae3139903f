-- ===== src/PowerMeterSim/Ops.antt =====
-- The operations of the simulated power meter, and how a sequence of them ends.
use laser_control.Common.{ℕ, ⊤, ◌<◌, ◌^◌, List, [], ◌∷◌}
use laser_control.Common.Int.{ℤ, IsI16}
use laser_control.Effects.{Result, ok, err, runtime_error, ◌>>◌, pure}
use laser_control.Std.Floating.{Floating}
use laser_control.PowerMeterSim as Sim
use laser_control.PowerMeterSim.{PowerMeterSim, SimAct}
use laser_control.PowerMeterSim.Measurements

pub data Op : Type 0 where
  get_range_fast get_wavelength get_all_ranges get_all_wavelengths : Op
  get_all_wavelengths_u16 get_e_threshold get_average_flag energy_flag : Op
  energy_ready force_energy force_power force_exposure head_info_raw head_info : Op
  head_type inst_config inst_info max_freq reset get_range send_units : Op
  send_units_long version send_energy get_energy read_energy send_average : Op
  read_average send_frequency send_power send_max exposure_energy : Op
  set_wavelength wavelength average_query pulse_length energy_threshold : ℕ → Op
  user_threshold bc20_sensor_mode diffuser_query filter_query mains_frequency : ℕ → Op
  measurement_mode trigger_window wavelength_index : ℕ → Op
  write_range : ℤ → Op
  query_beam_track force_screen head_configuration key_legends : Op
  simulate_key_press wavelength_erase write_discrete_wavelength : ℕ → Op
  wavelength_add : ℕ → ℕ → Op
  query_user_threshold : ℕ × ℕ × ℕ → Op

-- The arguments are numbers of the types of the parameters.
abbrev pub IsTyped : Op → Type 0
IsTyped (Op.wavelength wl) = wl < 2 ^ 16
IsTyped (Op.write_range r) = IsI16 r
IsTyped op = Unit

-- What a call ends with: one overload and eight members are not implemented.
abbrev pub outcome : Op → Result ⊤
outcome Op.get_all_wavelengths_u16 = err (runtime_error "Not implemented")
outcome Op.query_beam_track = err (runtime_error "not implemented")
outcome Op.force_screen = err (runtime_error "not implemented")
outcome Op.head_configuration = err (runtime_error "not implemented")
outcome Op.key_legends = err (runtime_error "not implemented")
outcome (Op.simulate_key_press key) = err (runtime_error "not implemented")
outcome (Op.wavelength_add index wl) = err (runtime_error "not implemented")
outcome (Op.wavelength_erase index) = err (runtime_error "not implemented")
outcome (Op.write_discrete_wavelength index) = err (runtime_error "not implemented")
outcome op = ok tt

module _ ⦃fl : Floating⦄ where
  -- A call, with its result dropped.
  unfoldable pub call : Op → SimAct ⊤
  call Op.get_range_fast = Sim.get_range_fast >> pure tt
  call Op.get_wavelength = Sim.get_wavelength >> pure tt
  call Op.get_all_ranges = Sim.get_all_ranges >> pure tt
  call Op.get_all_wavelengths = Sim.get_all_wavelengths >> pure tt
  call Op.get_all_wavelengths_u16 = Sim.get_all_wavelengths_u16
  call Op.get_e_threshold = Sim.get_e_threshold >> pure tt
  call Op.get_average_flag = Measurements.get_average_flag >> pure tt
  call Op.energy_flag = Measurements.energy_flag >> pure tt
  call Op.energy_ready = Measurements.energy_ready >> pure tt
  call Op.force_energy = Measurements.force_energy >> pure tt
  call Op.force_power = Measurements.force_power >> pure tt
  call Op.force_exposure = Measurements.force_exposure >> pure tt
  call Op.head_info_raw = Measurements.head_info_raw >> pure tt
  call Op.head_info = Measurements.head_info >> pure tt
  call Op.head_type = Measurements.head_type >> pure tt
  call Op.inst_config = Measurements.inst_config >> pure tt
  call Op.inst_info = Measurements.inst_info >> pure tt
  call Op.max_freq = Measurements.max_freq >> pure tt
  call Op.reset = Measurements.reset
  call Op.get_range = Measurements.get_range >> pure tt
  call Op.send_units = Measurements.send_units >> pure tt
  call Op.send_units_long = Measurements.send_units_long >> pure tt
  call Op.version = Measurements.version >> pure tt
  call Op.send_energy = Measurements.send_energy >> pure tt
  call Op.get_energy = Measurements.get_energy >> pure tt
  call Op.read_energy = Measurements.read_energy >> pure tt
  call Op.send_average = Measurements.send_average >> pure tt
  call Op.read_average = Measurements.read_average >> pure tt
  call Op.send_frequency = Measurements.send_frequency >> pure tt
  call Op.send_power = Measurements.send_power >> pure tt
  call Op.send_max = Measurements.send_max >> pure tt
  call Op.exposure_energy = Measurements.exposure_energy >> pure tt
  call (Op.set_wavelength n) = Sim.set_wavelength n
  call (Op.wavelength n) = Sim.wavelength n >> pure tt
  call (Op.average_query n) = Sim.average_query n >> pure tt
  call (Op.pulse_length n) = Sim.pulse_length n >> pure tt
  call (Op.energy_threshold n) = Sim.energy_threshold n >> pure tt
  call (Op.user_threshold n) = Sim.user_threshold n >> pure tt
  call (Op.bc20_sensor_mode n) = Measurements.bc20_sensor_mode n >> pure tt
  call (Op.diffuser_query n) = Measurements.diffuser_query n >> pure tt
  call (Op.filter_query n) = Measurements.filter_query n >> pure tt
  call (Op.mains_frequency n) = Measurements.mains_frequency n >> pure tt
  call (Op.measurement_mode n) = Measurements.measurement_mode n >> pure tt
  call (Op.trigger_window n) = Measurements.trigger_window n >> pure tt
  call (Op.wavelength_index n) = Measurements.wavelength_index n >> pure tt
  call (Op.write_range r) = Sim.write_range r >> pure tt
  call (Op.query_user_threshold before) = Sim.query_user_threshold before >> pure tt
  call Op.query_beam_track = Measurements.query_beam_track
  call Op.force_screen = Measurements.force_screen
  call Op.head_configuration = Measurements.head_configuration
  call Op.key_legends = Measurements.key_legends
  call (Op.simulate_key_press key) = Measurements.simulate_key_press key
  call (Op.wavelength_add index wl) = Measurements.wavelength_add index wl
  call (Op.wavelength_erase index) = Measurements.wavelength_erase index
  call (Op.write_discrete_wavelength index) = Measurements.write_discrete_wavelength index

  -- The results of a sequence of calls, of which any may throw, and the state behind it.
  unfoldable pub run : List Op → PowerMeterSim → List (Result ⊤) × PowerMeterSim
  run [] m = ([], m)
  run (op ∷ ops) m = let (r, m') = call op m in let (rs, m'') = run ops m' in (r ∷ rs, m'')
