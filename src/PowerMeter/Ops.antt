-- ===== src/PowerMeter/Ops.antt =====
-- The calls that a client of the power meter makes, with their results dropped.
use laser_control.Common.{ℕ, ◌<◌, ◌^◌, ⊤, List, [], ◌∷◌, Bytes}
use laser_control.Common.Int.{ℤ, IsI16}
use laser_control.Effects.{◌>>◌, pure}
use laser_control.Std.Floating.{Floating}
use laser_control.Serial.{Serial}
use laser_control.PowerMeter.{PowerMeter, Act}
use laser_control.PowerMeter.Ranges
use laser_control.PowerMeter.Missing
use laser_control.PowerMeter.Modes
use laser_control.PowerMeter.Energy
use laser_control.PowerMeter.Threshold
use laser_control.PowerMeter.Info

pub data Op : Type 0 where
  set_range write_range : ℤ → Op
  set_wavelength wavelength_index average_query bc20_sensor_mode diffuser_query : ℕ → Op
  filter_query mains_frequency measurement_mode pulse_length energy_threshold : ℕ → Op
  user_threshold : ℕ → ℕ → Op
  get_all_wavelengths head_info_raw : Bytes → Op
  get_range get_all_ranges get_average_flag exposure_energy energy_flag energy_ready : Op
  force_energy force_power force_exposure head_info head_type inst_config inst_info : Op
  max_freq reset send_energy read_energy send_frequency send_average read_average : Op
  send_units send_units_long send_power send_max query_user_threshold version : Op
  init_pulse_lengths get_energy : Op
  wavelength trigger_window : ℕ → Op
  query_beam_track force_screen head_configuration key_legends : Op
  get_all_wavelengths_u16 get_range_fast get_wavelength : Op
  simulate_key_press wavelength_erase write_discrete_wavelength : ℕ → Op
  wavelength_add : ℕ → ℕ → Op

-- The arguments are numbers of the types of the parameters; an enumeration has 16 bits. What
-- set_wavelength is given is cut by the code.
abbrev pub IsTyped : Op → Type 0
IsTyped (Op.set_range r) = IsI16 r
IsTyped (Op.write_range r) = IsI16 r
IsTyped (Op.set_wavelength wl) = Unit
IsTyped (Op.wavelength wl) = wl < 2 ^ 16
IsTyped (Op.wavelength_index i) = i < 2 ^ 16
IsTyped (Op.average_query q) = q < 2 ^ 16
IsTyped (Op.bc20_sensor_mode q) = q < 2 ^ 16
IsTyped (Op.diffuser_query s) = s < 2 ^ 16
IsTyped (Op.filter_query s) = s < 2 ^ 16
IsTyped (Op.mains_frequency q) = q < 2 ^ 16
IsTyped (Op.measurement_mode q) = q < 2 ^ 16
IsTyped (Op.pulse_length v) = v < 2 ^ 16
IsTyped (Op.energy_threshold et) = et < 2 ^ 32
IsTyped (Op.user_threshold v a) = v < 2 ^ 16
IsTyped op = Unit

module _ ⦃sp : Serial⦄ ⦃fl : Floating⦄ where
  unfoldable pub call : Op → Act ⊤
  call (Op.set_range r) = Ranges.set_range r >> pure tt
  call (Op.write_range r) = Ranges.write_range r >> pure tt
  call (Op.set_wavelength wl) = Ranges.set_wavelength wl
  call (Op.wavelength_index i) = Ranges.wavelength_index i >> pure tt
  call (Op.average_query q) = Modes.average_query q >> pure tt
  call (Op.bc20_sensor_mode q) = Modes.bc20_sensor_mode q >> pure tt
  call (Op.diffuser_query s) = Modes.diffuser_query s >> pure tt
  call (Op.filter_query s) = Modes.filter_query s >> pure tt
  call (Op.mains_frequency q) = Modes.mains_frequency q >> pure tt
  call (Op.measurement_mode q) = Modes.measurement_mode q >> pure tt
  call (Op.pulse_length v) = Modes.pulse_length v >> pure tt
  call (Op.energy_threshold et) = Threshold.energy_threshold et >> pure tt
  call (Op.user_threshold v a) = Threshold.user_threshold v a >> pure tt
  call (Op.get_all_wavelengths a) = Ranges.get_all_wavelengths a >> pure tt
  call (Op.head_info_raw a) = Info.head_info_raw a >> pure tt
  call Op.get_range = Ranges.get_range >> pure tt
  call Op.get_all_ranges = Ranges.get_all_ranges >> pure tt
  call Op.get_average_flag = Energy.get_average_flag >> pure tt
  call Op.exposure_energy = Energy.exposure_energy >> pure tt
  call Op.energy_flag = Energy.energy_flag >> pure tt
  call Op.energy_ready = Energy.energy_ready >> pure tt
  call Op.force_energy = Modes.force_energy >> pure tt
  call Op.force_power = Modes.force_power >> pure tt
  call Op.force_exposure = Modes.force_exposure >> pure tt
  call Op.head_info = Info.head_info >> pure tt
  call Op.head_type = Info.head_type >> pure tt
  call Op.inst_config = Info.inst_config >> pure tt
  call Op.inst_info = Info.inst_info >> pure tt
  call Op.max_freq = Energy.max_freq >> pure tt
  call Op.reset = Info.reset
  call Op.send_energy = Energy.send_energy >> pure tt
  call Op.read_energy = Energy.read_energy >> pure tt
  call Op.send_frequency = Energy.send_frequency >> pure tt
  call Op.send_average = Energy.send_average >> pure tt
  call Op.read_average = Energy.read_average >> pure tt
  call Op.send_units = Energy.send_units >> pure tt
  call Op.send_units_long = Energy.send_units_long >> pure tt
  call Op.send_power = Energy.send_power >> pure tt
  call Op.send_max = Energy.send_max >> pure tt
  call Op.query_user_threshold = Threshold.query_user_threshold >> pure tt
  call Op.version = Info.version >> pure tt
  call Op.init_pulse_lengths = Modes.init_pulse_lengths
  call Op.get_energy = Energy.get_energy >> pure tt
  call (Op.wavelength wl) = Ranges.wavelength wl >> pure tt
  call (Op.trigger_window v) = Modes.trigger_window v >> pure tt
  call Op.get_range_fast = Ranges.get_range_fast >> pure tt
  call Op.get_wavelength = Ranges.get_wavelength >> pure tt
  call Op.get_all_wavelengths_u16 = Ranges.get_all_wavelengths_u16
  call Op.query_beam_track = Missing.query_beam_track
  call Op.force_screen = Missing.force_screen
  call Op.head_configuration = Missing.head_configuration
  call Op.key_legends = Missing.key_legends
  call (Op.simulate_key_press key) = Missing.simulate_key_press key
  call (Op.wavelength_add index wl) = Missing.wavelength_add index wl
  call (Op.wavelength_erase index) = Missing.wavelength_erase index
  call (Op.write_discrete_wavelength index) = Missing.write_discrete_wavelength index

  -- The state after a sequence of calls, of which any may throw.
  unfoldable pub run : List Op → PowerMeter sp.Port → PowerMeter sp.Port
  run [] m = m
  run (op ∷ ops) m = run ops (call op m).1
