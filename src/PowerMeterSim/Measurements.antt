-- ===== src/PowerMeterSim/Measurements.antt =====
-- The operations of the simulated power meter that answer with a constant.
use laser_control.Common.{
  ℕ, ⊤, Bool, true, false, Bytes, codes, [], Option, some, none, ltb, if◌then◌else◌,
}
use laser_control.Common.Int.{ℤ, pos}
use laser_control.Effects.{◌>>=◌, pure, gets, lift, throw, runtime_error}
use laser_control.Std.Floating.{Floating}
use laser_control.Std.Maps.{map_at}
use laser_control.PowerMeter.Info.{HeadInfo}
use laser_control.PowerMeterSim.{SimAct}

unfoldable pub get_average_flag : SimAct Bool
get_average_flag = pure true

unfoldable pub bc20_sensor_mode : ℕ → SimAct ℕ
bc20_sensor_mode query = pure 1

unfoldable pub diffuser_query : ℕ → SimAct ℕ
diffuser_query s = pure 3

unfoldable pub filter_query : ℕ → SimAct ℕ
filter_query s = pure 3

unfoldable pub energy_flag : SimAct Bool
energy_flag = pure true

unfoldable pub energy_ready : SimAct Bool
energy_ready = pure true

unfoldable pub force_energy : SimAct Bool
force_energy = pure true

unfoldable pub force_power : SimAct Bool
force_power = pure false

unfoldable pub force_exposure : SimAct Bool
force_exposure = pure false

unfoldable pub head_info_raw : SimAct Bytes
head_info_raw = pure []

unfoldable pub head_info : SimAct HeadInfo
head_info = pure (record {
  type_name = codes "energy";
  sn = codes "DEADBEEF";
  name = codes "simulation";
  power = false;
  energy = true;
  freq = true;
})

unfoldable pub head_type : SimAct Bytes
head_type = pure []

unfoldable pub inst_config : SimAct Bool
inst_config = pure true

-- Identifier, serial number and name.
unfoldable pub inst_info : SimAct (Bytes × Bytes × Bytes)
inst_info = pure (codes "whatever", codes "DEADBEEF", codes "simulation")

unfoldable pub mains_frequency : ℕ → SimAct ℕ
mains_frequency q = pure 1

unfoldable pub max_freq : SimAct ℕ
max_freq = pure 1000

unfoldable pub measurement_mode : ℕ → SimAct ℕ
measurement_mode q = pure 3

unfoldable pub reset : SimAct ⊤
reset = pure tt

unfoldable pub get_range : SimAct ℤ
get_range = pure (pos 1)

unfoldable pub send_units : SimAct ℕ
send_units = pure b'J'

unfoldable pub send_units_long : SimAct Bytes
send_units_long = do
  u ← send_units
  table ← gets (λ m. m.measurement_units)
  lift (map_at ltb table u)

unfoldable pub trigger_window : ℕ → SimAct ℕ
trigger_window value = pure 1

unfoldable pub version : SimAct Bytes
version = pure (codes "1.25")

unfoldable pub wavelength_index : ℕ → SimAct Bool
wavelength_index index = pure false

module _ ⦃fl : Floating⦄ where
  open fl use {Double, literal}

  unfoldable pub send_energy : SimAct Double
  send_energy = pure (literal (pos 12) 4)

  unfoldable pub get_energy : SimAct Double
  get_energy = send_energy

  -- `none` where `energy` is left as it was and `false` is returned.
  unfoldable pub read_energy : SimAct (Option Double)
  read_energy = pure (some (literal (pos 12) 4))

  unfoldable pub send_average : SimAct Double
  send_average = pure (literal (pos 12) 4)

  unfoldable pub read_average : SimAct (Option Double)
  read_average = do
    st ← get_average_flag
    if st then (do value ← send_average; pure (some value)) else pure none

  unfoldable pub send_frequency : SimAct Double
  send_frequency = pure (literal (pos 500) 1)

  unfoldable pub send_power : SimAct Double
  send_power = pure (literal (pos 0) 1)

  unfoldable pub send_max : SimAct Double
  send_max = pure (literal (pos 1000) 1)

  -- Energy, pulses and elapsed time.
  unfoldable pub exposure_energy : SimAct (Double × ℕ × ℕ)
  exposure_energy = pure (literal (pos 12542) 2, 5, 100)

-- The members of the header that only throw.
unfoldable pub query_beam_track : SimAct ⊤
query_beam_track = throw (runtime_error "not implemented")

unfoldable pub force_screen : SimAct ⊤
force_screen = throw (runtime_error "not implemented")

unfoldable pub head_configuration : SimAct ⊤
head_configuration = throw (runtime_error "not implemented")

unfoldable pub key_legends : SimAct ⊤
key_legends = throw (runtime_error "not implemented")

unfoldable pub simulate_key_press : ℕ → SimAct ⊤
simulate_key_press key = throw (runtime_error "not implemented")

unfoldable pub wavelength_add : ℕ → ℕ → SimAct ⊤
wavelength_add index wl = throw (runtime_error "not implemented")

unfoldable pub wavelength_erase : ℕ → SimAct ⊤
wavelength_erase index = throw (runtime_error "not implemented")

unfoldable pub write_discrete_wavelength : ℕ → SimAct ⊤
write_discrete_wavelength index = throw (runtime_error "not implemented")
