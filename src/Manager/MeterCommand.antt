-- ===== src/Manager/MeterCommand.antt =====
-- The commands of the power meter, and its list of settings.
use laser_control.Common.{ℕ, ⊤, List, [], ◌∷◌, Bytes, codes, if◌then◌else◌, ◌%◌, ◌^◌}
use laser_control.Effects.{◌>>=◌, ◌>>◌, pure}
use laser_control.Std.Strings.{bytes_eq}
use laser_control.Std.Floating.{Floating}
use laser_control.Serial.{Serial}
use laser_control.PowerMeter.{Act}
use laser_control.PowerMeter.Ranges
use laser_control.PowerMeter.Modes
use laser_control.PowerMeter.Energy
use laser_control.PowerMeter.Threshold
use laser_control.PowerMeter.Info
use laser_control.PowerMeter.Getters
use laser_control.Manager.Arguments.{u16_of, i16_of}

module _ ⦃sp : Serial⦄ ⦃fl : Floating⦄ where
  -- The calls of `query_power_meter_settings`. The name of the instrument is in the text to which
  -- `get_all_wavelengths` appends.
  unfoldable pub query_meter : Act ⊤
  query_meter = do
    Info.head_info
    info ← Info.inst_info
    Ranges.get_all_ranges
    Getters.get_range_map
    Threshold.query_user_threshold
    Modes.pulse_length 0
    Getters.get_pulse_map
    Ranges.get_all_wavelengths info.2
    Modes.average_query 0
    Getters.get_averages_map
    Energy.max_freq
    pure tt

  unfoldable pub meter_get : Bytes → Act ⊤
  meter_get setting =
      if bytes_eq setting (codes "wavelength")
      then Ranges.get_wavelength >> pure tt
      else if bytes_eq setting (codes "range")
      then (do Ranges.get_all_ranges; Getters.get_range_map; pure tt)
      else if bytes_eq setting (codes "pulse_width")
      then (do Modes.pulse_length 0; Getters.get_pulse_map; pure tt)
      else if bytes_eq setting (codes "e_threshold")
      then Threshold.query_user_threshold >> pure tt
      else if bytes_eq setting (codes "average_flag")
      then Energy.get_average_flag >> pure tt
      else if bytes_eq setting (codes "energy")
      then Energy.read_energy >> pure tt
      else if bytes_eq setting (codes "average")
      then Energy.read_average >> pure tt
      else if bytes_eq setting (codes "frequency")
      then Energy.send_frequency >> pure tt
      else if bytes_eq setting (codes "unit")
      then Energy.send_units_long >> pure tt
      else if bytes_eq setting (codes "max")
      then Energy.send_max >> pure tt
      else pure tt

  -- A refused wavelength is followed by the list of those there are, a refused range too.
  unfoldable pub choose_wavelength : ℕ → Act ⊤
  choose_wavelength val = do
    success ← Ranges.wavelength val
    if success then pure tt else (do Ranges.get_wavelength; Ranges.get_all_wavelengths []; pure tt)

  unfoldable pub choose_range : Bytes → Act ⊤
  choose_range text = do
    success ← Ranges.set_range (i16_of text)
    if success then pure tt else (do Ranges.get_all_ranges; Getters.get_range_map; pure tt)

  -- The variable whose value `pulse_width` sets is never assigned.
  unfoldable pub meter_set : ℕ → Bytes → Bytes → Act ⊤
  meter_set leftover setting text =
      if bytes_eq setting (codes "wavelength")
      then choose_wavelength (u16_of text)
      else if bytes_eq setting (codes "range")
      then choose_range text
      else if bytes_eq setting (codes "average")
      then Modes.average_query (u16_of text) >> pure tt
      else if bytes_eq setting (codes "measurement_mode")
      then Modes.measurement_mode (u16_of text) >> pure tt
      else if bytes_eq setting (codes "pulse_width")
      then Modes.pulse_length (leftover % 2 ^ 16) >> pure tt
      else if bytes_eq setting (codes "threshold")
      then Threshold.user_threshold (u16_of text) (leftover % 2 ^ 16) >> pure tt
      else pure tt

  unfoldable pub meter_request : Bytes → Act ⊤
  meter_request sub =
      if bytes_eq sub (codes "get_energy")
      then Energy.read_energy >> pure tt
      else if bytes_eq sub (codes "get_average")
      then Energy.read_average >> pure tt
      else pure tt

  -- The words behind "power_meter", of which there is at least one.
  unfoldable pub meter_command : ℕ → List Bytes → Act ⊤
  meter_command leftover (sub ∷ []) = meter_request sub
  meter_command leftover (sub ∷ setting ∷ []) =
      if bytes_eq sub (codes "get") then meter_get setting else pure tt
  meter_command leftover (sub ∷ setting ∷ text ∷ []) =
      if bytes_eq sub (codes "set") then meter_set leftover setting text else pure tt
  meter_command leftover _ = pure tt
