-- ===== src/Manager/Safety/Meters.antt =====
-- What the commands of the program do to the power meter keeps it valid.
use laser_control.Common.{ℕ, ◌<◌, ◌%◌, ◌^◌, arith, List, [], ◌∷◌, Bytes, codes}
use laser_control.Common.Int.{ℤ, pos, negsuc, IsI16, wrap_i16}
use laser_control.Effects.{Action}
use laser_control.Effects.Hoare.{Keeps, keeps_rules, Keeps-dropped}
use laser_control.Std.Floating.{Floating}
use laser_control.Serial.{Serial}
use laser_control.Serial.Logged.{LoggedPort, logged}
use laser_control.Device as Dev
use laser_control.Device.Keeps.{IsClean, quiet-IsClean}
use laser_control.PowerMeter
use laser_control.PowerMeter.{PowerMeter, on_device}
use laser_control.PowerMeter.Frames.{IsFrame}
use laser_control.PowerMeter.Keeps.{IsValid, device-IsValid}
use laser_control.PowerMeter.Valid.{call-IsValid, wavelength_op-IsValid}
use laser_control.PowerMeter.Ops.{Op, call}
use laser_control.PowerMeter.Ranges
use laser_control.PowerMeter.Modes
use laser_control.PowerMeter.Energy
use laser_control.PowerMeter.Threshold
use laser_control.PowerMeter.Info
use laser_control.PowerMeter.Getters
use laser_control.Manager.Arguments.{i16_of}
use laser_control.Manager.Safety.Motors.{u16_of_fits}
use laser_control.Manager.MeterCommand.{
  query_meter, meter_get, meter_set, meter_request, meter_command, choose_range, choose_wavelength,
}

-- The numbers of a command are numbers of their types.
wrap_i16-IsI16 : (z : ℤ) → IsI16 (wrap_i16 z)
unfolding wrap_i16
wrap_i16-IsI16 (pos n) = ground arith
wrap_i16-IsI16 (negsuc n) = ground arith

i16_of-IsI16 : (text : Bytes) → IsI16 (i16_of text)
unfolding i16_of
i16_of-IsI16 text = wrap_i16-IsI16 _

cut_below : (n : ℕ) → n % 2 ^ 16 < 2 ^ 16
cut_below n = omega arith

none_below : 0 < 2 ^ 16
none_below = omega arith

module _ (sp : Serial) ⦃fl : Floating⦄ where
  abbrev Holds : {A : Type 0} → Action (PowerMeter (LoggedPort sp)) A → Type 0
  Holds m = Keeps (IsValid sp) m

  -- An operation, for each of those of `call`.

  head_info-IsValid : Holds (Info.head_info ⦃sp = logged sp⦄)
  unfolding call
  head_info-IsValid = Keeps-dropped _ (call-IsValid sp Op.head_info tt)

  inst_info-IsValid : Holds (Info.inst_info ⦃sp = logged sp⦄)
  unfolding call
  inst_info-IsValid = Keeps-dropped _ (call-IsValid sp Op.inst_info tt)

  get_all_ranges-IsValid : Holds (Ranges.get_all_ranges ⦃sp = logged sp⦄)
  unfolding call
  get_all_ranges-IsValid = Keeps-dropped _ (call-IsValid sp Op.get_all_ranges tt)

  get_all_wavelengths-IsValid : (a : Bytes) → Holds (Ranges.get_all_wavelengths ⦃sp = logged sp⦄ a)
  unfolding call
  get_all_wavelengths-IsValid a = Keeps-dropped _ (call-IsValid sp (Op.get_all_wavelengths a) tt)

  set_range-IsValid : (r : ℤ) → IsI16 r → Holds (Ranges.set_range ⦃sp = logged sp⦄ r)
  unfolding call
  set_range-IsValid r h = Keeps-dropped _ (call-IsValid sp (Op.set_range r) h)

  query_user_threshold-IsValid : Holds (Threshold.query_user_threshold ⦃sp = logged sp⦄)
  unfolding call
  query_user_threshold-IsValid = Keeps-dropped _ (call-IsValid sp Op.query_user_threshold tt)

  user_threshold-IsValid :
      (v a : ℕ) → v < 2 ^ 16 → Holds (Threshold.user_threshold ⦃sp = logged sp⦄ v a)
  unfolding call
  user_threshold-IsValid v a h = Keeps-dropped _ (call-IsValid sp (Op.user_threshold v a) h)

  pulse_length-IsValid : (v : ℕ) → v < 2 ^ 16 → Holds (Modes.pulse_length ⦃sp = logged sp⦄ v)
  unfolding call
  pulse_length-IsValid v h = Keeps-dropped _ (call-IsValid sp (Op.pulse_length v) h)

  average_query-IsValid : (q : ℕ) → q < 2 ^ 16 → Holds (Modes.average_query ⦃sp = logged sp⦄ q)
  unfolding call
  average_query-IsValid q h = Keeps-dropped _ (call-IsValid sp (Op.average_query q) h)

  measurement_mode-IsValid :
      (q : ℕ) → q < 2 ^ 16 → Holds (Modes.measurement_mode ⦃sp = logged sp⦄ q)
  unfolding call
  measurement_mode-IsValid q h = Keeps-dropped _ (call-IsValid sp (Op.measurement_mode q) h)

  max_freq-IsValid : Holds (Energy.max_freq ⦃sp = logged sp⦄)
  unfolding call
  max_freq-IsValid = Keeps-dropped _ (call-IsValid sp Op.max_freq tt)

  get_average_flag-IsValid : Holds (Energy.get_average_flag ⦃sp = logged sp⦄)
  unfolding call
  get_average_flag-IsValid = Keeps-dropped _ (call-IsValid sp Op.get_average_flag tt)

  read_energy-IsValid : Holds (Energy.read_energy ⦃sp = logged sp⦄)
  unfolding call
  read_energy-IsValid = Keeps-dropped _ (call-IsValid sp Op.read_energy tt)

  read_average-IsValid : Holds (Energy.read_average ⦃sp = logged sp⦄)
  unfolding call
  read_average-IsValid = Keeps-dropped _ (call-IsValid sp Op.read_average tt)

  send_frequency-IsValid : Holds (Energy.send_frequency ⦃sp = logged sp⦄)
  unfolding call
  send_frequency-IsValid = Keeps-dropped _ (call-IsValid sp Op.send_frequency tt)

  send_units_long-IsValid : Holds (Energy.send_units_long ⦃sp = logged sp⦄)
  unfolding call
  send_units_long-IsValid = Keeps-dropped _ (call-IsValid sp Op.send_units_long tt)

  send_max-IsValid : Holds (Energy.send_max ⦃sp = logged sp⦄)
  unfolding call
  send_max-IsValid = Keeps-dropped _ (call-IsValid sp Op.send_max tt)

  is_open-IsClean :
      Keeps (IsClean sp IsFrame (codes "$") (codes "\r\n")) (Dev.is_open ⦃sp = logged sp⦄)
  unfolding Dev.is_open
  is_open-IsClean = search keeps_rules

  close-IsClean : Keeps (IsClean sp IsFrame (codes "$") (codes "\r\n")) (Dev.close ⦃sp = logged sp⦄)
  unfolding Dev.close
  close-IsClean = quiet-IsClean sp IsFrame (codes "$") (codes "\r\n") _

  destroy-IsClean :
      Keeps (IsClean sp IsFrame (codes "$") (codes "\r\n")) (Dev.destroy ⦃sp = logged sp⦄)
  unfolding Dev.destroy
  destroy-IsClean = search (keeps_rules, is_open-IsClean, close-IsClean)

  pub destroy-IsValid : Holds (on_device (Dev.destroy ⦃sp = logged sp⦄))
  destroy-IsValid = device-IsValid sp _ destroy-IsClean

  pub connect-IsValid : Holds (PowerMeter.connect ⦃sp = logged sp⦄)
  unfolding PowerMeter.connect
  connect-IsValid = search (keeps_rules, device-IsValid, quiet-IsClean, is_open-IsClean) depth 30

  pub query_meter-IsValid : Holds (query_meter ⦃sp = logged sp⦄)
  unfolding query_meter Getters.get_range_map Getters.get_pulse_map Getters.get_averages_map
  query_meter-IsValid =
      search
        (
          keeps_rules, head_info-IsValid, inst_info-IsValid, get_all_ranges-IsValid,
          query_user_threshold-IsValid, pulse_length-IsValid, get_all_wavelengths-IsValid,
          average_query-IsValid, max_freq-IsValid, none_below,
        )
        depth 30

  meter_get-IsValid : (setting : Bytes) → Holds (meter_get ⦃sp = logged sp⦄ setting)
  unfolding meter_get Getters.get_range_map Getters.get_pulse_map Ranges.get_wavelength
  meter_get-IsValid setting =
      search
        (
          keeps_rules, get_all_ranges-IsValid, query_user_threshold-IsValid, pulse_length-IsValid,
          get_average_flag-IsValid, read_energy-IsValid, read_average-IsValid,
          send_frequency-IsValid, send_units_long-IsValid, send_max-IsValid, none_below,
        )
        depth 30

  choose_wavelength-IsValid :
      (val : ℕ) → val < 2 ^ 16 → Holds (choose_wavelength ⦃sp = logged sp⦄ val)
  unfolding choose_wavelength Ranges.get_wavelength
  choose_wavelength-IsValid val h =
      search (keeps_rules, wavelength_op-IsValid, get_all_wavelengths-IsValid) depth 20

  choose_range-IsValid : (text : Bytes) → Holds (choose_range ⦃sp = logged sp⦄ text)
  unfolding choose_range Getters.get_range_map
  choose_range-IsValid text =
      search (keeps_rules, set_range-IsValid, i16_of-IsI16, get_all_ranges-IsValid) depth 20

  meter_set-IsValid :
      (leftover : ℕ) (setting text : Bytes)
      → Holds (meter_set ⦃sp = logged sp⦄ leftover setting text)
  unfolding meter_set
  meter_set-IsValid leftover setting text =
      search
        (
          keeps_rules, choose_wavelength-IsValid, choose_range-IsValid, average_query-IsValid,
          measurement_mode-IsValid, pulse_length-IsValid, user_threshold-IsValid, u16_of_fits,
          cut_below,
        )
        depth 20

  meter_request-IsValid : (sub : Bytes) → Holds (meter_request ⦃sp = logged sp⦄ sub)
  unfolding meter_request
  meter_request-IsValid sub =
      search (keeps_rules, read_energy-IsValid, read_average-IsValid) depth 20

  pub meter_command-IsValid :
      (leftover : ℕ) (args : List Bytes) → Holds (meter_command ⦃sp = logged sp⦄ leftover args)
  unfolding meter_command
  meter_command-IsValid leftover [] = search keeps_rules
  meter_command-IsValid leftover (sub ∷ []) = meter_request-IsValid sub
  meter_command-IsValid leftover (sub ∷ setting ∷ []) = search (keeps_rules, meter_get-IsValid)
  meter_command-IsValid leftover (sub ∷ setting ∷ text ∷ []) =
      search (keeps_rules, meter_set-IsValid)
  meter_command-IsValid leftover (a ∷ b ∷ c ∷ d ∷ args) = search keeps_rules
