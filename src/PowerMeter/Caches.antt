-- ===== src/PowerMeter/Caches.antt =====
-- What the changes of the caches keep, and the rules for the calls of the power meter.
use laser_control.Common.{
  ℕ, ◌<◌, All, refl, ◌%◌, ◌^◌, List, [], ◌∷◌, arith, Bytes, codes, Option, none, some,
}
use laser_control.Effects.{Action, modify}
use laser_control.Effects.Hoare.{Keeps, keeps_rules}
use laser_control.Std.Maps.Sorted.{number_u16-IsSorted, number_i16-IsOrdered}
use laser_control.Serial.{Serial}
use laser_control.Serial.Logged.{LoggedPort, logged}
use laser_control.PowerMeter.{PowerMeter}
use laser_control.PowerMeter.Keeps.{IsValid, ask-IsValid, send_cmd-IsValid, modify-IsValid}
use laser_control.PowerMeter.Threshold
use laser_control.Std.Maps.{number_u16, number_i16}
use laser_control.PowerMeter.Frames.{IsCommand}

module _ (sp : Serial) where
  abbrev Holds : {A : Type 0} → Action (PowerMeter (LoggedPort sp)) A → Type 0
  Holds m = Keeps (IsValid sp) m

  pub windows-IsValid :
      (ts : List Bytes)
      → Holds (modify (λ m. record m { ave_windows = number_u16 1 ts m.ave_windows }))
  windows-IsValid ts =
      modify-IsValid sp _ (λ m. refl) (λ m. refl)
        (λ m h. (h.wavelength_fits, h.threshold_fits, h.low_fits, h.high_fits))
        (λ m h. (h.lengths_sorted, number_u16-IsSorted 1 ts _ h.windows_sorted, h.ranges_sorted))

  pub lengths-IsValid :
      (ts : List Bytes)
      → Holds (modify (λ m. record m { pulse_lengths = number_u16 1 ts m.pulse_lengths }))
  lengths-IsValid ts =
      modify-IsValid sp _ (λ m. refl) (λ m. refl)
        (λ m h. (h.wavelength_fits, h.threshold_fits, h.low_fits, h.high_fits))
        (λ m h. (number_u16-IsSorted 1 ts _ h.lengths_sorted, h.windows_sorted, h.ranges_sorted))

  pub no_lengths-IsValid : Holds (modify (λ m. record m { pulse_lengths = [] }))
  no_lengths-IsValid =
      modify-IsValid sp _ (λ m. refl) (λ m. refl)
        (λ m h. (h.wavelength_fits, h.threshold_fits, h.low_fits, h.high_fits))
        (λ m h. (tt, h.windows_sorted, h.ranges_sorted))

  pub ranges-IsValid :
      (ts : List Bytes) → Holds (modify (λ m. record m { ranges = number_i16 0 ts [] }))
  ranges-IsValid ts =
      modify-IsValid sp _ (λ m. refl) (λ m. refl)
        (λ m h. (h.wavelength_fits, h.threshold_fits, h.low_fits, h.high_fits))
        (λ m h. (h.lengths_sorted, h.windows_sorted, number_i16-IsOrdered 0 ts [] tt))

  pub wavelength-IsValid : (v : ℕ) → Holds (modify (λ m. record m { wavelength = v % 2 ^ 16 }))
  wavelength-IsValid v =
      modify-IsValid sp _ (λ m. refl) (λ m. refl)
        (λ m h. (omega arith, h.threshold_fits, h.low_fits, h.high_fits))
        (λ m h. (h.lengths_sorted, h.windows_sorted, h.ranges_sorted))

  pub threshold-IsValid : (v : ℕ) → Holds (modify (λ m. record m { e_threshold = v % 2 ^ 16 }))
  threshold-IsValid v =
      modify-IsValid sp _ (λ m. refl) (λ m. refl)
        (λ m h. (h.wavelength_fits, omega arith, h.low_fits, h.high_fits))
        (λ m h. (h.lengths_sorted, h.windows_sorted, h.ranges_sorted))

  pub store_low-IsValid : (v : ℕ) → Holds (Threshold.store_low ⦃sp = logged sp⦄ v)
  unfolding Threshold.store_low
  store_low-IsValid v =
      modify-IsValid sp _ (λ m. refl) (λ m. refl)
        (λ m h. (h.wavelength_fits, h.threshold_fits, omega arith, h.high_fits))
        (λ m h. (h.lengths_sorted, h.windows_sorted, h.ranges_sorted))

  pub store_high-IsValid : (v : ℕ) → Holds (Threshold.store_high ⦃sp = logged sp⦄ v)
  unfolding Threshold.store_high
  store_high-IsValid v =
      modify-IsValid sp _ (λ m. refl) (λ m. refl)
        (λ m h. (h.wavelength_fits, h.threshold_fits, h.low_fits, omega arith))
        (λ m h. (h.lengths_sorted, h.windows_sorted, h.ranges_sorted))

  -- The arguments that fit in any case.
  pub cut_below : (n : ℕ) → n % 2 ^ 16 < 2 ^ 16
  cut_below n = omega arith

  pub none_below : 0 < 2 ^ 16
  none_below = omega arith

  pub ruleset meter_rules = (
    keeps_rules, ask-IsValid, send_cmd-IsValid, windows-IsValid, lengths-IsValid,
    no_lengths-IsValid, ranges-IsValid, wavelength-IsValid, threshold-IsValid, store_low-IsValid,
    store_high-IsValid, IsCommand.request, IsCommand.setting, IsCommand.energy_threshold,
    IsCommand.range, cut_below, none_below, refl,
  )
