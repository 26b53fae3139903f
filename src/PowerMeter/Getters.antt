-- ===== src/PowerMeter/Getters.antt =====
-- The functions of the power meter that answer from its caches.
use laser_control.Common.{ℕ, List, Bytes}
use laser_control.Common.Int.{ℤ}
use laser_control.Effects.{gets}
use laser_control.Serial.{Serial}
use laser_control.PowerMeter.{Act}

module _ ⦃sp : Serial⦄ where
  unfoldable pub get_range_map : Act (List (ℤ × Bytes))
  get_range_map = gets (λ m. m.ranges)

  unfoldable pub get_pulse_map : Act (List (ℕ × Bytes))
  get_pulse_map = gets (λ m. m.pulse_lengths)

  unfoldable pub get_averages_map : Act (List (ℕ × Bytes))
  get_averages_map = gets (λ m. m.ave_windows)

  unfoldable pub get_threshold_ranges : Act (ℕ × ℕ)
  get_threshold_ranges = gets (λ m. m.threshold_ranges)
