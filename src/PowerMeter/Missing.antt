-- ===== src/PowerMeter/Missing.antt =====
-- The members of include/PowerMeter.hh that only throw.
use laser_control.Common.{ℕ, ⊤}
use laser_control.Effects.{throw, runtime_error}
use laser_control.Serial.{Serial}
use laser_control.PowerMeter.{Act}

module _ ⦃sp : Serial⦄ where
  unfoldable pub query_beam_track : Act ⊤
  query_beam_track = throw (runtime_error "not implemented")

  unfoldable pub force_screen : Act ⊤
  force_screen = throw (runtime_error "not implemented")

  unfoldable pub head_configuration : Act ⊤
  head_configuration = throw (runtime_error "not implemented")

  unfoldable pub key_legends : Act ⊤
  key_legends = throw (runtime_error "not implemented")

  unfoldable pub simulate_key_press : ℕ → Act ⊤
  simulate_key_press key = throw (runtime_error "not implemented")

  unfoldable pub wavelength_add : ℕ → ℕ → Act ⊤
  wavelength_add index wl = throw (runtime_error "not implemented")

  unfoldable pub wavelength_erase : ℕ → Act ⊤
  wavelength_erase index = throw (runtime_error "not implemented")

  unfoldable pub write_discrete_wavelength : ℕ → Act ⊤
  write_discrete_wavelength index = throw (runtime_error "not implemented")
