-- ===== src/PowerMeter/Ranges.antt =====
-- Measurement ranges and wavelengths of the power meter.
use laser_control.Common.{
  ℕ, ⊤, Bool, true, false, not, ◌%◌, ◌^◌, ◌++◌, ◌==◌, Bytes, codes, [], drop, length, if◌then◌else◌,
}
use laser_control.Common.Int.{ℤ, wrap_i16}
use laser_control.Effects.{
  ◌>>=◌, ◌>>◌, pure, gets, lift, modify, throw, throw_if, when, io_exception, runtime_error,
}
use laser_control.Std.Strings.{at, substr}
use laser_control.Std.Numbers.{show, show_ℤ, stol, stoi}
use laser_control.Std.Maps.{number_i16}
use laser_control.Serial.{Serial}
use laser_control.Util.Tokens.{tokenize_string}
use laser_control.Util.Trim.{trim}
use laser_control.PowerMeter.{Act, ask, send_cmd}

module _ ⦃sp : Serial⦄ where
  unfoldable pub set_range : ℤ → Act Bool
  set_range range = do
    rr ← ask (codes "WN " ++ show_ℤ range) "Failed to set range"
    if length rr == 0 then pure false else (do c ← lift (at rr 0); pure (c == b'*'))

  unfoldable pub get_range_fast : Act ℤ
  get_range_fast = gets (λ m. m.range)

  -- The command is sent twice, and both answers are collected in `rr`.
  unfoldable pub write_range : ℤ → Act Bool
  write_range range = do
    first ← send_cmd (codes "WN " ++ show_ℤ range) [] true
    got ← send_cmd (codes "WN " ++ show_ℤ range) first.1 true
    throw_if (not got.0) (io_exception "Failed to write range")
    c ← lift (at got.1 0)
    pure (c == b'*')

  unfoldable pub get_range : Act ℤ
  get_range = do
    rr ← ask (codes "RN") "Failed to query range"
    text ← lift (substr rr 1)
    lift (stoi text)

  unfoldable pub get_all_ranges : Act ℤ
  get_all_ranges = do
    resp ← ask (codes "AR") "Failed to query all ranges"
    rest ← lift (substr resp 1)
    let tokens = tokenize_string (trim rest) (codes " ")
    first ← lift (at tokens 0)
    current ← lift (stol first)
    modify (λ m. record m { ranges = number_i16 0 (drop 1 tokens) [] })
    pure (wrap_i16 current)

  -- `get_all_wavelengths(uint16_t &)`.
  unfoldable pub get_all_wavelengths_u16 : Act ⊤
  get_all_wavelengths_u16 = throw (runtime_error "Not implemented")

  -- `get_all_wavelengths(std::string &)` for the text that `answer` holds before.
  unfoldable pub get_all_wavelengths : Bytes → Act Bytes
  get_all_wavelengths answer = do
    got ← send_cmd (codes "AW") answer true
    throw_if (not got.0) (io_exception "Failed to query all wavelengths")
    lift (substr got.1 1)

  unfoldable pub wavelength_index : ℕ → Act Bool
  wavelength_index index = do
    rr ← ask (codes "WI " ++ show index) "Failed to set wavelength index"
    c ← lift (at rr 0)
    pure (c == b'*')

  unfoldable pub wavelength : ℕ → Act Bool
  wavelength wl = do
    rr ← ask (codes "WL " ++ show wl) "Failed to set wavelength"
    c ← lift (at rr 0)
    pure (c == b'*')

  -- The `uint32_t` is converted to `uint16_t` for the command and for the field.
  unfoldable pub set_wavelength : ℕ → Act ⊤
  set_wavelength wl = do
    r ← wavelength (wl % 2 ^ 16)
    when r (modify (λ m. record m { wavelength = wl % 2 ^ 16 }))

  unfoldable pub get_wavelength : Act ℕ
  get_wavelength = gets (λ m. m.wavelength)
