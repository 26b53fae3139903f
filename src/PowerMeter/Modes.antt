-- ===== src/PowerMeter/Modes.antt =====
-- Measurement modes of the power meter: averages, pulse lengths, filters and the mains frequency.
use laser_control.Common.{
  ℕ, ⊤, Bool, true, not, ◌%◌, ◌^◌, ◌++◌, ◌==◌, Bytes, codes, List, [], ◌∷◌, none, some, drop,
  length, if◌then◌else◌,
}
use laser_control.Common.Int.{ℤ, pos, to_unsigned}
use laser_control.Effects.{Result, err, out_of_range, ◌>>=◌, ◌>>◌, pure, gets, lift, modify, when}
use laser_control.Std.Strings.{at, substr, substr_count, find}
use laser_control.Std.Numbers.{show, stoul, stol, stoi}
use laser_control.Std.Maps.{number_u16}
use laser_control.Serial.{Serial}
use laser_control.Util.Tokens.{tokenize_string}
use laser_control.Util.Trim.{trim}
use laser_control.PowerMeter.{Act, ask, send_cmd}

-- `resp.substr(resp.find(text))`: the position `npos` is out of range.
unfoldable pub from_text : Bytes → Bytes → Result Bytes
from_text text resp = elim (find text resp) [ some p ↦ substr resp p | none ↦ err out_of_range ]

-- The trimmed tokens that are not empty.
unfoldable pub non_empty : List Bytes → List Bytes
non_empty [] = []
non_empty (t ∷ ts) = let rest = non_empty ts in if length (trim t) == 0 then rest else trim t ∷ rest

module _ ⦃sp : Serial⦄ where
  -- `average_query`; the version on `AQSetting` converts to and from the numbers.
  unfoldable pub average_query : ℕ → Act ℕ
  average_query q = do
    resp ← ask (codes "AQ " ++ show q) "Failed to query average"
    text ← lift (substr_count resp 2 1)
    a ← lift (stoul text)
    windows ← gets (λ m. m.ave_windows)
    when (length windows == 0) do
      names ← lift (from_text (codes "NONE") resp)
      let tokens = non_empty (tokenize_string names (codes " "))
      modify (λ m. record m { ave_windows = number_u16 1 tokens m.ave_windows })
    pure (a % 2 ^ 16)

  -- The number in the third byte.
  unfoldable pub third_byte : Bytes → Act ℤ
  third_byte resp = do text ← lift (substr_count resp 2 1); lift (stol text)

  unfoldable pub bc20_sensor_mode : ℕ → Act ℤ
  bc20_sensor_mode query = do
    resp ← ask (codes "BQ " ++ show query) "Failed to query b20 sensor mode"
    third_byte resp

  -- 3 is `dNA`.
  unfoldable pub filter_setting : Bytes → Act ℤ
  filter_setting resp = elim (find (codes "N/A") resp) [
    | some p ↦ pure (pos 3)
    | none ↦ third_byte resp
  ]

  unfoldable pub diffuser_query : ℕ → Act ℤ
  diffuser_query s = do
    resp ← ask (codes "DQ " ++ show s) "Failed to query diffuser"
    filter_setting resp

  unfoldable pub filter_query : ℕ → Act ℤ
  filter_query s = do
    resp ← ask (codes "FQ " ++ show s) "Failed to query filter info"
    filter_setting resp

  unfoldable pub force_energy : Act Bool
  force_energy = do
    resp ← ask (codes "FE") "Failed to force energy"
    c ← lift (at resp 0)
    pure (not (c == b'?'))

  -- The result of `send_cmd` is not looked at.
  unfoldable pub force_power : Act Bool
  force_power = do
    got ← send_cmd (codes "FP") [] true
    c ← lift (at got.1 0)
    pure (not (c == b'?'))

  unfoldable pub force_exposure : Act Bool
  force_exposure = do
    resp ← ask (codes "FX") "Failed to force exposure"
    c ← lift (at resp 0)
    pure (not (c == b'?'))

  -- `mains_frequency`; the version on `MainsFreq` converts to and from the numbers.
  unfoldable pub mains_frequency : ℕ → Act ℕ
  mains_frequency q = do
    resp ← ask (codes "MA " ++ show q) "Failed to send mains frequency"
    text ← lift (substr_count resp 2 1)
    a ← lift (stoul text)
    pure (a % 2 ^ 16)

  -- `measurement_mode` with 0: the setting in use.
  unfoldable pub current_mode : Act ℕ
  current_mode = do
    resp ← ask (codes "MM " ++ show 0) "Failed to set measurement mode"
    text ← lift (substr (trim resp) 1)
    a ← lift (stoi text)
    pure (to_unsigned (2 ^ 16) a)

  -- `measurement_mode` with another setting, which on a failure calls itself with 0.
  unfoldable pub new_mode : ℕ → Act ℕ
  new_mode q = do
    resp ← ask (codes "MM " ++ show q) "Failed to set measurement mode"
    c ← lift (at (trim resp) 0)
    if c == b'*' then pure q else current_mode

  -- The version on `MeasurementMode` converts to and from the numbers.
  unfoldable pub measurement_mode : ℕ → Act ℕ
  measurement_mode q = if q == 0 then current_mode else new_mode q

  unfoldable pub pulse_length : ℕ → Act ℕ
  pulse_length value = do
    resp ← ask (codes "PL " ++ show value) "Failed to set pulse length"
    if value == 0
        then (do
          text ← lift (substr_count resp 1 1)
          answer ← lift (stoul text)
          lengths ← gets (λ m. m.pulse_lengths)
          when (length lengths == 0) do
            rest ← lift (substr resp 2)
            let tokens = tokenize_string (trim rest) (codes " ")
            modify (λ m. record m { pulse_lengths = number_u16 1 tokens m.pulse_lengths })
          pure (answer % 2 ^ 16))
        else (do
          c ← lift (at resp 0)
          if c == b'*' then pure value else (do
            text ← lift (substr_count resp 1 1)
            answer ← lift (stoul text)
            pure (answer % 2 ^ 16)))

  -- Not implemented by the instrument.
  unfoldable pub trigger_window : ℕ → Act ℕ
  trigger_window value = pure 0

  -- The counter is a `size_t`, converted to the key's `uint16_t`.
  unfoldable pub init_pulse_lengths : Act ⊤
  init_pulse_lengths = do
    modify (λ m. record m { pulse_lengths = [] })
    resp ← ask (codes "MM 0") "Failed to query pulse lengths"
    let tokens = drop 1 (tokenize_string resp (codes " "))
    modify (λ m. record m { pulse_lengths = number_u16 1 tokens m.pulse_lengths })
