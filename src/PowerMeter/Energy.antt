-- ===== src/PowerMeter/Energy.antt =====
-- Readings of the power meter: energies, powers, averages and the flags that announce them.
use laser_control.Common.{
  ℕ, Bool, not, ◌%◌, ◌^◌, ◌==◌, length, Bytes, codes, Option, none, some, ltb, if◌then◌else◌,
}
use laser_control.Common.Int.{pos, is_zero}
use laser_control.Effects.{◌>>=◌, pure, gets, lift}
use laser_control.Std.Strings.{at, substr, substr_count, size_sub, bytes_eq}
use laser_control.Std.Numbers.{stoul, stol}
use laser_control.Std.Floating.{Floating}
use laser_control.Std.Maps.{map_at}
use laser_control.Serial.{Serial}
use laser_control.Util.Tokens.{tokenize_string}
use laser_control.PowerMeter.{Act, ask}

module _ ⦃sp : Serial⦄ where
  -- On the two bytes of `*0`, `resp.size() - 3` wraps around, and nothing is cut off the end.
  unfoldable pub get_average_flag : Act Bool
  get_average_flag = do
    resp ← ask (codes "AF") "Failed to query average flag"
    text ← lift (substr_count resp 1 (size_sub (length resp) 3))
    flag ← lift (stol text)
    pure (not (is_zero flag))

  -- The test of the size has no effect, since `new_val` is assigned again.
  unfoldable pub energy_flag : Act Bool
  energy_flag = do
    resp ← ask (codes "EF") "Failed to query energy flag"
    text ← lift (substr resp 1)
    flag ← lift (stol text)
    pure (not (is_zero flag))

  unfoldable pub energy_ready : Act Bool
  energy_ready = do
    resp ← ask (codes "ER") "Failed to query energy ready"
    text ← lift (substr resp 1)
    flag ← lift (stol text)
    pure (not (is_zero flag))

  unfoldable pub max_freq : Act ℕ
  max_freq = do
    rr ← ask (codes "MF") "Failed to send max frequency"
    text ← lift (substr rr 1)
    value ← lift (stoul text)
    pure (value % 2 ^ 32)

  unfoldable pub send_units : Act ℕ
  send_units = do rr ← ask (codes "SI") "Failed to query units"; lift (at rr 1)

  unfoldable pub send_units_long : Act Bytes
  send_units_long = do
    u ← send_units
    table ← gets (λ m. m.measurement_units)
    lift (map_at ltb table u)

  module _ ⦃fl : Floating⦄ where
    open fl use {Double, literal, stod}

    -- The answer without its first byte, as a number.
    abbrev number_after : Bytes → Act Double
    number_after rr = do text ← lift (substr rr 1); lift (stod text)

    unfoldable pub send_energy : Act Double
    send_energy = do rr ← ask (codes "SE") "Failed to query energy"; number_after rr

    unfoldable pub get_energy : Act Double
    get_energy = send_energy

    -- `none` where `energy` is left as it was and `false` is returned.
    unfoldable pub read_energy : Act (Option Double)
    read_energy = do
      status ← energy_flag
      if status then (do energy ← send_energy; pure (some energy)) else pure none

    unfoldable pub send_average : Act Double
    send_average = do rr ← ask (codes "SG") "Failed to query average"; number_after rr

    unfoldable pub read_average : Act (Option Double)
    read_average = do
      st ← get_average_flag
      if st then (do value ← send_average; pure (some value)) else pure none

    unfoldable pub send_frequency : Act Double
    send_frequency = do
      rr ← ask (codes "SF") "Failed to query frequency"
      c ← lift (at rr 0)
      if c == b'?' then pure (literal (pos 0) 1) else number_after rr

    unfoldable pub send_power : Act Double
    send_power = do rr ← ask (codes "SP") "Failed to query power "; number_after rr

    unfoldable pub send_max : Act Double
    send_max = do
      rr ← ask (codes "SX") "Failed to query max"
      text ← lift (substr rr 1)
      if bytes_eq text (codes "AUTO") then pure (literal (pos 0) 1) else lift (stod text)

    -- Energy, pulses and elapsed time.
    unfoldable pub exposure_energy : Act (Double × ℕ × ℕ)
    exposure_energy = do
      resp ← ask (codes "EE") "Failed to query exposure energy"
      c ← lift (at resp 0)
      if c == b'*'
          then (do
            let tokens = tokenize_string resp (codes " ")
            t1 ← lift (at tokens 1)
            energy ← lift (stod t1)
            t2 ← lift (at tokens 2)
            pulses ← lift (stoul t2)
            t3 ← lift (at tokens 3)
            et ← lift (stoul t3)
            pure (energy, pulses % 2 ^ 32, et % 2 ^ 32))
          else pure (literal (pos 0) 1, 0, 0)
