-- ===== src/PowerMeter/Threshold.antt =====
-- The thresholds of the power meter.
use laser_control.Common.{ℕ, ⊤, ◌%◌, ◌^◌, ◌++◌, ◌==◌, Bytes, codes, List, length, if◌then◌else◌}
use laser_control.Effects.{◌>>=◌, ◌>>◌, pure, gets, lift, modify, when}
use laser_control.Std.Strings.{at, substr, substr_count}
use laser_control.Std.Numbers.{show, stoul}
use laser_control.Serial.{Serial}
use laser_control.Util.Tokens.{tokenize_string}
use laser_control.PowerMeter.{Act, ask}

module _ ⦃sp : Serial⦄ where
  unfoldable pub get_e_threshold : Act ℕ
  get_e_threshold = gets (λ m. m.e_threshold)

  unfoldable pub energy_threshold : ℕ → Act ℕ
  energy_threshold et = do
    resp ← ask (codes "ET " ++ show et) "Failed to query energy threshold"
    text ← lift (substr_count resp 1 1)
    answer ← lift (stoul text)
    modify (λ m. record m { e_threshold = answer % 2 ^ 16 })
    pure (answer % 2 ^ 32)

  -- `std::stoul(tokens.at(i))`, before the mask 0xFFFF.
  unfoldable pub field : List Bytes → ℕ → Act ℕ
  field tokens i = do t ← lift (at tokens i); lift (stoul t)

  unfoldable pub store_low : ℕ → Act ⊤
  store_low v = modify (λ m. record m { threshold_ranges = (v % 2 ^ 16, m.threshold_ranges.1) })

  unfoldable pub store_high : ℕ → Act ⊤
  store_high v = modify (λ m. record m { threshold_ranges = (m.threshold_ranges.0, v % 2 ^ 16) })

  unfoldable pub query_user_threshold : Act (ℕ × ℕ × ℕ)
  query_user_threshold = do
    rr ← ask (codes "UT") "Failed to query user threshold"
    text ← lift (substr rr 1)
    let tokens = tokenize_string text (codes " ")
    current ← field tokens 0
    modify (λ m. record m { e_threshold = current % 2 ^ 16 })
    low ← field tokens 1
    store_low low
    high ← field tokens 2
    store_high high
    pure (current % 2 ^ 16, low % 2 ^ 16, high % 2 ^ 16)

  -- The usual answer: the setting, and the range if it has not been set yet.
  unfoldable pub store_threshold : List Bytes → Act ℕ
  store_threshold tokens = do
    answer ← field tokens 0
    modify (λ m. record m { e_threshold = answer % 2 ^ 16 })
    high_before ← gets (λ m. m.threshold_ranges.1)
    when (high_before == 0xffff)
        do low ← field tokens 1; store_low low; high ← field tokens 2; store_high high
    pure (answer % 2 ^ 16)

  -- `answer` is what the reference argument holds before: an answer of the instrument that starts
  -- with neither mark leaves it.
  unfoldable pub user_threshold : ℕ → ℕ → Act ℕ
  user_threshold value answer = do
    rr ← ask (codes "UT " ++ show value) "Failed to query user threshold"
    c ← lift (at rr 0)
    if c == b'?'
        then gets (λ m. m.e_threshold)
        else if c == b'*'
        then (do
          text ← lift (substr rr 1)
          let tokens = tokenize_string text (codes " ")
          if length tokens == 3
              then store_threshold tokens
              else (do all ← query_user_threshold; pure all.0))
        else pure answer
