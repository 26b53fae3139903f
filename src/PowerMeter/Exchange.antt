-- ===== src/PowerMeter/Exchange.antt =====
-- What the calls of the power meter return and store for answers of a given form.
use laser_control.Common.{
  ℕ, ◌%◌, ◌^◌, ◌<◌, ◌≡◌, inl, [], ◌∷◌, ◌++◌, ◌==◌, arith, Bytes, codes, if◌then◌else◌,
}
use laser_control.Effects.{ok, ◌>>=◌}
use laser_control.Std.Strings.{at, substr}
use laser_control.Std.Numbers.{show}
use laser_control.Std.Numbers.RoundTrip.{stoul-show_all}
use laser_control.Util.Tokens.{tokenize_string}
use laser_control.Util.Tokens.RoundTrip.{line_of, tokenize_string-line_of}
use laser_control.Util.Tokens.Numbers.{find-show}
use laser_control.Serial.{Serial}
use laser_control.PowerMeter.{PowerMeter, ask}
use laser_control.PowerMeter.Threshold

threshold_tokens :
    (current low high : ℕ)
    → tokenize_string (line_of b' ' (show current ∷ show low ∷ show high ∷ [])) (codes " ")
      ≡ show current ∷ show low ∷ show high ∷ []
threshold_tokens current low high =
    tokenize_string-line_of b' ' (show current) (show low ∷ show high ∷ []) (
      find-show b' ' current (inl (omega arith)),
      (find-show b' ' low (inl (omega arith)), (find-show b' ' high (inl (omega arith)), tt)),
    )

-- A mark, the setting and its range.
abbrev pub threshold_line : ℕ → ℕ → ℕ → Bytes
threshold_line current low high = b'*' ∷ line_of b' ' (show current ∷ show low ∷ show high ∷ [])

module _ ⦃sp : Serial⦄ where
  -- The answer `*current min max` of numbers below 2 ^ 64 is read in 16 bits each: they are stored,
  -- and they are returned.
  pub query_user_threshold_reply :
      (current low high : ℕ) (m m' : PowerMeter sp.Port)
      → ask (codes "UT") "Failed to query user threshold" m
        ≡ (ok (threshold_line current low high), m')
      → current < 2 ^ 64
      → low < 2 ^ 64
      → high < 2 ^ 64
      → Threshold.query_user_threshold m ≡ (
        ok (current % 2 ^ 16, low % 2 ^ 16, high % 2 ^ 16),
        record m' {
          e_threshold = current % 2 ^ 16;
          threshold_ranges = (low % 2 ^ 16, high % 2 ^ 16);
        },
      )
  unfolding Threshold.query_user_threshold Threshold.field Threshold.store_low Threshold.store_high
      at substr ◌>>=◌
  query_user_threshold_reply current low high m m' e hc hl hh = ground (
    arith,
    e,
    threshold_tokens current low high,
    stoul-show_all current hc,
    stoul-show_all low hl,
    stoul-show_all high hh,
  )

  -- An accepted threshold is cached in 16 bits and returned; the answer's range is stored only while
  -- the one in the cache still has its initial upper bound.
  pub user_threshold_accepted :
      (value answer current low high : ℕ) (m m' : PowerMeter sp.Port)
      → ask (codes "UT " ++ show value) "Failed to query user threshold" m
        ≡ (ok (threshold_line current low high), m')
      → current < 2 ^ 64
      → low < 2 ^ 64
      → high < 2 ^ 64
      → Threshold.user_threshold value answer m ≡ (
        ok (current % 2 ^ 16),
        record m' {
          e_threshold = current % 2 ^ 16;
          threshold_ranges =
              if m'.threshold_ranges.1 == 0xffff
              then (low % 2 ^ 16, high % 2 ^ 16)
              else m'.threshold_ranges;
        },
      )
  unfolding Threshold.user_threshold Threshold.store_threshold Threshold.field Threshold.store_low
      Threshold.store_high at substr ◌>>=◌
  user_threshold_accepted value answer current low high m m' e hc hl hh = ground (
    arith,
    e,
    threshold_tokens current low high,
    stoul-show_all current hc,
    stoul-show_all low hl,
    stoul-show_all high hh,
  )
