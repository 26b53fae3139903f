-- ===== src/PowerMeter/Lengths.antt =====
-- What the query of the pulse lengths stores.
use laser_control.Common.{
  ℕ, ◌+◌, ◌-◌, ◌^◌, ◌<◌, ◌≡◌, List, [], ◌∷◌, ◌++◌, arith, ◌==◌, if◌then◌else◌, Bytes, codes, length,
}
use laser_control.Effects.{ok, ◌>>=◌}
use laser_control.Std.Strings.{substr, substr_count}
use laser_control.Std.Numbers.{show, stoul}
use laser_control.Std.Numbers.RoundTrip.{stoul-show_all}
use laser_control.Std.Numbers.Width.{show_digit}
use laser_control.Std.Maps.Numbered.{numbered, number_u16-numbered}
use laser_control.Util.Trim.{trim}
use laser_control.Util.Tokens.{AllLack}
use laser_control.Util.Tokens.RoundTrip.{line_of, tokenize_string-line_of}
use laser_control.Serial.{Serial}
use laser_control.PowerMeter.{PowerMeter, ask}
use laser_control.PowerMeter.Modes.{pulse_length}

-- A list of length 0 is empty.
nothing : {A : Type 0} (l : List A) → length l ≡ 0 → l ≡ []
nothing [] h = λ i. []
nothing (x ∷ l) h = absurd (omega arith)

module _ ⦃sp : Serial⦄ where
  -- Where the query is accepted and its answer is a mark, the setting in one digit, and names
  -- without spaces between single spaces, with whitespace at the ends, so many that their numbers
  -- have 16 bits: the setting is returned; a map that was empty then holds the names under 1, 2, and
  -- so on, and a map that was not is left as it was.
  pub pulse_length_reply :
      (d : ℕ) (rest t : Bytes) (ts : List Bytes) (m m' : PowerMeter sp.Port)
      → ask (codes "PL " ++ show 0) "Failed to set pulse length" m
        ≡ (ok (b'*' ∷ (b'0' + d) ∷ rest), m')
      → d < 10
      → trim rest ≡ line_of b' ' (t ∷ ts)
      → AllLack (codes " ") (t ∷ ts)
      → length (t ∷ ts) < 2 ^ 16 - 1
      → pulse_length 0 m ≡ (
        ok d,
        record m' {
          pulse_lengths =
              if length m'.pulse_lengths == 0 then numbered 1 (t ∷ ts) else m'.pulse_lengths;
        },
      )
  unfolding pulse_length substr substr_count ◌>>=◌
  pulse_length_reply d rest t ts m m' e small trimmed lacks few =
      let number : stoul ((b'0' + d) ∷ []) ≡ ok d =
        rw (show_digit d small) at (stoul-show_all d (omega arith)) in
      ground (
        arith,
        nothing m'.pulse_lengths,
        e,
        number,
        trimmed,
        tokenize_string-line_of b' ' t ts lacks,
        number_u16-numbered 1 (t ∷ ts) (omega arith),
      )
