-- ===== src/PowerMeter/Heads.antt =====
-- What `head_info` says of the sensor.
use laser_control.Common.{ℕ, true, ◌≡◌, ◌%◌, ◌^◌, ◌==◌, leb, arith, Bytes, codes, List, [], ◌∷◌}
use laser_control.Effects.{ok, ◌>>=◌}
use laser_control.Std.Strings.{at}
use laser_control.Std.Numbers.{stoul_base}
use laser_control.Util.Trim.{trim}
use laser_control.Util.Tokens.{AllLack}
use laser_control.Util.Tokens.RoundTrip.{line_of, tokenize_string-line_of}
use laser_control.Serial.{Serial}
use laser_control.PowerMeter.{PowerMeter, send_cmd}
use laser_control.PowerMeter.Info.{bit, head_info, head_info_raw}

-- The highest bit of a 32-bit word.
bit-leb : (w : ℕ) → bit (w % 2 ^ 32) 31 ≡ leb (2 ^ 31) (w % 2 ^ 32)
unfolding bit
bit-leb w = ground arith

bit-odd : (w : ℕ) → bit (w % 2 ^ 32) 0 ≡ (w % 2 == 1)
unfolding bit
bit-odd w = ground arith

module _ ⦃sp : Serial⦄ where
  -- Where the query is accepted and the trimmed answer is a mark, the type, the serial number, the
  -- name and a hexadecimal word, fields without spaces between single spaces, and perhaps more
  -- fields, head_info returns the three texts; the sensor is said to measure power just when the
  -- word is odd, energy just when the word is odd too, and frequency just when bit 31 of the word
  -- is set.
  pub head_info_reply :
      (answer mark type_name sn name word : Bytes) (more : List Bytes) (w : ℕ)
      (m m' : PowerMeter sp.Port)
      → send_cmd (codes "HI") [] true m ≡ (ok (true, answer), m')
      → trim answer ≡ line_of b' ' (mark ∷ type_name ∷ sn ∷ name ∷ word ∷ more)
      → AllLack (codes " ") (mark ∷ type_name ∷ sn ∷ name ∷ word ∷ more)
      → stoul_base 16 word ≡ ok w
      → head_info m ≡ (
        ok (record {
          type_name = type_name;
          sn = sn;
          name = name;
          power = w % 2 == 1;
          energy = w % 2 == 1;
          freq = leb (2 ^ 31) (w % 2 ^ 32);
        }),
        m',
      )
  unfolding head_info head_info_raw ◌>>=◌ at
  head_info_reply answer mark type_name sn name word more w m m' e trimmed lacks number = ground (
    arith,
    e,
    trimmed,
    tokenize_string-line_of b' ' mark (type_name ∷ sn ∷ name ∷ word ∷ more) lacks,
    number,
    bit-odd w,
    bit-leb w,
  )
