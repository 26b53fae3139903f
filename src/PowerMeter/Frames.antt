-- ===== src/PowerMeter/Frames.antt =====
-- The messages that the power meter sends, described by their bytes.
use laser_control.Common.{
  ℕ, ◌<◌, ◌^◌, ◌≡◌, Bool, true, false, ◌&&◌, ◌||◌, ◌==◌, List, [], ◌∷◌, ◌++◌, Bytes, codes,
}
use laser_control.Common.Int.{ℤ, IsI16}
use laser_control.Std.Numbers.{show, show_ℤ}

-- The commands without an argument, and those with a 16-bit number.
abbrev requests : List Bytes
requests =
    codes "AF"
    ∷ codes "AR"
    ∷ codes "AW"
    ∷ codes "EE"
    ∷ codes "EF"
    ∷ codes "ER"
    ∷ codes "FE"
    ∷ codes "FP"
    ∷ codes "FX"
    ∷ codes "HI"
    ∷ codes "HT"
    ∷ codes "IC"
    ∷ codes "II"
    ∷ codes "MF"
    ∷ codes "RE"
    ∷ codes "RN"
    ∷ codes "SE"
    ∷ codes "SF"
    ∷ codes "SG"
    ∷ codes "SI"
    ∷ codes "SP"
    ∷ codes "SX"
    ∷ codes "UT"
    ∷ codes "VE"
    ∷ []

abbrev settings : List Bytes
settings =
    codes "AQ"
    ∷ codes "BQ"
    ∷ codes "DQ"
    ∷ codes "FQ"
    ∷ codes "MA"
    ∷ codes "MM"
    ∷ codes "PL"
    ∷ codes "UT"
    ∷ codes "WI"
    ∷ codes "WL"
    ∷ []

-- Whether the two letters are a word of the list.
abbrev pub in_words : List Bytes → ℕ → ℕ → Bool
in_words ((x ∷ y ∷ []) ∷ ws) a b = ((x == a) && (y == b)) || in_words ws a b
in_words ws a b = false

pub data IsCommand : Bytes → Type 0 where
  request : (a b : ℕ) → in_words requests a b ≡ true → IsCommand (a ∷ b ∷ [])
  setting :
      (a b n : ℕ) → in_words settings a b ≡ true → n < 2 ^ 16 → IsCommand (a ∷ b ∷ b' ' ∷ show n)
  -- the energy threshold has 32 bits
  energy_threshold : (n : ℕ) → n < 2 ^ 32 → IsCommand (codes "ET " ++ show n)
  range : (z : ℤ) → IsI16 z → IsCommand (codes "WN " ++ show_ℤ z)

-- A dollar sign, the command and the end of the line.
pub data IsFrame (msg : Bytes) : Type 0 where
  command : (cmd : Bytes) → IsCommand cmd → msg ≡ b'$' ∷ (cmd ++ codes "\r\n") → IsFrame msg
