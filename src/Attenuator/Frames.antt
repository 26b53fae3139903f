-- ===== src/Attenuator/Frames.antt =====
-- The messages that the attenuator sends, described by their bytes, within limits on their numbers.
use laser_control.Common.{
  ℕ, ◌<◌, ◌≤◌, ◌^◌, ◌≡◌, ◌≢◌, ◌⊎◌, List, [], ◌∷◌, ◌++◌, Bytes, codes, some, get_elem?, length,
}
use laser_control.Common.Int.{ℤ, IsI32, neg_part, pos_part}
use laser_control.Std.Numbers.{show, show_ℤ}

-- The commands without an argument.
abbrev pub bare : List Bytes
bare =
    codes "o"
    ∷ codes "p"
    ∷ codes "pc"
    ∷ codes "n"
    ∷ codes "st"
    ∷ codes "b"
    ∷ codes "h"
    ∷ codes "zp"
    ∷ codes "ss"
    ∷ codes "j"
    ∷ []

-- Those with a number of steps, and those with a byte.
abbrev pub moving : List Bytes
moving = codes "m " ∷ codes "g " ∷ codes "i " ∷ []

abbrev pub tuning : List Bytes
tuning = codes "ws " ∷ codes "wm " ∷ codes "a " ∷ codes "d " ∷ []

-- The steps, resolutions and speeds that calls may ask for.
pub record Limits : Type 1 where
  pub steps : ℤ → Type 0
  pub resolution : ℕ → Type 0
  pub speed : ℕ → Type 0

module _ ⦃lim : Limits⦄ where
  pub data IsFrame (msg : Bytes) : Type 0 where
    request :
        (word : Bytes) (i : ℕ)
        → get_elem? bare i ≡ some word
        → msg ≡ word ++ codes "\r"
        → IsFrame msg
    steps :
        (word : Bytes) (z : ℤ) (i : ℕ)
        → get_elem? moving i ≡ some word
        → lim.steps z
        → msg ≡ (word ++ show_ℤ z) ++ codes "\r"
        → IsFrame msg
    byte :
        (word : Bytes) (n : ℕ) (i : ℕ)
        → get_elem? tuning i ≡ some word
        → n < 2 ^ 8
        → msg ≡ (word ++ show n) ++ codes "\r"
        → IsFrame msg
    resolution :
        (n : ℕ)
        → lim.resolution n
        → n ≢ 16
        → msg ≡ (codes "r " ++ show n) ++ codes "\r"
        → IsFrame msg
    -- the resolution 16 is written as 6
    sixteenths : lim.resolution 16 → msg ≡ codes "r 6\r" → IsFrame msg
    speed : (n : ℕ) → lim.speed n → msg ≡ (codes "s " ++ show n) ++ codes "\r" → IsFrame msg
    name : (sn : Bytes) → length sn ≡ 20 → msg ≡ (codes "sn " ++ sn) ++ codes "\r" → IsFrame msg

-- include/Attenuator.hh: steps in [-2147483646, 2147483646], the speed in [0, 65000], and the
-- resolutions 1, 2, 3, 4, 6, 8 and 16, the last of them written as 6.
instance abbrev pub documented : Limits
documented = record {
  steps = λ z. (neg_part z ≤ 2147483646) × (pos_part z ≤ 2147483646);
  resolution = λ n. (1 ≤ n) × ((n ≤ 4) ⊎ ((n ≡ 6) ⊎ ((n ≡ 8) ⊎ (n ≡ 16))));
  speed = λ n. n ≤ 65000;
}

-- Nothing but the types of the parameters: `int32_t`, `uint16_t` and `uint32_t`.
instance abbrev pub widths : Limits
widths = record { steps = IsI32; resolution = λ n. n < 2 ^ 16; speed = λ n. n < 2 ^ 32 }
