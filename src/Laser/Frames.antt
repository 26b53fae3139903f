-- ===== src/Laser/Frames.antt =====
-- The messages that the laser sends, described by their bytes, and the forms of their numbers.
use laser_control.Common.{ℕ, ◌+◌, ◌*◌, ◌<◌, ◌≤◌, ◌≡◌, false, [], ◌∷◌, ◌++◌, Bytes, codes}
use laser_control.Std.Floating.{Floating}
use laser_control.Laser.{voltage_out_of_range}

-- X.XX, of at most 1.30.
pub data IsVoltage (text : Bytes) : Type 0 where
  volts :
      (a b c : ℕ)
      → b < 10
      → c < 10
      → a * 100 + b * 10 + c ≤ 130
      → text ≡ (b'0' + a) ∷ b'.' ∷ (b'0' + b) ∷ (b'0' + c) ∷ []
      → IsVoltage text

-- XX.X
pub data IsRate (text : Bytes) : Type 0 where
  hertz :
      (a b c : ℕ)
      → a < 10
      → b < 10
      → c < 10
      → text ≡ (b'0' + a) ∷ (b'0' + b) ∷ b'.' ∷ (b'0' + c) ∷ []
      → IsRate text

module _ ⦃fl : Floating⦄ where
  open fl use {Float, show_fixed}

  -- The voltages and rates that a message may carry.
  pub record Forms : Type 1 where
    pub voltage : Float → Type 0
    pub rate : Float → Type 0

module _ ⦃fl : Floating⦄ ⦃fm : Forms⦄ where
  open fl use {Float, show_fixed}

  -- A shutter or lamp switch, a pulse division of at most 99 and a Q-switch delay, both of three
  -- digits, a pump voltage and a rate, and the three commands without an argument.
  pub data IsFrame (msg : Bytes) : Type 0 where
    switch_shutter : (b : ℕ) → b < 2 → msg ≡ codes "SH " ++ ((b'0' + b) ∷ codes "\r") → IsFrame msg
    switch_fire : (b : ℕ) → b < 2 → msg ≡ codes "ST " ++ ((b'0' + b) ∷ codes "\r") → IsFrame msg
    pulse_division :
        (a b : ℕ)
        → a < 10
        → b < 10
        → msg ≡ codes "PD 0" ++ ((b'0' + a) ∷ (b'0' + b) ∷ codes "\r")
        → IsFrame msg
    qswitch_delay :
        (a b c : ℕ)
        → a < 10
        → b < 10
        → c < 10
        → msg ≡ codes "QS " ++ ((b'0' + a) ∷ (b'0' + b) ∷ (b'0' + c) ∷ codes "\r")
        → IsFrame msg
    pump_voltage :
        (hv : Float)
        → fm.voltage hv
        → msg ≡ codes "VA " ++ (show_fixed 2 hv ++ codes "\r")
        → IsFrame msg
    repetition_rate :
        (r : Float) → fm.rate r → msg ≡ codes "RR " ++ (show_fixed 1 r ++ codes "\r") → IsFrame msg
    single_shot : msg ≡ codes "SS\r" → IsFrame msg
    shot_count : msg ≡ codes "SC\r" → IsFrame msg
    security_status : msg ≡ codes "SE\r" → IsFrame msg

module _ ⦃fl : Floating⦄ where
  open fl use {Float, show_fixed}

  -- The forms that include/Laser.hh gives.
  instance abbrev pub documented : Forms
  documented = record {
    voltage = λ hv. IsVoltage (show_fixed 2 hv);
    rate = λ r. IsRate (show_fixed 1 r);
  }

  -- Whatever voltage set_pump_voltage lets through, and no rate.
  instance abbrev pub unrated : Forms
  unrated = record { voltage = λ hv. voltage_out_of_range hv ≡ false; rate = λ r. ⊥ }
