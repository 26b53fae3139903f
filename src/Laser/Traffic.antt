-- ===== src/Laser/Traffic.antt =====
-- What the messages to the laser say, read without the code that writes them: the settings that
-- were ordered last.
pub mod Orders
pub mod Calls
pub mod Queries
pub mod Runs
use laser_control.Common.{
  ℕ, Bool, ◌+◌, ◌*◌, ◌-◌, ◌≡◌, Option, none, some, List, [], ◌∷◌, ◌++◌, Bytes, codes, drop, ◌==◌,
  if◌then◌else◌,
}
use laser_control.Std.Strings.{starts_with}
use laser_control.Std.Floating.{Floating}
use laser_control.Laser.Settings.{Settings}

-- Nothing where no message has set it.
pub record Told : Type 0 where
  pub lamp : Option Bool
  pub division : Option ℕ
  pub delay : Option ℕ
  pub voltage : Option Bytes
  pub rate : Option Bytes

-- The number that the digits up to the carriage return spell.
unfoldable pub decimal : ℕ → Bytes → ℕ
decimal acc [] = acc
decimal acc (c ∷ s) = let rest = decimal (acc * 10 + (c - b'0')) s in if c == 13 then acc else rest

-- A message, and what was told before.
unfoldable pub tell : Bytes → Told → Told
tell msg t =
    let arg = drop 3 msg in
    if starts_with (codes "ST ") msg
    then record t { lamp = some (decimal 0 arg == 1) }
    else if starts_with (codes "PD ") msg
    then record t { division = some (decimal 0 arg) }
    else if starts_with (codes "QS ") msg
    then record t { delay = some (decimal 0 arg) }
    else if starts_with (codes "VA ") msg
    then record t { voltage = some arg }
    else if starts_with (codes "RR ") msg
    then record t { rate = some arg }
    else t

-- The messages, the latest first.
unfoldable pub told : List Bytes → Told
told [] = record { lamp = none; division = none; delay = none; voltage = none; rate = none }
told (msg ∷ msgs) = tell msg (told msgs)

abbrev pub Fits : {A : Type 0} → Option A → A → Type 0
Fits none a = Unit
Fits (some b) a = b ≡ a

module _ ⦃fl : Floating⦄ where
  open fl use {Float, show_fixed}

  -- Whatever was ordered is what is cached.
  pub record Agrees (t : Told) (c : Settings Float) : Type 0 where
    pub lamp_agrees : Fits t.lamp c.is_firing
    pub division_agrees : Fits t.division c.prescale
    pub delay_agrees : Fits t.delay c.qswitch
    pub voltage_agrees : Fits t.voltage (show_fixed 2 c.pump_hv ++ codes "\r")
    pub rate_agrees : Fits t.rate (show_fixed 1 c.rate ++ codes "\r")
