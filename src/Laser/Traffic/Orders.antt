-- ===== src/Laser/Traffic/Orders.antt =====
-- How each message of the laser is read.
use laser_control.Common.{ℕ, ◌<◌, ◌≡◌, refl, some, ◌++◌, Bytes, codes, arith}
use laser_control.Std.Strings.{starts_with}
use laser_control.Std.Numbers.{show, show_width3}
use laser_control.Std.Numbers.Width.{show_width3_lem}
use laser_control.Laser.Enums.{
  Shutter, open_shutter, closed, Fire, start, stop, shutter_code, fire_code, is_start,
}
use laser_control.Laser.Traffic.{Told, decimal, tell}

pub tell-fire :
    (s : Fire) (t : Told)
    → tell ((codes "ST " ++ show (fire_code s)) ++ codes "\r") t
      ≡ record t { lamp = some (is_start s) }
unfolding tell decimal starts_with show
tell-fire start t = refl
tell-fire stop t = refl

pub tell-shutter :
    (s : Shutter) (t : Told) → tell ((codes "SH " ++ show (shutter_code s)) ++ codes "\r") t ≡ t
unfolding tell starts_with show
tell-shutter open_shutter t = refl
tell-shutter closed t = refl

decimal-show_width3 : (n : ℕ) → n < 1000 → decimal 0 (show_width3 n ++ codes "\r") ≡ n
unfolding decimal
decimal-show_width3 n h = rw (show_width3_lem n h) (ground arith)

pub tell-prescale :
    (n : ℕ) (t : Told)
    → n < 1000
    → tell ((codes "PD " ++ show_width3 n) ++ codes "\r") t ≡ record t { division = some n }
unfolding tell starts_with
tell-prescale n t h = rw (decimal-show_width3 n h) refl

pub tell-qswitch :
    (n : ℕ) (t : Told)
    → n < 1000
    → tell ((codes "QS " ++ show_width3 n) ++ codes "\r") t ≡ record t { delay = some n }
unfolding tell starts_with
tell-qswitch n t h = rw (decimal-show_width3 n h) refl

pub tell-voltage :
    (s : Bytes) (t : Told)
    → tell ((codes "VA " ++ s) ++ codes "\r") t ≡ record t { voltage = some (s ++ codes "\r") }
unfolding tell starts_with
tell-voltage s t = refl

pub tell-rate :
    (s : Bytes) (t : Told)
    → tell ((codes "RR " ++ s) ++ codes "\r") t ≡ record t { rate = some (s ++ codes "\r") }
unfolding tell starts_with
tell-rate s t = refl

-- The three messages that order nothing of this.
pub tell-quiet :
    (t : Told)
    → (tell (codes "SS\r") t ≡ t) × (tell (codes "SE\r") t ≡ t) × (tell (codes "SC\r") t ≡ t)
unfolding tell starts_with
tell-quiet t = (refl, refl, refl)
