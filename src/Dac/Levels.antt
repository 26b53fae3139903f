-- ===== src/Dac/Levels.antt =====
-- The level of the converter in its two bytes.
use laser_control.Common.{ℕ, ◌/◌, ◌%◌, ◌^◌, ◌<◌, ◌≡◌, Bool, true, false, arith, if◌then◌else◌}
use laser_control.Dac.{Level, set_value, get_value}

-- Twelve bits of a value are stored and read back, in two bytes; bit 5 of the first says that the
-- converter is not cleared, and bit 4 is 0 whatever `load` says.
pub set_value_lem :
    (val : ℕ) (clear load : Bool) (l : Level)
    → (get_value (set_value val clear load l) ≡ val % 2 ^ 12)
      × ((set_value val clear load l).msb < 2 ^ 8)
      × ((set_value val clear load l).lsb < 2 ^ 8)
      × ((set_value val clear load l).msb / 2 ^ 5 % 2 ≡ (if clear then 0 else 1))
      × ((set_value val clear load l).msb / 2 ^ 4 % 2 ≡ 0)
unfolding set_value get_value
set_value_lem val true load l = ground arith
set_value_lem val false load l = ground arith
