-- ===== src/Laser/Enums.antt =====
-- The enumerations of the laser, and the table of its security codes.
use laser_control.Common.{ℕ, Bool, true, false, Bytes, codes, List, [], ◌∷◌}

pub data Shutter : Type 0 where
  open_shutter closed : Shutter

pub data Fire : Type 0 where
  start stop : Fire

abbrev pub shutter_code : Shutter → ℕ
shutter_code open_shutter = 1
shutter_code closed = 0

abbrev pub fire_code : Fire → ℕ
fire_code start = 1
fire_code stop = 0

-- `s == Start`.
abbrev pub is_start : Fire → Bool
is_start start = true
is_start stop = false

-- What the constructors put into `m_sec_map`.
unfoldable pub security_table : List (Bytes × Bytes)
security_table =
    (codes "00", codes "Normal")
    ∷ (codes "01", codes "Surelite not in serial mode")
    ∷ (codes "02", codes "Coolant flow interrupted")
    ∷ (codes "03", codes "Coolant temperature over temp")
    ∷ (codes "04", codes "(not used)")
    ∷ (codes "05", codes "Laser head problem")
    ∷ (codes "06", codes "External interlock")
    ∷ (codes "07", codes "End of charge not detected before lamp fire")
    ∷ (codes "08", codes "Simmer not detected")
    ∷ (codes "09", codes "Flow switch stuck on")
    ∷ []
