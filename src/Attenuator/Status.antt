-- ===== src/Attenuator/Status.antt =====
-- `get_status_raw` and `refresh_status`.
use laser_control.Common.{ℕ, ⊤, not, ◌%◌, ◌^◌, Bytes, codes, List}
use laser_control.Common.Int.{ℤ, pos, to_unsigned, is_zero}
use laser_control.Effects.{◌>>=◌, ◌>>◌, lift, modify}
use laser_control.Std.Strings.{at, substr}
use laser_control.Std.Numbers.{stol, stoul}
use laser_control.Std.Floating.{Floating}
use laser_control.Serial.{Serial}
use laser_control.Util.Tokens.{tokenize_string}
use laser_control.Attenuator.{Attenuator, Act}
use laser_control.Attenuator.Port.{ask}

module _ ⦃sp : Serial⦄ ⦃fl : Floating⦄ where
  abbrev Change : Type 0
  Change = Attenuator sp.Port fl.Double → Attenuator sp.Port fl.Double

  -- `std::stol(tokens.at(i))` and `std::stoul(tokens.at(i))`, stored at once.
  unfoldable pub signed_field : List Bytes → ℕ → (ℤ → Change) → Act ⊤
  signed_field tokens i store = do t ← lift (at tokens i); v ← lift (stol t); modify (store v)

  unfoldable pub unsigned_field : List Bytes → ℕ → (ℕ → Change) → Act ⊤
  unsigned_field tokens i store = do t ← lift (at tokens i); v ← lift (stoul t); modify (store v)

  -- The registers in the order in which they are assigned. An enumeration has the 32 bits of
  -- `unsigned int`.
  unfoldable pub store_status : List Bytes → Act ⊤
  store_status tokens = do
    signed_field tokens 0 (λ v a. record a { op_mode = pos (to_unsigned (2 ^ 32) v) })
    signed_field tokens 1 (λ v a. record a { motor_state = pos (to_unsigned (2 ^ 32) v) })
    unsigned_field tokens 2 (λ v a. record a { acceleration = v % 2 ^ 8 })
    unsigned_field tokens 3 (λ v a. record a { deceleration = v % 2 ^ 8 })
    unsigned_field tokens 4 (λ v a. record a { max_speed = v % 2 ^ 32 })
    unsigned_field tokens 5 (λ v a. record a { current_move = v % 2 ^ 8 })
    unsigned_field tokens 6 (λ v a. record a { current_idle = v % 2 ^ 8 })
    unsigned_field tokens 8 (λ v a. record a { resolution = v % 2 ^ 32 })
    signed_field tokens 9 (λ v a. record a { motor_enabled = not (is_zero v) })
    signed_field tokens 11 (λ v a. record a { reset_on_zero = not (is_zero v) })
    signed_field tokens 12 (λ v a. record a { report_on_zero = not (is_zero v) })

  unfoldable pub get_status_raw : Act Bytes
  get_status_raw = do
    resp ← ask (codes "p") "Failed to send get status command" "Failed to read status"
    lift (substr resp 1)

  unfoldable pub refresh_status : Act ⊤
  refresh_status = do
    resp ← ask (codes "pc") "Failed to send get status command" "Failed to read status"
    rest ← lift (substr resp 2)
    store_status (tokenize_string rest (codes ";"))
