-- ===== src/Attenuator/Position.antt =====
-- `get_position` and `refresh_position`. The loop that waits for the motor takes the number of
-- polls that it may make.
use laser_control.Common.{ℕ, zero, suc, ⊤, Bool, not, ◌%◌, ◌^◌, codes, if◌then◌else◌, ◌==◌, length}
use laser_control.Common.Int.{ℤ, pos, wrap_i32}
use laser_control.Effects.{
  runtime_error, still_waiting, ◌>>=◌, ◌>>◌, pure, throw, lift, modify, throw_if,
}
use laser_control.Std.Strings.{at, substr}
use laser_control.Std.Numbers.{stol, stoul}
use laser_control.Std.Floating.{Floating}
use laser_control.Serial.{Serial}
use laser_control.Util.Tokens.{tokenize_string}
use laser_control.Attenuator.{Act}
use laser_control.Attenuator.Port.{ask}

module _ ⦃sp : Serial⦄ ⦃fl : Floating⦄ where
  -- `get_position(position, status, false)`: the position, which `put` stores as soon as it is
  -- known, and the status.
  unfoldable pub poll : (ℤ → Act ⊤) → Act (ℤ × ℕ)
  poll put = do
    resp ← ask (codes "o") "Failed to send get position command" "Failed to read position"
    rest ← lift (substr resp 1)
    let tokens = tokenize_string rest (codes ";")
    place ← lift (at tokens 1)
    value ← lift (stol place)
    put (wrap_i32 value)
    flag ← lift (at tokens 0)
    throw_if (not (length flag == 1)) (runtime_error "Expected only 1 char as status. Got ")
    status ← lift (stoul flag)
    pure (wrap_i32 value, status % 2 ^ 16)

  -- `while (status != 0) get_position(position, status, false);`
  unfoldable pub wait_stopped : ℕ → (ℤ → Act ⊤) → ℤ × ℕ → Act (ℤ × ℕ)
  wait_stopped zero put last = throw still_waiting
  wait_stopped (suc polls) put last =
      if last.1 == 0 then pure last else (do next ← poll put; wait_stopped polls put next)

  unfoldable pub get_position : ℕ → (ℤ → Act ⊤) → Bool → Act (ℤ × ℕ)
  get_position polls put wait = do
    first ← poll put
    if wait then wait_stopped polls put first else pure first

  unfoldable pub refresh_position : Act ⊤
  refresh_position = do
    now ← poll (λ p. modify (λ a. record a { position = p }))
    modify (λ a. record a { motor_state = pos now.1 })
