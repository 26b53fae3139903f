-- ===== src/Attenuator/Motion.antt =====
-- The commands that move the motor or redefine its position. They want the motor to be stopped.
use laser_control.Common.{ℕ, ⊤, Bool, not, Option, none, some, ◌++◌, codes, if◌then◌else◌, String}
use laser_control.Common.Int.{ℤ, pos, ◌+ℤ◌, ◌-ℤ◌, is_zero, wrap_i32}
use laser_control.Effects.{runtime_error, ◌>>=◌, ◌>>◌, pure, gets, modify, throw_if}
use laser_control.Std.Numbers.{show_ℤ}
use laser_control.Std.Floating.{Floating}
use laser_control.Serial.{Serial}
use laser_control.Attenuator.{Act}
use laser_control.Attenuator.Port.{send}
use laser_control.Attenuator.Position.{get_position, refresh_position}

module _ ⦃sp : Serial⦄ ⦃fl : Floating⦄ where
  -- The poll and the test at the head of each command.
  unfoldable pub require_stopped : String → Act ⊤
  require_stopped message = do
    refresh_position
    state ← gets (λ a. a.motor_state)
    throw_if (not (is_zero state)) (runtime_error message)

  -- The position that a call with `wait` writes to its out-parameter.
  unfoldable pub position_if : ℕ → Bool → Act (Option ℤ)
  position_if polls wait =
      if wait
      then (do now ← get_position polls (λ p. pure tt) wait; pure (some now.0))
      else pure none

  unfoldable pub move : ℕ → ℤ → Bool → Act (Option ℤ)
  move polls steps wait = do
    require_stopped "Can't move motor until it is in a stopped (state="
    send (codes "m " ++ show_ℤ steps) "Failed to send move command"
    position_if polls wait

  unfoldable pub go : ℕ → ℤ → Bool → Act (Option ℤ)
  go polls target wait = do
    require_stopped "Can't move motor until it is in a stopped (state="
    send (codes "g " ++ show_ℤ target) "Failed to send go command"
    position_if polls wait

  -- The sums are in `int32_t`.
  unfoldable pub set_current_position : ℤ → Act ⊤
  set_current_position p = do
    require_stopped "Can't reconfigure motor until it is in a stopped (state="
    send (codes "i " ++ show_ℤ p) "Failed to send set position command"
    modify (λ a. record a { offset = wrap_i32 (a.offset +ℤ wrap_i32 (p -ℤ a.position)) })

  -- The offset is changed before the command is sent.
  unfoldable pub set_zero : Act ⊤
  set_zero = do
    require_stopped "Can't reconfigure motor until it is in a stopped (state="
    modify (λ a. record a { offset = wrap_i32 (a.offset +ℤ a.position) })
    send (codes "h") "Failed to send set zero command"

  unfoldable pub stop : Bool → Act ⊤
  stop force = send (if force then codes "b" else codes "st") "Failed to send stop command"

  unfoldable pub go_home : Act ⊤
  go_home = do
    require_stopped "Can't reconfigure motor until it is in a stopped (state="
    send (codes "zp") "Failed to send go home command"
    modify (λ a. record a { offset = pos 0 })
