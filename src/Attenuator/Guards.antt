-- ===== src/Attenuator/Guards.antt =====
-- The motor is commanded only when it is stopped.
use laser_control.Common.{ℕ, ⊤, Bool, false, ◌≡◌, arith, String}
use laser_control.Common.Int.{ℤ, is_zero}
use laser_control.Effects.{err, ok, runtime_error, ◌>>=◌, ◌>>◌, pure}
use laser_control.Std.Floating.{Floating}
use laser_control.Serial.{Serial}
use laser_control.Attenuator.{Attenuator, Act}
use laser_control.Attenuator.Position.{refresh_position}
use laser_control.Attenuator.Motion
use laser_control.Attenuator.Motion.{require_stopped}

-- The operations that want a stopped motor. The number is that of the polls that a wait may make.
pub data MotorOp : Type 0 where
  move go : ℕ → ℤ → Bool → MotorOp
  set_current_position : ℤ → MotorOp
  set_zero go_home : MotorOp

abbrev pub refusal : MotorOp → String
refusal (MotorOp.move n s w) = "Can't move motor until it is in a stopped (state="
refusal (MotorOp.go n s w) = "Can't move motor until it is in a stopped (state="
refusal _ = "Can't reconfigure motor until it is in a stopped (state="

module _ ⦃sp : Serial⦄ ⦃fl : Floating⦄ where
  unfoldable pub call : MotorOp → Act ⊤
  call (MotorOp.move polls steps wait) = Motion.move polls steps wait >> pure tt
  call (MotorOp.go polls target wait) = Motion.go polls target wait >> pure tt
  call (MotorOp.set_current_position p) = Motion.set_current_position p
  call MotorOp.set_zero = Motion.set_zero
  call MotorOp.go_home = Motion.go_home

  -- If the poll reports a motor that is not stopped, the operation throws and does nothing else:
  -- the state is that after the poll, so no command was sent and no offset changed.
  pub call_while_moving :
      (op : MotorOp) (a b : Attenuator sp.Port fl.Double)
      → refresh_position a ≡ (ok tt, b)
      → is_zero b.motor_state ≡ false
      → call op a ≡ (err (runtime_error (refusal op)), b)
  unfolding call Motion.move Motion.go Motion.set_current_position Motion.set_zero Motion.go_home
      require_stopped ◌>>=◌
  call_while_moving (MotorOp.move n s w) a b e moving = ground arith
  call_while_moving (MotorOp.go n s w) a b e moving = ground arith
  call_while_moving (MotorOp.set_current_position p) a b e moving = ground arith
  call_while_moving MotorOp.set_zero a b e moving = ground arith
  call_while_moving MotorOp.go_home a b e moving = ground arith
