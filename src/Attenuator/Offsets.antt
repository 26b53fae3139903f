-- ===== src/Attenuator/Offsets.antt =====
-- What the two commands that redefine the position do to the offset.
use laser_control.Std.Numbers.{show_ℤ}
use laser_control.Common.{◌≡◌, refl, ◌++◌, String, Bytes, codes, arith}
use laser_control.Common.Int.{ℤ, pos, ◌+ℤ◌, ◌-ℤ◌, wrap_i32}
use laser_control.Effects.{Action, ok, ◌>>=◌}
use laser_control.Effects.Hoare.{Keeps, keeps_rules, Keeps-on_part}
use laser_control.Std.Floating.{Floating}
use laser_control.Serial.{Serial}
use laser_control.Device.{Device}
use laser_control.Attenuator.{Attenuator, on_device}
use laser_control.Attenuator.Port.{reset_connection, write_once, write_cmd, send}
use laser_control.Attenuator.Position.{refresh_position}
use laser_control.Attenuator.Motion.{require_stopped, set_zero, set_current_position}

module _ ⦃sp : Serial⦄ ⦃fl : Floating⦄ where
  abbrev Motor : Type 0
  Motor = Attenuator sp.Port fl.Double

  module _ (offset position : ℤ) where
    abbrev Has : Motor → Type 0
    Has a = (a.offset ≡ offset) × (a.position ≡ position)

    device-Has :
        {A : Type 0} (m : Action (Device sp.Port) A) → Keeps Has (on_device {D = fl.Double} m)
    unfolding on_device
    device-Has m = Keeps-on_part _ _ m λ a held. held

    send-Has : (cmd : Bytes) (message : String) → Keeps Has (send cmd message)
    unfolding send write_cmd write_once reset_connection
    send-Has cmd message = search (keeps_rules, device-Has) depth 12

  -- If both calls return from the same state, whose poll gives the offset and the position of `b`,
  -- `set_zero` adds the position to the offset, and `set_current_position` of 0 takes it off.
  pub set_zero-set_current_position :
      (a b c d : Motor)
      → refresh_position a ≡ (ok tt, b)
      → set_zero a ≡ (ok tt, c)
      → set_current_position (pos 0) a ≡ (ok tt, d)
      → (c.offset ≡ wrap_i32 (b.offset +ℤ b.position))
        × (d.offset ≡ wrap_i32 (b.offset +ℤ wrap_i32 (pos 0 -ℤ b.position)))
  unfolding set_zero set_current_position require_stopped ◌>>=◌
  set_zero-set_current_position a b c d poll zero current = ground (
    arith,
    (send-Has (wrap_i32 (b.offset +ℤ b.position)) b.position (codes "h")
          "Failed to send set zero command").after
        (record b { offset = wrap_i32 (b.offset +ℤ b.position) }) (refl, refl),
    (send-Has b.offset b.position (codes "i " ++ show_ℤ (pos 0))
          "Failed to send set position command").after
        b (refl, refl),
  )
