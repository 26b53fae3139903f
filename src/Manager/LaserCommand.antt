-- ===== src/Manager/LaserCommand.antt =====
-- The commands of the laser, and the checks on a new one.
use laser_control.Common.{⊤, List, [], ◌∷◌, Bytes, codes, if◌then◌else◌}
use laser_control.Effects.{◌>>=◌, ◌>>◌, pure, lift}
use laser_control.Std.Strings.{bytes_eq}
use laser_control.Std.Floating.{Floating}
use laser_control.Serial.{Serial}
use laser_control.Device as Dev
use laser_control.Laser
use laser_control.Laser.{Laser, Act, on_device}
use laser_control.Laser.Enums.{open_shutter, closed, start, stop}
use laser_control.Laser.Security
use laser_control.Laser.Shots
use laser_control.Manager.Arguments.{u32_of}

module _ ⦃sp : Serial⦄ ⦃fl : Floating⦄ where
  open fl use {stof}

  unfoldable pub laser_request : Bytes → Act ⊤
  laser_request sub =
      if bytes_eq sub (codes "single_shot")
      then Laser.single_shot
      else if bytes_eq sub (codes "shot_count")
      then Shots.get_shot_count >> pure tt
      else if bytes_eq sub (codes "security")
      then Security.security >> pure tt
      else if bytes_eq sub (codes "fire_start")
      then Laser.fire start
      else if bytes_eq sub (codes "fire_stop")
      then Laser.fire stop
      else if bytes_eq sub (codes "shutter_open")
      then Laser.shutter open_shutter
      else if bytes_eq sub (codes "shutter_close")
      then Laser.shutter closed
      else pure tt

  unfoldable pub laser_setting : Bytes → Bytes → Act ⊤
  laser_setting sub text =
      if bytes_eq sub (codes "prescale")
      then Laser.set_prescale (u32_of text)
      else if bytes_eq sub (codes "division")
      then Laser.set_prescale (u32_of text)
      else if bytes_eq sub (codes "hv")
      then (do hv ← lift (stof text); Laser.set_pump_voltage hv)
      else if bytes_eq sub (codes "qswitch")
      then Laser.set_qswitch (u32_of text)
      else pure tt

  -- The words behind "laser".
  unfoldable pub laser_command : List Bytes → Act ⊤
  laser_command (sub ∷ []) = laser_request sub
  laser_command (sub ∷ text ∷ []) = laser_setting sub text
  laser_command _ = pure tt

  -- What `map_laser` asks of a new instance.
  unfoldable pub check_laser : Act ⊤
  check_laser = do
    on_device (Dev.set_timeout_ms 100)
    Security.security
    Shots.get_shot_count
    pure tt

  -- What `unmap_devices` does before the laser is gone.
  unfoldable pub retire_laser : Act ⊤
  retire_laser = do Laser.fire stop; Laser.shutter closed; on_device Dev.destroy
