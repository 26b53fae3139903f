-- ===== src/Manager/Commands.antt =====
-- `run_command`: the first word names a device or a command of the program itself.
use laser_control.Common.{ℕ, List, [], ◌∷◌, Bytes, codes, if◌then◌else◌, ◌==◌}
use laser_control.Effects.{◌>>=◌, ◌>>◌, pure, gets}
use laser_control.Std.Strings.{bytes_eq}
use laser_control.Std.Floating.{Floating}
use laser_control.Serial.{Serial}
use laser_control.Manager.{Host, Act, caught, is_null, on_laser, on_attenuator, on_meter}
use laser_control.Manager.LaserCommand.{laser_command}
use laser_control.Manager.MotorCommand.{attenuator_command}
use laser_control.Manager.MeterCommand.{meter_command}
use laser_control.Manager.Mapping.{query_attenuator_settings, query_power_meter_settings}

module _ ⦃sp : Serial⦄ ⦃fl : Floating⦄ where
  -- A null pointer leaves the command undone, and the code is 0.
  unfoldable pub run_laser : List Bytes → Act ℕ
  run_laser args = do
    ignored ← gets (λ m. m.ignore_laser)
    if ignored then pure 0 else (do on_laser tt (laser_command args); pure 0)

  module _ (host : Host sp.Port) where
    unfoldable pub attenuator_words : List Bytes → Act ℕ
    attenuator_words [] = do res ← query_attenuator_settings host; pure (if res == 0 then 0 else 1)
    attenuator_words (arg ∷ args) = do
      on_attenuator tt (attenuator_command host.polls (arg ∷ args))
      pure 0

    unfoldable pub run_attenuator : List Bytes → Act ℕ
    run_attenuator args = do
      ignored ← gets (λ m. m.ignore_attenuator)
      missing ← gets (λ m. is_null m.attenuator)
      if ignored then pure 0 else if missing then pure 0 else attenuator_words args

    unfoldable pub meter_words : List Bytes → Act ℕ
    meter_words [] = do res ← query_power_meter_settings host; pure (if res == 0 then 0 else 1)
    meter_words (arg ∷ args) = do on_meter tt (meter_command host.leftover (arg ∷ args)); pure 0

    unfoldable pub run_meter : List Bytes → Act ℕ
    run_meter args = do
      ignored ← gets (λ m. m.ignore_pm)
      missing ← gets (λ m. is_null m.power_meter)
      if ignored then pure 0 else if missing then pure 0 else meter_words args

    unfoldable pub dispatch : Bytes → List Bytes → Act ℕ
    dispatch cmd args =
        if bytes_eq cmd (codes "exit")
        then pure 255
        else if bytes_eq cmd (codes "help")
        then pure 0
        else if bytes_eq cmd (codes "laser")
        then run_laser args
        else if bytes_eq cmd (codes "attenuator")
        then run_attenuator args
        else if bytes_eq cmd (codes "power_meter")
        then run_meter args
        else pure 0

    unfoldable pub run_command : List Bytes → Act ℕ
    run_command [] = pure 1
    run_command (cmd ∷ args) = caught (dispatch cmd args)
