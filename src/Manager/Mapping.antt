-- ===== src/Manager/Mapping.antt =====
-- The devices are found and built before a session, and given up after it.
use laser_control.Common.{ℕ, ⊤, not, some, Bytes, if◌then◌else◌, ◌==◌}
use laser_control.Effects.{◌>>=◌, ◌>>◌, pure, gets, modify, lift}
use laser_control.Std.Floating.{Floating}
use laser_control.Serial.{Serial}
use laser_control.Device as Dev
use laser_control.Laser as Lasers
use laser_control.Laser.{new_laser}
use laser_control.Attenuator.{new_attenuator}
use laser_control.Attenuator.Transmission
use laser_control.Attenuator.Getters
use laser_control.PowerMeter as Meters
use laser_control.PowerMeter.{new_power_meter}
use laser_control.Util.Ports.{find_port}
use laser_control.Manager.{
  Host, State, Act, caught, built, is_null, port_valid, on_laser, on_attenuator, on_meter,
}
use laser_control.Manager.LaserCommand.{check_laser, retire_laser}
use laser_control.Manager.MotorCommand.{query_settings}
use laser_control.Manager.MeterCommand.{query_meter}

module _ ⦃sp : Serial⦄ ⦃fl : Floating⦄ where
  -- `iols.config.laser.port = p`, and the same for the others.
  unfoldable pub store_laser_port : Bytes → State → State
  store_laser_port p m = record m {
    config = record m.config { laser = record m.config.laser { port = p } };
  }

  unfoldable pub store_attenuator_port : Bytes → State → State
  store_attenuator_port p m = record m {
    config = record m.config { attenuator = record m.config.attenuator { port = p } };
  }

  unfoldable pub store_meter_port : Bytes → State → State
  store_meter_port p m = record m {
    config = record m.config { power_meter = record m.config.power_meter { port = p } };
  }

  module _ (host : Host sp.Port) where
    -- `iols.laser = new device::Laser(port, baud_rate)`: the pointer is set if the constructor
    -- returns.
    unfoldable pub build_laser : Act ⊤
    build_laser = do
      c ← gets (λ m. m.config.laser)
      l ← lift (built (Lasers.connect (new_laser c.port c.baud_rate host.new_serial)))
      modify (λ m. record m { laser = some l })

    unfoldable pub map_laser : Act ℕ
    map_laser = do
      missing ← gets (λ m. is_null m.laser)
      if not missing then pure 0 else (do
        modify (λ m. store_laser_port (find_port host.ports m.config.laser.serial_nr) m)
        valid ← gets (λ m. port_valid m.config.laser)
        if not valid then pure 1 else caught (do build_laser; on_laser tt check_laser; pure 0))

    unfoldable pub query_attenuator_settings : Act ℕ
    query_attenuator_settings = do
      ignored ← gets (λ m. m.ignore_attenuator)
      missing ← gets (λ m. is_null m.attenuator)
      if ignored
          then pure 1
          else if missing
          then pure 1
          else caught (do on_attenuator tt query_settings; pure 0)

    unfoldable pub build_attenuator : Act ⊤
    build_attenuator = do
      c ← gets (λ m. m.config.attenuator)
      a ← lift (built (Transmission.connect (new_attenuator c.port c.baud_rate host.new_serial)))
      modify (λ m. record m { attenuator = some a })

    unfoldable pub map_attenuator : Act ℕ
    map_attenuator = do
      ignored ← gets (λ m. m.ignore_attenuator)
      missing ← gets (λ m. is_null m.attenuator)
      if ignored then pure 1 else if not missing then pure 0 else (do
        modify (λ m. store_attenuator_port (find_port host.ports m.config.attenuator.serial_nr) m)
        valid ← gets (λ m. port_valid m.config.attenuator)
        if not valid
            then pure 1
            else caught (do
              build_attenuator
              ret ← query_attenuator_settings
              pure (if ret == 0 then 0 else 1)))

    unfoldable pub query_power_meter_settings : Act ℕ
    query_power_meter_settings = do
      ignored ← gets (λ m. m.ignore_pm)
      missing ← gets (λ m. is_null m.power_meter)
      if ignored
          then pure 1
          else if missing
          then pure 1
          else caught (do on_meter tt query_meter; pure 0)

    unfoldable pub build_meter : Act ⊤
    build_meter = do
      c ← gets (λ m. m.config.power_meter)
      p ← lift (built (Meters.connect (new_power_meter c.port c.baud_rate host.new_serial)))
      modify (λ m. record m { power_meter = some p })

    unfoldable pub map_power_meter : Act ℕ
    map_power_meter = do
      ignored ← gets (λ m. m.ignore_pm)
      missing ← gets (λ m. is_null m.power_meter)
      if ignored then pure 1 else if not missing then pure 0 else (do
        modify (λ m. store_meter_port (find_port host.ports m.config.power_meter.serial_nr) m)
        valid ← gets (λ m. port_valid m.config.power_meter)
        if not valid
            then pure 1
            else caught (do
              build_meter
              ret ← query_power_meter_settings
              pure (if ret == 0 then 0 else 1)))

    -- `ret` is what the last device that is not ignored gave.
    unfoldable pub map_pm_last : ℕ → Act ℕ
    map_pm_last ret = do
      ignored ← gets (λ m. m.ignore_pm)
      if ignored then pure ret else (do
        ret' ← map_power_meter
        missing ← gets (λ m. is_null m.power_meter)
        pure (if missing then 1 else ret'))

    unfoldable pub map_laser_next : ℕ → Act ℕ
    map_laser_next ret = do
      ignored ← gets (λ m. m.ignore_laser)
      if ignored then map_pm_last ret else (do
        ret' ← map_laser
        missing ← gets (λ m. is_null m.laser)
        if missing then pure 1 else map_pm_last ret')

    unfoldable pub map_devices : Act ℕ
    map_devices = do
      ignored ← gets (λ m. m.ignore_attenuator)
      if ignored then map_laser_next 0 else (do
        ret ← map_attenuator
        missing ← gets (λ m. is_null m.attenuator)
        if missing then pure 1 else map_laser_next ret)

  -- An exception here ends the program.
  unfoldable pub unmap_devices : Act ℕ
  unmap_devices = do
    on_meter tt (Meters.on_device Dev.destroy)
    on_attenuator tt Getters.destroy
    on_laser tt retire_laser
    pure 0
