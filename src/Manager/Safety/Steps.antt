-- ===== src/Manager/Safety/Steps.antt =====
-- The devices are built safe and valid, and every step of the program keeps them so.
use laser_control.Common.{ℕ, ⊤, false, ◌≡◌, refl, some, List, [], ◌∷◌, Bytes, arith}
use laser_control.Common.Int.{pos}
use laser_control.Effects.{Action, Result, ok, err, modify}
use laser_control.Effects.Hoare.{Keeps, keeps_rules, Keeps-bind, Keeps-bind_lift, Keeps-modify}
use laser_control.Std.Floating.{Floating}
use laser_control.Serial.{Serial}
use laser_control.Serial.Logged.{LoggedPort, logged}
use laser_control.Laser.{Laser, voltage_out_of_range, new_laser}
use laser_control.Laser.Frames.{unrated}
use laser_control.Laser.Safety.{IsSafe}
use laser_control.PowerMeter.{PowerMeter, new_power_meter}
use laser_control.PowerMeter.Keeps.{IsValid}
use laser_control.Util.Ports.{PortInfo, find_port}
use laser_control.Manager.Pointers.{Keeps-caught}
use laser_control.Attenuator.{new_attenuator}
use laser_control.Attenuator.Frames.{widths}
use laser_control.Attenuator.Safety.{Motor, IsKept}
use laser_control.Manager.{Host, built}
use laser_control.Manager.Mapping
use laser_control.Manager.Commands
use laser_control.Manager.Safety.{
  World, IsSound, modify-IsSound, on_laser-IsSound, on_meter-IsSound, on_attenuator-IsSound,
}
use laser_control.Manager.Safety.Lasers.{
  connect-IsSafe, check_laser-IsSafe, retire_laser-IsSafe, laser_command-IsSafe,
}
use laser_control.Manager.Safety.Motors.{
  connect-IsKept, query_settings-IsKept, destroy-IsKept, attenuator_command-IsKept,
}
use laser_control.Manager.Safety.Meters.{
  connect-IsValid, query_meter-IsValid, destroy-IsValid, meter_command-IsValid,
}

built_lem : {S : Type 0} (r : Result ⊤ × S) (s : S) → built r ≡ ok s → r.1 ≡ s
built_lem (ok u, t) s e = ground arith
built_lem (err x, t) s e = ground arith

module _ (sp : Serial) ⦃fl : Floating⦄
    (default_fits : voltage_out_of_range (fl.to_float (fl.literal (pos 11) 1)) ≡ false)
    (host : Host (LoggedPort sp)) (fresh : host.new_serial.written ≡ []) where
  abbrev Holds : {A : Type 0} → Action (World sp) A → Type 0
  Holds m = Keeps (IsSound sp) m

  new_laser-IsSafe :
      (port : Bytes) (baud : ℕ) → IsSafe sp (new_laser ⦃sp = logged sp⦄ port baud host.new_serial)
  new_laser-IsSafe port baud = record {
    clean = record { pre_set = refl; sfx_set = refl; traffic = rw fresh tt };
    prescale_fits = omega arith;
    qswitch_fits = omega arith;
    voltage_fits = default_fits;
  }

  new_meter-IsValid :
      (port : Bytes) (baud : ℕ)
      → IsValid sp (new_power_meter ⦃sp = logged sp⦄ port baud host.new_serial)
  new_meter-IsValid port baud = record {
    clean = record { pre_set = refl; sfx_set = refl; traffic = rw fresh tt };
    wavelength_fits = omega arith;
    threshold_fits = omega arith;
    low_fits = omega arith;
    high_fits = omega arith;
    lengths_sorted = tt;
    windows_sorted = tt;
    ranges_sorted = tt;
    units_kept = refl;
  }

  put_laser-IsSound :
      (l : Laser (LoggedPort sp) fl.Float)
      → IsSafe sp l
      → Holds (modify (λ m. record m { laser = some l }))
  put_laser-IsSound l safe = Keeps-modify _ λ m held. record {
    laser_safe = safe;
    meter_valid = held.meter_valid;
    attenuator_kept = held.attenuator_kept;
  }

  put_meter-IsSound :
      (p : PowerMeter (LoggedPort sp))
      → IsValid sp p
      → Holds (modify (λ m. record m { power_meter = some p }))
  put_meter-IsSound p valid = Keeps-modify _ λ m held. record {
    laser_safe = held.laser_safe;
    meter_valid = valid;
    attenuator_kept = held.attenuator_kept;
  }

  new_attenuator-IsKept :
      (port : Bytes) (baud : ℕ)
      → IsKept sp (new_attenuator ⦃sp = logged sp⦄ port baud host.new_serial)
  new_attenuator-IsKept port baud = record {
    clean = record { pre_set = refl; sfx_set = refl; traffic = rw fresh tt };
    fits = omega arith;
  }

  put_attenuator-IsSound :
      (a : Motor sp) → IsKept sp a → Holds (modify (λ m. record m { attenuator = some a }))
  put_attenuator-IsSound a kept = Keeps-modify _ λ m held. record {
    laser_safe = held.laser_safe;
    meter_valid = held.meter_valid;
    attenuator_kept = kept;
  }

  build_laser-IsSound : Holds (Mapping.build_laser ⦃sp = logged sp⦄ host)
  unfolding Mapping.build_laser
  build_laser-IsSound = Keeps-bind _ _ (search keeps_rules) λ c. Keeps-bind_lift _ _ λ l e.
      put_laser-IsSound l (
        rw (built_lem _ l e) at ((connect-IsSafe sp).after _ (new_laser-IsSafe c.port c.baud_rate)))

  build_meter-IsSound : Holds (Mapping.build_meter ⦃sp = logged sp⦄ host)
  unfolding Mapping.build_meter
  build_meter-IsSound = Keeps-bind _ _ (search keeps_rules) λ c. Keeps-bind_lift _ _ λ p e.
      put_meter-IsSound p (
        rw (built_lem _ p e) at
          ((connect-IsValid sp).after _ (new_meter-IsValid c.port c.baud_rate)))

  build_attenuator-IsSound : Holds (Mapping.build_attenuator ⦃sp = logged sp⦄ host)
  unfolding Mapping.build_attenuator
  build_attenuator-IsSound = Keeps-bind _ _ (search keeps_rules) λ c. Keeps-bind_lift _ _ λ a e.
      put_attenuator-IsSound a (
        rw (built_lem _ a e) at
          ((connect-IsKept sp).after _ (new_attenuator-IsKept c.port c.baud_rate)))

  -- The changes that leave the devices alone.

  store_laser-IsSound :
      (ports : List PortInfo)
      → Holds (
          modify (λ m.
            Mapping.store_laser_port ⦃sp = logged sp⦄ (find_port ports m.config.laser.serial_nr) m))
  unfolding Mapping.store_laser_port
  store_laser-IsSound ports = modify-IsSound sp _ (λ m. refl) (λ m. refl) (λ m. refl)

  store_attenuator-IsSound :
      (ports : List PortInfo)
      → Holds (
          modify (λ m.
            Mapping.store_attenuator_port ⦃sp = logged sp⦄
              (find_port ports m.config.attenuator.serial_nr)
              m))
  unfolding Mapping.store_attenuator_port
  store_attenuator-IsSound ports = modify-IsSound sp _ (λ m. refl) (λ m. refl) (λ m. refl)

  store_meter-IsSound :
      (ports : List PortInfo)
      → Holds (
          modify (λ m.
            Mapping.store_meter_port ⦃sp = logged sp⦄
              (find_port ports m.config.power_meter.serial_nr)
              m))
  unfolding Mapping.store_meter_port
  store_meter-IsSound ports = modify-IsSound sp _ (λ m. refl) (λ m. refl) (λ m. refl)

  ruleset device_rules =
      (keeps_rules, Keeps-caught, on_laser-IsSound, on_meter-IsSound, on_attenuator-IsSound)

  map_laser-IsSound : Holds (Mapping.map_laser ⦃sp = logged sp⦄ host)
  unfolding Mapping.map_laser
  map_laser-IsSound =
      search (device_rules, store_laser-IsSound, build_laser-IsSound, check_laser-IsSafe) depth 20

  query_attenuator-IsSound : Holds (Mapping.query_attenuator_settings ⦃sp = logged sp⦄ host)
  unfolding Mapping.query_attenuator_settings
  query_attenuator-IsSound = search (device_rules, query_settings-IsKept) depth 20

  map_attenuator-IsSound : Holds (Mapping.map_attenuator ⦃sp = logged sp⦄ host)
  unfolding Mapping.map_attenuator
  map_attenuator-IsSound =
      search
        (device_rules, store_attenuator-IsSound, build_attenuator-IsSound, query_attenuator-IsSound)
        depth 20

  query_power_meter-IsSound : Holds (Mapping.query_power_meter_settings ⦃sp = logged sp⦄ host)
  unfolding Mapping.query_power_meter_settings
  query_power_meter-IsSound = search (device_rules, query_meter-IsValid) depth 20

  map_power_meter-IsSound : Holds (Mapping.map_power_meter ⦃sp = logged sp⦄ host)
  unfolding Mapping.map_power_meter
  map_power_meter-IsSound =
      search (device_rules, store_meter-IsSound, build_meter-IsSound, query_power_meter-IsSound)
        depth 20

  pub map_devices-IsSound : Holds (Mapping.map_devices ⦃sp = logged sp⦄ host)
  unfolding Mapping.map_devices Mapping.map_laser_next Mapping.map_pm_last
  map_devices-IsSound =
      search (device_rules, map_laser-IsSound, map_attenuator-IsSound, map_power_meter-IsSound)
        depth 20

  pub unmap_devices-IsSound : Holds (Mapping.unmap_devices ⦃sp = logged sp⦄)
  unfolding Mapping.unmap_devices
  unmap_devices-IsSound =
      search (device_rules, destroy-IsValid, destroy-IsKept, retire_laser-IsSafe) depth 20

  run_laser-IsSound : (args : List Bytes) → Holds (Commands.run_laser ⦃sp = logged sp⦄ args)
  unfolding Commands.run_laser
  run_laser-IsSound args = search (device_rules, laser_command-IsSafe) depth 20

  run_attenuator-IsSound :
      (args : List Bytes) → Holds (Commands.run_attenuator ⦃sp = logged sp⦄ host args)
  unfolding Commands.run_attenuator Commands.attenuator_words
  run_attenuator-IsSound [] = search (device_rules, query_attenuator-IsSound) depth 20
  run_attenuator-IsSound (arg ∷ args) = search (device_rules, attenuator_command-IsKept) depth 20

  run_meter-IsSound : (args : List Bytes) → Holds (Commands.run_meter ⦃sp = logged sp⦄ host args)
  unfolding Commands.run_meter Commands.meter_words
  run_meter-IsSound [] = search (device_rules, query_power_meter-IsSound) depth 20
  run_meter-IsSound (arg ∷ args) = search (device_rules, meter_command-IsValid) depth 20

  pub run_command-IsSound :
      (words : List Bytes) → Holds (Commands.run_command ⦃sp = logged sp⦄ host words)
  unfolding Commands.run_command Commands.dispatch
  run_command-IsSound [] = search device_rules
  run_command-IsSound (cmd ∷ args) =
      search (device_rules, run_laser-IsSound, run_attenuator-IsSound, run_meter-IsSound) depth 20
