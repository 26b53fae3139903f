-- ===== src/Manager/Session.antt =====
-- `main`: the options, the configuration file, and the loop over the lines of input. `getopt`, the
-- file and its JSON, and `readline` are arguments.
use laser_control.Common.{
  ℕ, ⊤, not, true, false, ◌⊎◌, inl, inr, Option, none, some, List, [], ◌∷◌, Bytes, codes,
  if◌then◌else◌, ◌==◌, length,
}
use laser_control.Effects.{Result, ◌>>=◌, ◌>>◌, pure, gets, modify, lift}
use laser_control.Std.Strings.{bytes_eq}
use laser_control.Std.Floating.{Floating}
use laser_control.Serial.{Serial}
use laser_control.Manager.{Host, Act, caught, DeviceConfig}
use laser_control.Manager.Mapping.{map_devices, unmap_devices}
use laser_control.Manager.Words.{command_words}
use laser_control.Manager.Commands.{run_command}

-- What `getopt` reports: -v, -i with a device, -f with a file, or an option that is none of these.
pub data Flag : Type 0 where
  verbose unknown : Flag
  ignore config_file : Bytes → Flag

-- The JSON object of the file: nothing where the key is missing, and the value as text, which
-- throws where it is none.
abbrev pub Json : Type 0
Json = Bytes → Option (Result Bytes)

-- The serial number and the baud rate of a device.
unfoldable pub configured : Bytes → ℕ → DeviceConfig → DeviceConfig
configured sn baud c = record c { serial_nr = sn; baud_rate = baud }

module _ ⦃sp : Serial⦄ ⦃fl : Floating⦄ where
  -- The code to end with, or the name of the configuration file.
  unfoldable pub apply_flags : Bytes → List Flag → Act (ℕ ⊎ Bytes)
  apply_flags file [] = pure (inr file)
  apply_flags file (Flag.verbose ∷ flags) = apply_flags file flags
  apply_flags file (Flag.unknown ∷ flags) = pure (inl 1)
  apply_flags file (Flag.config_file name ∷ flags) = apply_flags name flags
  apply_flags file (Flag.ignore device ∷ flags) =
      let rest = apply_flags file flags in
      if bytes_eq device (codes "laser")
      then modify (λ m. record m { ignore_laser = true }) >> rest
      else if bytes_eq device (codes "attenuator")
      then modify (λ m. record m { ignore_attenuator = true }) >> rest
      else if bytes_eq device (codes "power_meter")
      then modify (λ m. record m { ignore_pm = true }) >> rest
      else pure (inl 0)

  unfoldable pub load_attenuator : Option (Result Bytes) → Act ⊤
  load_attenuator none = modify (λ m. record m { ignore_attenuator = true })
  load_attenuator (some text) = do
    ignored ← gets (λ m. m.ignore_attenuator)
    if ignored then pure tt else (do
      sn ← lift text
      modify (λ m. record m {
        config = record m.config { attenuator = configured sn 38400 m.config.attenuator };
      }))

  unfoldable pub load_laser : Option (Result Bytes) → Act ⊤
  load_laser none = modify (λ m. record m { ignore_laser = true })
  load_laser (some text) = do
    ignored ← gets (λ m. m.ignore_laser)
    if ignored then pure tt else (do
      sn ← lift text
      modify (λ m. record m {
        config = record m.config { laser = configured sn 9600 m.config.laser };
      }))

  unfoldable pub load_meter : Option (Result Bytes) → Act ⊤
  load_meter none = modify (λ m. record m { ignore_pm = true })
  load_meter (some text) = do
    ignored ← gets (λ m. m.ignore_pm)
    if ignored then pure tt else (do
      sn ← lift text
      modify (λ m. record m {
        config = record m.config { power_meter = configured sn 9600 m.config.power_meter };
      }))

  unfoldable pub load_config : Json → Act ⊤
  load_config conf = do
    load_attenuator (conf (codes "attenuator"))
    load_laser (conf (codes "laser"))
    load_meter (conf (codes "power_meter"))

  -- What the loop does with the code of a command.
  unfoldable pub follow : ℕ → Act ℕ → Act ℕ
  follow ret rest =
      if ret == 255
      then (do unmap_devices; pure 0)
      else if not (ret == 0)
      then (do unmap_devices; pure ret)
      else rest

  module _ (host : Host sp.Port) where
    -- The lines that `readline` returns; at their end it returns a null pointer.
    unfoldable pub session : List Bytes → Act ℕ
    session [] = do unmap_devices; pure 0
    session (line ∷ lines) =
        let rest = session lines in
        if length line == 0
        then rest
        else (do ret ← run_command host (command_words line); follow ret rest)

    unfoldable pub operate : List Bytes → Act ℕ
    operate lines = do
      ret ← map_devices host
      if not (ret == 0) then (do unmap_devices; pure 0) else session lines

    -- From the configuration file on.
    unfoldable pub start : Result Json → List Bytes → Act ℕ
    start file lines = do
      modify (λ m. record m { attenuator = none; laser = none; power_meter = none })
      failed ← caught (do conf ← lift file; load_config conf; pure 0)
      if not (failed == 0) then pure 0 else operate lines

    unfoldable pub main : (Bytes → Result Json) → List Flag → List Bytes → Act ℕ
    main files flags lines = do
      modify (λ m. record m { ignore_laser = false; ignore_attenuator = false; ignore_pm = false })
      parsed ← apply_flags (codes "config.json") flags
      elim parsed [ inl code ↦ pure code | inr name ↦ start (files name) lines ]
