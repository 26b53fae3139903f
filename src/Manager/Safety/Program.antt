-- ===== src/Manager/Safety/Program.antt =====
-- `main` of apps/serial_manager.cpp: what it sends to the devices, and what it leaves.
use laser_control.Common.{
  ℕ, false, ◌≡◌, refl, none, ◌⊎◌, inl, inr, List, [], ◌∷◌, Bytes, length, not, ◌==◌, if◌then◌else◌,
}
use laser_control.Common.Int.{pos}
use laser_control.Effects.{Action, Result, pure, modify, ◌>>=◌, ◌>>◌}
use laser_control.Effects.Hoare.{Keeps, keeps_rules, Keeps-bind, Keeps-modify, Keeps-if, Keeps-pure}
use laser_control.Std.Floating.{Floating}
use laser_control.Serial.{Serial}
use laser_control.Serial.Logged.{LoggedPort, logged}
use laser_control.Laser.{voltage_out_of_range}
use laser_control.Manager.Pointers.{Keeps-caught}
use laser_control.Manager.{Host}
use laser_control.Manager.Session
use laser_control.Manager.Mapping
use laser_control.Manager.Commands.{run_command}
use laser_control.Manager.Words.{command_words}
use laser_control.Manager.Session.{Json, Flag}
use laser_control.Manager.Safety.Setup.{apply_flags-keeps, load_config-keeps}
use laser_control.Manager.Safety.{World, IsSound, modify-IsSound}
use laser_control.Manager.Safety.Steps.{
  map_devices-IsSound, unmap_devices-IsSound, run_command-IsSound,
}

module _ (sp : Serial) ⦃fl : Floating⦄ where
  abbrev Holds : {A : Type 0} → Action (World sp) A → Type 0
  Holds m = Keeps (IsSound sp) m

  no_devices-IsSound :
      Holds (modify (λ m. record m { attenuator = none; laser = none; power_meter = none }))
  no_devices-IsSound =
      Keeps-modify _ λ m held. record { laser_safe = tt; meter_valid = tt; attenuator_kept = tt }

  no_flags-IsSound : Holds (
      modify (λ m. record m { ignore_laser = false; ignore_attenuator = false; ignore_pm = false }))
  no_flags-IsSound = modify-IsSound sp _ (λ m. refl) (λ m. refl) (λ m. refl)

module _ (sp : Serial) ⦃fl : Floating⦄
    (default_fits : voltage_out_of_range (fl.to_float (fl.literal (pos 11) 1)) ≡ false)
    (host : Host (LoggedPort sp)) (fresh : host.new_serial.written ≡ []) where
  ended : (code : ℕ) → Holds sp (Mapping.unmap_devices ⦃sp = logged sp⦄ >> pure code)
  ended code = search (keeps_rules, unmap_devices-IsSound sp default_fits host fresh)

  follow-IsSound :
      (ret : ℕ) (rest : Action (World sp) ℕ)
      → Holds sp rest
      → Holds sp (Session.follow ⦃sp = logged sp⦄ ret rest)
  unfolding Session.follow
  follow-IsSound ret rest h =
      Keeps-if (ret == 255) _ _ (λ _. ended 0)
        λ _. Keeps-if (not (ret == 0)) _ _ (λ _. ended ret) λ _. h

  line-IsSound :
      (line : Bytes) (rest : Action (World sp) ℕ)
      → Holds sp rest
      → Holds sp (
          if length line == 0
          then rest
          else run_command ⦃sp = logged sp⦄ host (command_words line) >>= λ ret.
              Session.follow ⦃sp = logged sp⦄ ret rest)
  line-IsSound line rest h =
      Keeps-if (length line == 0) _ _ (λ _. h)
        λ _.
          Keeps-bind _ _ (run_command-IsSound sp default_fits host fresh _)
            λ ret. follow-IsSound ret rest h

  session-IsSound : (lines : List Bytes) → Holds sp (Session.session ⦃sp = logged sp⦄ host lines)
  unfolding Session.session
  session-IsSound [] = search (keeps_rules, unmap_devices-IsSound sp default_fits host fresh)
  session-IsSound (line ∷ lines) = line-IsSound line _ (session-IsSound lines)

  operate-IsSound : (lines : List Bytes) → Holds sp (Session.operate ⦃sp = logged sp⦄ host lines)
  unfolding Session.operate
  operate-IsSound lines =
      search
        (
          keeps_rules,
          unmap_devices-IsSound sp default_fits host fresh,
          map_devices-IsSound sp default_fits host fresh,
          session-IsSound,
        )
        depth 20

  start-IsSound :
      (file : Result Json) (lines : List Bytes)
      → Holds sp (Session.start ⦃sp = logged sp⦄ host file lines)
  unfolding Session.start
  start-IsSound file lines =
      search
        (
          keeps_rules,
          Keeps-caught,
          no_devices-IsSound,
          load_config-keeps sp (IsSound sp) (modify-IsSound sp),
          operate-IsSound,
        )
        depth 20

  -- Whatever the ports do, whatever the options, the configuration and the input are, and whichever
  -- calls throw: if a new port object has written nothing and 1.1 lies in the range of the pump
  -- voltage, `main`, begun with no device, leaves a safe laser, a valid power meter and an
  -- attenuator whose registers fit, where they are built. So all that the program ever sent to them
  -- is, for the laser, messages of Laser/Frames with no repetition rate and with voltages that the
  -- range test let through; for the attenuator, messages of Attenuator/Frames with steps in int32,
  -- speeds in 32 bits and resolutions in 16; for the power meter, commands of PowerMeter/Frames.
  pub main-IsSound :
      (files : Bytes → Result Json) (flags : List Flag) (lines : List Bytes) (m : World sp)
      → m.laser ≡ none
      → m.power_meter ≡ none
      → m.attenuator ≡ none
      → IsSound sp (Session.main ⦃sp = logged sp⦄ host files flags lines m).1
  unfolding Session.main
  main-IsSound files flags lines m l p a =
      (Keeps-bind _ _ (no_flags-IsSound sp) λ _.
          Keeps-bind _ _ (apply_flags-keeps sp (IsSound sp) (modify-IsSound sp) _ flags)
            by_flags).after
        m (record { laser_safe = rw l tt; meter_valid = rw p tt; attenuator_kept = rw a tt })
    where
      by_flags :
          (parsed : ℕ ⊎ Bytes)
          → Holds sp (elim parsed [
            | inl code ↦ pure code
            | inr name ↦ Session.start ⦃sp = logged sp⦄ host (files name) lines
          ])
      by_flags (inl code) = Keeps-pure _
      by_flags (inr name) = start-IsSound (files name) lines
