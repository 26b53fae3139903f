-- ===== src/Manager/Shutdown/Program.antt =====
-- However `main` goes, if it returns then the laser, where there is one, has been stopped.
use laser_control.Common.{
  ℕ, false, not, ◌≡◌, refl, ◌⊎◌, inl, inr, Option, none, some, List, [], Bytes, ◌==◌,
}
use laser_control.Common.Int.{pos}
use laser_control.Effects.{ok, Result, Action, ◌>>=◌, ◌>>◌, pure, modify, lift}
use laser_control.Effects.Hoare.{Keeps, keeps_rules, Keeps-pure, Keeps-modify}
use laser_control.Effects.Outcome.{
  Outcome, Outcome-Keeps, Outcome-bind, Outcome-if, Outcome-weaken, Outcome-modify,
}
use laser_control.Std.Floating.{Floating}
use laser_control.Serial.{Serial}
use laser_control.Serial.Logged.{LoggedPort, logged}
use laser_control.Laser.{Laser, voltage_out_of_range}
use laser_control.Laser.Frames.{unrated}
use laser_control.Laser.Safety.{IsSafe}
use laser_control.Manager.Pointers.{Keeps-caught}
use laser_control.Manager.{Host, caught}
use laser_control.Manager.Mapping.{unmap_devices}
use laser_control.Manager.Commands.{run_command}
use laser_control.Manager.Session.{operate, start, main, load_config, Json, Flag}
use laser_control.Manager.Safety.{World, IsSound, Within}
use laser_control.Manager.Safety.Setup.{apply_flags-keeps, load_config-keeps}
use laser_control.Manager.Safety.Steps.{map_devices-IsSound, run_command-IsSound}
use laser_control.Manager.Shutdown.Loop.{ended_by, session-Ends}
use laser_control.Manager.Shutdown.{
  IsFramedLaser, IsRetired, unmap_devices-Outcome, retire_laser-IsRetired, ok-Ends,
}

module _ (sp : Serial) ⦃fl : Floating⦄ where
  abbrev IsEmpty : World sp → Type 0
  IsEmpty w = (w.laser ≡ none) × (w.power_meter ≡ none) × (w.attenuator ≡ none)

  modify-IsEmpty :
      (f : World sp → World sp)
      → ((m : World sp) → (f m).laser ≡ m.laser)
      → ((m : World sp) → (f m).power_meter ≡ m.power_meter)
      → ((m : World sp) → (f m).attenuator ≡ m.attenuator)
      → Keeps IsEmpty (modify f)
  modify-IsEmpty f l p a =
      Keeps-modify f λ m held. (rw (l m) held.0, rw (p m) held.1, rw (a m) held.2)

  configure-IsEmpty :
      (file : Result Json)
      → Keeps IsEmpty (caught (lift file >>= λ conf. load_config ⦃sp = logged sp⦄ conf >> pure 0))
  configure-IsEmpty file =
      search (keeps_rules, Keeps-caught, load_config-keeps sp IsEmpty modify-IsEmpty)

  IsEmpty-IsSound : (w : World sp) → IsEmpty w → IsSound sp w
  IsEmpty-IsSound w e = record {
    laser_safe = rw e.0 tt;
    meter_valid = rw e.1 tt;
    attenuator_kept = rw e.2 tt;
  }

  -- A laser that was built has been retired.
  abbrev pub NoneLeft : World sp → Type 0
  NoneLeft w = Within (IsRetired sp) w.laser

  IsEmpty-NoneLeft : (w : World sp) → IsEmpty w → NoneLeft w
  IsEmpty-NoneLeft w e = rw e.0 tt

  framed : (w : World sp) → IsSound sp w → Within (IsFramedLaser sp) w.laser
  framed w held = by_pointer w.laser held.laser_safe
    where
      by_pointer :
          (o : Option (Laser (LoggedPort sp) fl.Float))
          → Within (IsSafe sp) o
          → Within (IsFramedLaser sp) o
      by_pointer none safe = tt
      by_pointer (some l) safe = (safe.clean.pre_set, safe.clean.sfx_set)

module _ (sp : Serial) ⦃fl : Floating⦄
    (default_fits : voltage_out_of_range (fl.to_float (fl.literal (pos 11) 1)) ≡ false)
    (host : Host (LoggedPort sp)) (fresh : host.new_serial.written ≡ []) where
  abbrev Retires : Action (World sp) ℕ → Type 0
  Retires m = Outcome (IsSound sp) (λ w. Unit) (NoneLeft sp) m

  unmap_devices-Retires : Retires (unmap_devices ⦃sp = logged sp⦄)
  unmap_devices-Retires =
      Outcome-weaken (λ w h. h) _ (framed sp)
        (unmap_devices-Outcome sp (Within (IsFramedLaser sp)) (Within (IsRetired sp)) (λ h. h)
          (retire_laser-IsRetired sp))

  run : (words : List Bytes) → Keeps (IsSound sp) (run_command ⦃sp = logged sp⦄ host words)
  run words = run_command-IsSound sp default_fits host fresh words

  operate-Retires : (lines : List Bytes) → Retires (operate ⦃sp = logged sp⦄ host lines)
  unfolding operate
  operate-Retires lines =
      Outcome-bind _ _
        (Outcome-Keeps _ (λ t held. tt) (λ t held. held)
          (map_devices-IsSound sp default_fits host fresh))
        (λ ret.
          Outcome-if (not (ret == 0)) _ _ (ended_by sp _ _ unmap_devices-Retires 0)
            (session-Ends sp _ _ unmap_devices-Retires host run lines))

  abbrev Leaves : Action (World sp) ℕ → Type 0
  Leaves m = Outcome (IsEmpty sp) (λ w. Unit) (NoneLeft sp) m

  pure-Leaves : (code : ℕ) → Leaves (pure code)
  pure-Leaves code = Outcome-Keeps _ (λ t h. tt) (IsEmpty-NoneLeft sp) (Keeps-pure code)

  start-Leaves :
      (file : Result Json) (lines : List Bytes) → Leaves (start ⦃sp = logged sp⦄ host file lines)
  unfolding start
  start-Leaves file lines = Outcome-bind _ _ (Outcome-modify _ λ m held. (refl, refl, refl)) λ u.
      Outcome-bind _ _ (Outcome-Keeps _ (λ t held. tt) (λ t held. held) (configure-IsEmpty sp file))
        λ failed.
          Outcome-if (not (failed == 0)) _ _ (pure-Leaves 0)
            (Outcome-weaken (λ w h. h) _ (IsEmpty-IsSound sp) (operate-Retires lines))

  main-Leaves :
      (files : Bytes → Result Json) (flags : List Flag) (lines : List Bytes)
      → Leaves (main ⦃sp = logged sp⦄ host files flags lines)
  unfolding main
  main-Leaves files flags lines = Outcome-bind _ _ (Outcome-modify _ λ m held. held) λ u.
      Outcome-bind _ _
        (Outcome-Keeps _ (λ t held. tt) (λ t held. held)
          (apply_flags-keeps sp (IsEmpty sp) (modify-IsEmpty sp) _ flags))
        by_flags
    where
      by_flags :
          (parsed : ℕ ⊎ Bytes)
          → Leaves (elim parsed [
            | inl code ↦ pure code
            | inr name ↦ start ⦃sp = logged sp⦄ host (files name) lines
          ])
      by_flags (inl code) = pure-Leaves code
      by_flags (inr name) = start-Leaves (files name) lines

  -- Whatever the ports do, whatever the options, the configuration and the input are: if a new port
  -- object has written nothing, 1.1 lies in the range of the pump voltage and no device is built
  -- yet, then once `main` returns there is no laser, or it was told to stop, its last message
  -- closed the shutter, and it takes itself not to be firing.
  pub main-IsRetired :
      (files : Bytes → Result Json) (flags : List Flag) (lines : List Bytes) (m : World sp)
      (code : ℕ)
      → m.laser ≡ none
      → m.power_meter ≡ none
      → m.attenuator ≡ none
      → (main ⦃sp = logged sp⦄ host files flags lines m).0 ≡ ok code
      → Within (IsRetired sp) (main ⦃sp = logged sp⦄ host files flags lines m).1.laser
  main-IsRetired files flags lines m code l p a e =
      ok-Ends sp (NoneLeft sp) _ code _ e ((main-Leaves files flags lines).ends m (l, p, a))
