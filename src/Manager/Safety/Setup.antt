-- ===== src/Manager/Safety/Setup.antt =====
-- The options and the configuration file change no device.
use laser_control.Common.{
  ℕ, true, ◌≡◌, refl, Option, none, some, ◌⊎◌, inl, List, [], ◌∷◌, Bytes, codes, if◌then◌else◌,
}
use laser_control.Effects.{Action, Result, pure, modify, ◌>>◌}
use laser_control.Effects.Hoare.{Keeps, keeps_rules}
use laser_control.Std.Floating.{Floating}
use laser_control.Serial.{Serial}
use laser_control.Serial.Logged.{logged}
use laser_control.Manager.Pointers.{Keeps-caught}
use laser_control.Manager.{Config}
use laser_control.Manager.Session
use laser_control.Std.Strings.{bytes_eq}
use laser_control.Manager.Session.{Json, Flag}
use laser_control.Manager.Safety.{World}

-- What a change that leaves the devices alone keeps.
module _ (sp : Serial) ⦃fl : Floating⦄ (I : World sp → Type 0)
    (same : (f : World sp → World sp)
      → ((m : World sp) → (f m).laser ≡ m.laser)
      → ((m : World sp) → (f m).power_meter ≡ m.power_meter)
      → ((m : World sp) → (f m).attenuator ≡ m.attenuator)
      → Keeps I (modify f)) where
  abbrev Holds : {A : Type 0} → Action (World sp) A → Type 0
  Holds m = Keeps I m

  ignore_laser-keeps : Holds (modify (λ m. record m { ignore_laser = true }))
  ignore_laser-keeps = same _ (λ m. refl) (λ m. refl) (λ m. refl)

  ignore_attenuator-keeps : Holds (modify (λ m. record m { ignore_attenuator = true }))
  ignore_attenuator-keeps = same _ (λ m. refl) (λ m. refl) (λ m. refl)

  ignore_pm-keeps : Holds (modify (λ m. record m { ignore_pm = true }))
  ignore_pm-keeps = same _ (λ m. refl) (λ m. refl) (λ m. refl)

  config-keeps : (f : World sp → Config) → Holds (modify (λ m. record m { config = f m }))
  config-keeps f = same _ (λ m. refl) (λ m. refl) (λ m. refl)

  ruleset setup_rules = (
    keeps_rules, Keeps-caught, ignore_laser-keeps, ignore_attenuator-keeps, ignore_pm-keeps,
    config-keeps,
  )

  ignore_device-keeps :
      (device : Bytes) (rest : Action (World sp) (ℕ ⊎ Bytes))
      → Holds rest
      → Holds (
          if bytes_eq device (codes "laser")
          then modify (λ m. record m { ignore_laser = true }) >> rest
          else if bytes_eq device (codes "attenuator")
          then modify (λ m. record m { ignore_attenuator = true }) >> rest
          else if bytes_eq device (codes "power_meter")
          then modify (λ m. record m { ignore_pm = true }) >> rest
          else pure (inl 0))
  ignore_device-keeps device rest h = search setup_rules depth 12

  pub apply_flags-keeps :
      (file : Bytes) (flags : List Flag) → Holds (Session.apply_flags ⦃sp = logged sp⦄ file flags)
  unfolding Session.apply_flags
  apply_flags-keeps file [] = search keeps_rules
  apply_flags-keeps file (Flag.verbose ∷ flags) = apply_flags-keeps file flags
  apply_flags-keeps file (Flag.unknown ∷ flags) = search keeps_rules
  apply_flags-keeps file (Flag.config_file name ∷ flags) = apply_flags-keeps name flags
  apply_flags-keeps file (Flag.ignore device ∷ flags) =
      ignore_device-keeps device _ (apply_flags-keeps file flags)

  load_attenuator-keeps :
      (o : Option (Result Bytes)) → Holds (Session.load_attenuator ⦃sp = logged sp⦄ o)
  unfolding Session.load_attenuator
  load_attenuator-keeps none = ignore_attenuator-keeps
  load_attenuator-keeps (some text) = search setup_rules depth 12

  load_laser-keeps : (o : Option (Result Bytes)) → Holds (Session.load_laser ⦃sp = logged sp⦄ o)
  unfolding Session.load_laser
  load_laser-keeps none = ignore_laser-keeps
  load_laser-keeps (some text) = search setup_rules depth 12

  load_meter-keeps : (o : Option (Result Bytes)) → Holds (Session.load_meter ⦃sp = logged sp⦄ o)
  unfolding Session.load_meter
  load_meter-keeps none = ignore_pm-keeps
  load_meter-keeps (some text) = search setup_rules depth 12

  pub load_config-keeps : (conf : Json) → Holds (Session.load_config ⦃sp = logged sp⦄ conf)
  unfolding Session.load_config
  load_config-keeps conf =
      search (keeps_rules, load_attenuator-keeps, load_laser-keeps, load_meter-keeps)
