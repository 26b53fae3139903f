-- ===== src/Manager/Frame.antt =====
-- A command changes only the device that its first word names.
use laser_control.Manager.Pointers.{Keeps-caught, Keeps-through}
use laser_control.Common.{Bool, true, false, ◌≡◌, refl, List, [], ◌∷◌, Bytes, codes}
use laser_control.Effects.{Action, pure}
use laser_control.Effects.Hoare.{Keeps, keeps_rules, Keeps-if, Keeps-pure}
use laser_control.Std.Strings.{bytes_eq}
use laser_control.Std.Floating.{Floating}
use laser_control.Serial.{Serial}
use laser_control.Laser.{Laser}
use laser_control.Attenuator.{Attenuator}
use laser_control.PowerMeter.{PowerMeter}
use laser_control.Manager.{Host, State, on_laser, on_attenuator, on_meter}
use laser_control.Manager.Mapping.{query_attenuator_settings, query_power_meter_settings}
use laser_control.Manager.Commands.{
  run_laser, attenuator_words, run_attenuator, meter_words, run_meter, dispatch, run_command,
}
use laser_control.Manager.Codes.{first_is}

abbrev Unless : Bool → Type 0 → Type 0
Unless true P = Unit
Unless false P = P

module _ ⦃sp : Serial⦄ ⦃fl : Floating⦄ where
  -- Configuration and flags are the same, and so is each device, unless its argument is true.
  pub record Same (l a p : Bool) (before after : State) : Type 0 where
    pub config_same : after.config ≡ before.config
    pub ignore_laser_same : after.ignore_laser ≡ before.ignore_laser
    pub ignore_pm_same : after.ignore_pm ≡ before.ignore_pm
    pub ignore_attenuator_same : after.ignore_attenuator ≡ before.ignore_attenuator
    pub laser_same : Unless l (after.laser ≡ before.laser)
    pub attenuator_same : Unless a (after.attenuator ≡ before.attenuator)
    pub meter_same : Unless p (after.power_meter ≡ before.power_meter)

  Same-refl : (l a p : Bool) (m : State) → Same l a p m m
  Same-refl l a p m = record {
    config_same = refl;
    ignore_laser_same = refl;
    ignore_pm_same = refl;
    ignore_attenuator_same = refl;
    laser_same = same l refl;
    attenuator_same = same a refl;
    meter_same = same p refl;
  }
    where
      same : {A : Type 0} {x y : A} (b : Bool) → x ≡ y → Unless b (x ≡ y)
      same true e = tt
      same false e = e

  module _ (l a p : Bool) (before : State) where
    abbrev Holds : {A : Type 0} → Action State A → Type 0
    Holds m = Keeps (Same l a p before) m

    on_laser-Same :
        {A : Type 0} (x : A) (m : Action (Laser sp.Port fl.Float) A)
        → l ≡ true
        → Holds (on_laser x m)
    unfolding on_laser
    on_laser-Same x m e = Keeps-through _ _ x m λ w d h held. record {
      config_same = held.config_same;
      ignore_laser_same = held.ignore_laser_same;
      ignore_pm_same = held.ignore_pm_same;
      ignore_attenuator_same = held.ignore_attenuator_same;
      laser_same = rw e tt;
      attenuator_same = held.attenuator_same;
      meter_same = held.meter_same;
    }

    on_attenuator-Same :
        {A : Type 0} (x : A) (m : Action (Attenuator sp.Port fl.Double) A)
        → a ≡ true
        → Holds (on_attenuator x m)
    unfolding on_attenuator
    on_attenuator-Same x m e = Keeps-through _ _ x m λ w d h held. record {
      config_same = held.config_same;
      ignore_laser_same = held.ignore_laser_same;
      ignore_pm_same = held.ignore_pm_same;
      ignore_attenuator_same = held.ignore_attenuator_same;
      laser_same = held.laser_same;
      attenuator_same = rw e tt;
      meter_same = held.meter_same;
    }

    on_meter-Same :
        {A : Type 0} (x : A) (m : Action (PowerMeter sp.Port) A) → p ≡ true → Holds (on_meter x m)
    unfolding on_meter
    on_meter-Same x m e = Keeps-through _ _ x m λ w d h held. record {
      config_same = held.config_same;
      ignore_laser_same = held.ignore_laser_same;
      ignore_pm_same = held.ignore_pm_same;
      ignore_attenuator_same = held.ignore_attenuator_same;
      laser_same = held.laser_same;
      attenuator_same = held.attenuator_same;
      meter_same = rw e tt;
    }

    module _ (host : Host sp.Port) where
      run_laser-Same : (args : List Bytes) → l ≡ true → Holds (run_laser args)
      unfolding run_laser
      run_laser-Same args e = search (keeps_rules, on_laser-Same) depth 12

      run_attenuator-Same : (args : List Bytes) → a ≡ true → Holds (run_attenuator host args)
      unfolding run_attenuator attenuator_words query_attenuator_settings
      run_attenuator-Same [] e = search (keeps_rules, on_attenuator-Same, Keeps-caught) depth 20
      run_attenuator-Same (arg ∷ args) e = search (keeps_rules, on_attenuator-Same) depth 20

      run_meter-Same : (args : List Bytes) → p ≡ true → Holds (run_meter host args)
      unfolding run_meter meter_words query_power_meter_settings
      run_meter-Same [] e = search (keeps_rules, on_meter-Same, Keeps-caught) depth 20
      run_meter-Same (arg ∷ args) e = search (keeps_rules, on_meter-Same) depth 20

module _ ⦃sp : Serial⦄ ⦃fl : Floating⦄ (host : Host sp.Port) where
  dispatch-Same :
      (cmd : Bytes) (args : List Bytes) (before : State)
      → Keeps
          (Same
            (bytes_eq cmd (codes "laser"))
            (bytes_eq cmd (codes "attenuator"))
            (bytes_eq cmd (codes "power_meter"))
            before)
          (dispatch host cmd args)
  unfolding dispatch
  dispatch-Same cmd args before =
      Keeps-if (bytes_eq cmd (codes "exit")) _ _ (λ _. Keeps-pure 255)
        λ _.
          Keeps-if (bytes_eq cmd (codes "help")) _ _ (λ _. Keeps-pure 0)
            λ _.
              Keeps-if (bytes_eq cmd (codes "laser")) _ _ (run_laser-Same _ _ _ before host args)
                λ _.
                  Keeps-if (bytes_eq cmd (codes "attenuator")) _ _
                    (run_attenuator-Same _ _ _ before host args)
                    λ _.
                      Keeps-if (bytes_eq cmd (codes "power_meter")) _ _
                        (run_meter-Same _ _ _ before host args) λ _. Keeps-pure 0

  -- Whatever the ports do and whether or not a call throws, a command leaves the configuration and
  -- the flags as they were, and each device whose name is not the first word.
  pub run_command_frame :
      (words : List Bytes) (m : State)
      → Same
          (first_is (codes "laser") words)
          (first_is (codes "attenuator") words)
          (first_is (codes "power_meter") words)
          m
          (run_command host words m).1
  unfolding run_command first_is pure
  run_command_frame [] m = Same-refl _ _ _ m
  run_command_frame (cmd ∷ args) m =
      (Keeps-caught _ (dispatch-Same cmd args m)).after m (Same-refl _ _ _ m)
