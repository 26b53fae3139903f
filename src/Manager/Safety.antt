-- ===== src/Manager/Safety.antt =====
-- What the program keeps of its devices, and the rules for the actions that change them.
pub mod Lasers
pub mod Meters
pub mod Motors
pub mod Steps
pub mod Setup
pub mod Program
use laser_control.Manager.Pointers.{Keeps-through}
use laser_control.Common.{
  ℕ, ⊤, Bool, true, false, ◌≡◌, refl, Option, none, some, ◌⊎◌, inl, inr, List, [], ◌∷◌, Bytes,
  codes, arith, length, ◌==◌, if◌then◌else◌, Bool-cases,
}
use laser_control.Effects.{Action, Result, ok, err, Exception, modify, lift, ◌>>=◌}
use laser_control.Effects.Hoare.{Keeps, keeps_rules, Keeps-modify, Keeps-bind_lift, Keeps-bind_gets}
use laser_control.Std.Floating.{Floating}
use laser_control.Serial.{Serial}
use laser_control.Serial.Logged.{LoggedPort, logged}
use laser_control.Laser as Lasers_
use laser_control.Laser.{Laser}
use laser_control.Laser.Frames.{unrated}
use laser_control.Laser.Safety.{IsSafe}
use laser_control.PowerMeter.{PowerMeter}
use laser_control.PowerMeter.Keeps.{IsValid}
use laser_control.Attenuator.Frames.{widths}
use laser_control.Attenuator.Safety.{IsKept}
use laser_control.Attenuator.{Attenuator}
use laser_control.Manager.{
  Host, Manager, State, caught, through, built, on_laser, on_attenuator, on_meter,
}
use laser_control.Manager.Mapping
use laser_control.Manager.Session
use laser_control.Manager.Commands
use Lasers.{connect-IsSafe, check_laser-IsSafe, retire_laser-IsSafe, laser_command-IsSafe}
use Meters.{connect-IsValid, query_meter-IsValid, destroy-IsValid, meter_command-IsValid}

-- If there is a device, it is as `P` says.
abbrev pub Within : {S : Type 0} → (S → Type 0) → Option S → Type 0
Within P none = Unit
Within P (some s) = P s

module _ (sp : Serial) ⦃fl : Floating⦄ where
  open fl use {Float, Double}

  abbrev pub World : Type 0
  World = Manager (LoggedPort sp) Float Double

  pub record IsSound (m : World) : Type 0 where
    pub laser_safe : Within (IsSafe sp) m.laser
    pub meter_valid : Within (IsValid sp) m.power_meter
    pub attenuator_kept : Within (IsKept sp) m.attenuator

  abbrev Holds : {A : Type 0} → Action World A → Type 0
  Holds m = Keeps IsSound m

  -- A change that leaves the three devices alone.
  pub modify-IsSound :
      (f : World → World)
      → ((m : World) → (f m).laser ≡ m.laser)
      → ((m : World) → (f m).power_meter ≡ m.power_meter)
      → ((m : World) → (f m).attenuator ≡ m.attenuator)
      → Holds (modify f)
  modify-IsSound f l p a = Keeps-modify f λ m held. record {
    laser_safe = rw (l m) held.laser_safe;
    meter_valid = rw (p m) held.meter_valid;
    attenuator_kept = rw (a m) held.attenuator_kept;
  }

  pub on_laser-IsSound :
      {A : Type 0} (a : A) (m : Action (Laser (LoggedPort sp) Float) A)
      → Keeps (IsSafe sp) m
      → Holds (on_laser ⦃sp = logged sp⦄ a m)
  unfolding on_laser
  on_laser-IsSound a m h = Keeps-through _ _ a m λ w l e held. record {
    laser_safe = h.after l (rw e at held.laser_safe);
    meter_valid = held.meter_valid;
    attenuator_kept = held.attenuator_kept;
  }

  pub on_meter-IsSound :
      {A : Type 0} (a : A) (m : Action (PowerMeter (LoggedPort sp)) A)
      → Keeps (IsValid sp) m
      → Holds (on_meter ⦃sp = logged sp⦄ a m)
  unfolding on_meter
  on_meter-IsSound a m h = Keeps-through _ _ a m λ w p e held. record {
    laser_safe = held.laser_safe;
    meter_valid = h.after p (rw e at held.meter_valid);
    attenuator_kept = held.attenuator_kept;
  }

  pub on_attenuator-IsSound :
      {A : Type 0} (a : A) (m : Action (Attenuator (LoggedPort sp) Double) A)
      → Keeps (IsKept sp) m
      → Holds (on_attenuator ⦃sp = logged sp⦄ a m)
  unfolding on_attenuator
  on_attenuator-IsSound a m h = Keeps-through _ _ a m λ w d e held. record {
    laser_safe = held.laser_safe;
    meter_valid = held.meter_valid;
    attenuator_kept = h.after d (rw e at held.attenuator_kept);
  }
