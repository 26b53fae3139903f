-- ===== src/AttenuatorSim/Refines.antt =====
-- The configuration of the attenuator against its simulation: the simulation says what a command
-- does to the cached configuration.
use laser_control.Common.{ℕ, ⊤, ◌≡◌, refl, ap, String, Bytes}
use laser_control.Effects.{ok, Action, ◌>>=◌, modify, pure}
use laser_control.Effects.Hoare.{Keeps, keeps_rules, Keeps-on_part}
use laser_control.Effects.Outcome.{Ends, Outcome, Outcome-Keeps, Outcome-modify, Outcome-bind}
use laser_control.Std.Floating.{Floating}
use laser_control.Serial.{Serial}
use laser_control.Device.{Device}
use laser_control.Attenuator.{Attenuator, Act, on_device}
use laser_control.Attenuator.Port.{reset_connection, write_once, write_cmd, send}
use laser_control.Attenuator.Settings
use laser_control.AttenuatorSim
use laser_control.AttenuatorSim.{AttenuatorSim, SimAct}

-- What the commands below change in both classes.
pub record Config : Type 0 where
  pub max_speed : ℕ
  pub acceleration : ℕ
  pub deceleration : ℕ
  pub resolution : ℕ
  pub current_idle : ℕ
  pub current_move : ℕ

abbrev pub config : {P D : Type 0} → Attenuator P D → Config
config a = record {
  max_speed = a.max_speed;
  acceleration = a.acceleration;
  deceleration = a.deceleration;
  resolution = a.resolution;
  current_idle = a.current_idle;
  current_move = a.current_move;
}

abbrev pub sim_config : AttenuatorSim → Config
sim_config a = record {
  max_speed = a.max_speed;
  acceleration = a.acceleration;
  deceleration = a.deceleration;
  resolution = a.resolution;
  current_idle = a.current_idle;
  current_move = a.current_move;
}

pub data ConfigOp : Type 0 where
  set_resolution set_idle_current set_moving_current set_acceleration : ℕ → ConfigOp
  set_deceleration set_max_speed : ℕ → ConfigOp
  save_settings reset_controller : ConfigOp

unfoldable pub sim_call : ConfigOp → SimAct ⊤
sim_call (ConfigOp.set_resolution v) = AttenuatorSim.set_resolution v
sim_call (ConfigOp.set_idle_current v) = AttenuatorSim.set_idle_current v
sim_call (ConfigOp.set_moving_current v) = AttenuatorSim.set_moving_current v
sim_call (ConfigOp.set_acceleration v) = AttenuatorSim.set_acceleration v
sim_call (ConfigOp.set_deceleration v) = AttenuatorSim.set_deceleration v
sim_call (ConfigOp.set_max_speed v) = AttenuatorSim.set_max_speed v
sim_call ConfigOp.save_settings = AttenuatorSim.save_settings
sim_call ConfigOp.reset_controller = AttenuatorSim.reset_controller

-- What a command that throws leaves: the resolution is cached before it is sent, the other fields
-- are cached after it.
abbrev pub AfterThrow : ConfigOp → Config → Config → Type 0
AfterThrow (ConfigOp.set_resolution v) before after = after ≡ record before { resolution = v }
AfterThrow op before after = after ≡ before

module _ ⦃sp : Serial⦄ ⦃fl : Floating⦄ where
  abbrev pub Motor : Type 0
  Motor = Attenuator sp.Port fl.Double

  unfoldable pub config_call : ConfigOp → Act ⊤
  config_call (ConfigOp.set_resolution v) = Settings.set_resolution v
  config_call (ConfigOp.set_idle_current v) = Settings.set_idle_current v
  config_call (ConfigOp.set_moving_current v) = Settings.set_moving_current v
  config_call (ConfigOp.set_acceleration v) = Settings.set_acceleration v
  config_call (ConfigOp.set_deceleration v) = Settings.set_deceleration v
  config_call (ConfigOp.set_max_speed v) = Settings.set_max_speed v
  config_call ConfigOp.save_settings = Settings.save_settings
  config_call ConfigOp.reset_controller = Settings.reset_controller

  module _ (c : Config) where
    abbrev Has : Motor → Type 0
    Has a = config a ≡ c

    device-Has :
        {A : Type 0} (m : Action (Device sp.Port) A) → Keeps Has (on_device {D = fl.Double} m)
    unfolding on_device
    device-Has m = Keeps-on_part _ _ m λ a held. held

    send-Has : (cmd : Bytes) (message : String) → Keeps Has (send cmd message)
    unfolding send write_cmd write_once reset_connection
    send-Has cmd message = search (keeps_rules, device-Has) depth 12

    -- A command that is sent and then noted.
    sent :
        {E Q : Motor → Type 0} (cmd : Bytes) (message : String) (f : Motor → Motor)
        → ((a : Motor) → Has a → E a)
        → ((a : Motor) → Has a → Q (f a))
        → Outcome Has E Q (send cmd message >>= λ _. modify f)
    sent cmd message f e q =
        Outcome-bind {M = Has} _ _ (Outcome-Keeps _ e (λ a k. k) (send-Has cmd message))
          λ _. Outcome-modify f q

  module _ (s : AttenuatorSim) where
    abbrev Follows : ConfigOp → Type 0
    Follows op =
        Outcome (λ a. config a ≡ sim_config s) (λ a. AfterThrow op (sim_config s) (config a))
          (λ a. ((sim_call op s).0 ≡ ok tt) × (config a ≡ sim_config (sim_call op s).1))
          (config_call op)

    call-Follows : (op : ConfigOp) → Follows op
    unfolding sim_call config_call Settings.set_resolution Settings.set_idle_current
        Settings.set_moving_current Settings.set_acceleration Settings.set_deceleration
        Settings.set_max_speed Settings.save_settings Settings.reset_controller
        AttenuatorSim.set_resolution AttenuatorSim.set_idle_current AttenuatorSim.set_moving_current
        AttenuatorSim.set_acceleration AttenuatorSim.set_deceleration AttenuatorSim.set_max_speed
        AttenuatorSim.save_settings AttenuatorSim.reset_controller modify pure
    call-Follows (ConfigOp.set_resolution v) =
        Outcome-bind {M = Has (record (sim_config s) { resolution = v })} _ _
          (Outcome-modify _ λ a h. ap (λ (c : Config). record c { resolution = v }) h)
          λ _. Outcome-Keeps _ (λ a h. h) (λ a h. (refl, h)) (send-Has _ _ _)
    call-Follows (ConfigOp.set_idle_current v) =
        sent (sim_config s) _ _ _ (λ a h. h)
          λ a h. (refl, ap (λ (c : Config). record c { current_idle = v }) h)
    call-Follows (ConfigOp.set_moving_current v) =
        sent (sim_config s) _ _ _ (λ a h. h)
          λ a h. (refl, ap (λ (c : Config). record c { current_move = v }) h)
    call-Follows (ConfigOp.set_acceleration v) =
        sent (sim_config s) _ _ _ (λ a h. h)
          λ a h. (refl, ap (λ (c : Config). record c { acceleration = v }) h)
    call-Follows (ConfigOp.set_deceleration v) =
        sent (sim_config s) _ _ _ (λ a h. h)
          λ a h. (refl, ap (λ (c : Config). record c { deceleration = v }) h)
    call-Follows (ConfigOp.set_max_speed v) =
        sent (sim_config s) _ _ _ (λ a h. h)
          λ a h. (refl, ap (λ (c : Config). record c { max_speed = v }) h)
    call-Follows ConfigOp.save_settings =
        Outcome-Keeps _ (λ a h. h) (λ a h. (refl, h)) (send-Has (sim_config s) _ _)
    call-Follows ConfigOp.reset_controller =
        Outcome-Keeps _ (λ a h. h) (λ a h. (refl, h)) (send-Has (sim_config s) _ _)

  -- From equal configurations a command that returns leaves the configuration that the simulation's
  -- command leaves, which returns too. A command that throws leaves it unchanged, up to the
  -- resolution, which `set_resolution` has then cached.
  pub config_follows_sim :
      (s : AttenuatorSim) (op : ConfigOp) (a : Motor)
      → config a ≡ sim_config s
      → Ends
          (λ a'. AfterThrow op (sim_config s) (config a'))
          (λ a'. ((sim_call op s).0 ≡ ok tt) × (config a' ≡ sim_config (sim_call op s).1))
          (config_call op a).0
          (config_call op a).1
  config_follows_sim s op a h = (call-Follows s op).ends a h
