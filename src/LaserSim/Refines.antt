-- ===== src/LaserSim/Refines.antt =====
-- The laser against its simulation: the simulation says what each call does to the settings.
use laser_control.Common.{ℕ, ⊤, false, ◌≡◌, refl, ap, inl, inr, String, Bytes, ltb, if◌then◌else◌}
use laser_control.Effects.{ok, Action, ◌>>=◌, ◌>>◌, pure, modify}
use laser_control.Effects.Hoare.{Keeps, keeps_rules, Keeps-on_part, Keeps-bind, Keeps-pure}
use laser_control.Effects.Outcome.{
  Ends, Outcome, Outcome-Keeps, Outcome-modify, Outcome-bind, Outcome-guard,
}
use laser_control.Std.Numbers.{stoul, stol}
use laser_control.Std.Floating.{Floating}
use laser_control.Serial.{Serial}
use laser_control.Device.{Device}
use laser_control.Laser
use laser_control.Laser.{Laser, on_device, send_or_throw, voltage_out_of_range}
use laser_control.Laser.Enums.{Shutter, Fire, is_start}
use laser_control.Laser.Security
use laser_control.Laser.Shots
use laser_control.Laser.Ops.{Op, call}
use laser_control.LaserSim
use laser_control.LaserSim.{LaserSim, SimAct}
use laser_control.Laser.Settings.{Settings, settings}
use laser_control.LaserSim.Cached.{sim_settings, sim_call, AfterThrow}

module _ ⦃sp : Serial⦄ ⦃fl : Floating⦄ where
  open fl use {Float}

  module _ (c : Settings Float) where
    abbrev Has : Laser sp.Port Float → Type 0
    Has l = settings l ≡ c

    device-Has : {A : Type 0} (m : Action (Device sp.Port) A) → Keeps Has (on_device {F = Float} m)
    unfolding on_device
    device-Has m = Keeps-on_part _ _ m λ l h. h

    send-Has : (cmd : Bytes) (message : String) → Keeps Has (send_or_throw cmd message)
    unfolding send_or_throw Laser.write_cmd Laser.reset_connection
    send-Has cmd message = search (keeps_rules, device-Has)

    -- A command that is sent and then noted in the settings.
    sent :
        {E Q : Laser sp.Port Float → Type 0} (cmd : Bytes) (message : String)
        (f : Laser sp.Port Float → Laser sp.Port Float)
        → ((l : Laser sp.Port Float) → Has l → E l)
        → ((l : Laser sp.Port Float) → Has l → Q (f l))
        → Outcome Has E Q (send_or_throw cmd message >>= λ _. modify f)
    sent cmd message f e q =
        Outcome-bind {M = Has} _ _ (Outcome-Keeps _ e (λ t k. k) (send-Has cmd message))
          λ _. Outcome-modify f q

    security-Has : Keeps Has Security.security
    unfolding Security.security Security.security_code Security.security_lines
        Laser.reset_connection
    security-Has = search (keeps_rules, send-Has, device-Has) depth 12

    u16-Has : Keeps Has Security.security_u16
    unfolding Security.security_u16
    u16-Has = search (keeps_rules, security-Has)

    enum-Has : Keeps Has Security.security_enum
    unfolding Security.security_enum
    enum-Has = search (keeps_rules, security-Has)

    shot_count-Has : Keeps Has Shots.get_shot_count
    unfolding Shots.get_shot_count Shots.shot_count_text Laser.reset_connection Laser.write_cmd
    shot_count-Has = search (keeps_rules, device-Has) depth 12

  -- What a call has done to the settings, by how it ended.
  abbrev pub Follows : Op Float → LaserSim Float → Action (Laser sp.Port Float) ⊤ → Type 0
  Follows op s =
      Outcome (λ l. settings l ≡ sim_settings s) (λ l. AfterThrow op (sim_settings s) (settings l))
        (λ l. ((sim_call op s).0 ≡ ok tt) × (settings l ≡ sim_settings (sim_call op s).1))

  module _ (s : LaserSim Float) where
    shutter-Follows : (x : Shutter) → Follows (Op.shutter x) s (Laser.shutter x)
    unfolding Laser.shutter sim_call LaserSim.shutter modify
    shutter-Follows x =
        Outcome-Keeps _ (λ l h. h) (λ l h. (refl, h)) (send-Has (sim_settings s) _ _)

    fire-Follows : (x : Fire) → Follows (Op.fire x) s (Laser.fire x)
    unfolding Laser.fire sim_call LaserSim.fire modify
    fire-Follows x =
        sent (sim_settings s) _ _ _ (λ l h. h)
          λ l h. (refl, ap (λ (c : Settings Float). record c { is_firing = is_start x }) h)

    prescale-Follows : (n : ℕ) → Follows (Op.set_prescale n) s (Laser.set_prescale n)
    unfolding Laser.set_prescale sim_call LaserSim.set_prescale modify
    prescale-Follows n =
        sent (sim_settings s) _ _ _ (λ l h. h)
          λ l h. (
            refl,
            ap (λ (c : Settings Float). record c { prescale = if ltb 99 n then 99 else n }) h,
          )

    sim_voltage :
        (hv : Float)
        → voltage_out_of_range hv ≡ false
        → LaserSim.set_pump_voltage hv s ≡ (ok tt, record s { pump_hv = hv })
    unfolding LaserSim.set_pump_voltage ◌>>=◌
    sim_voltage hv fits = rw fits

    voltage-Follows : (hv : Float) → Follows (Op.set_pump_voltage hv) s (Laser.set_pump_voltage hv)
    unfolding Laser.set_pump_voltage sim_call
    voltage-Follows hv =
        Outcome-guard _ _ _ (λ l h. h)
          λ fits.
            sent (sim_settings s) _ _ _ (λ l h. h)
              λ l h.
                rw (sim_voltage hv fits)
                  (refl, ap (λ (c : Settings Float). record c { pump_hv = hv }) h)

    rate-Follows : (r : Float) → Follows (Op.set_repetition_rate r) s (Laser.set_repetition_rate r)
    unfolding Laser.set_repetition_rate sim_call LaserSim.set_repetition_rate modify
    rate-Follows r =
        sent (sim_settings s) _ _ _ (λ l h. h)
          λ l h. (refl, ap (λ (c : Settings Float). record c { rate = r }) h)

    qswitch-Follows : (n : ℕ) → Follows (Op.set_qswitch n) s (Laser.set_qswitch n)
    unfolding Laser.set_qswitch sim_call LaserSim.set_qswitch modify
    qswitch-Follows n =
        sent (sim_settings s) _ _ _ (λ l h. h)
          λ l h. (
            refl,
            ap (λ (c : Settings Float). record c { qswitch = if ltb 999 n then 999 else n }) h,
          )

    single_shot-Follows : Follows Op.single_shot s Laser.single_shot
    unfolding Laser.single_shot sim_call LaserSim.single_shot LaserSim.set_prescale
        Laser.set_prescale modify
    single_shot-Follows =
        let zeroed : Settings Float = record (sim_settings s) { prescale = 0 } in
        Outcome-bind {M = λ l. settings l ≡ zeroed} _ _
          (sent (sim_settings s) _ _ _ (λ l h. inl h)
            λ l h. ap (λ (c : Settings Float). record c { prescale = 0 }) h)
          λ _. Outcome-Keeps _ (λ l h. inr h) (λ l h. (refl, h)) (send-Has zeroed _ _)

    -- A call that only asks, on both sides.
    asked :
        {A : Type 0} (m : Action (Laser sp.Port Float) A)
        → Keeps (Has (sim_settings s)) m
        → Outcome
            (Has (sim_settings s))
            (Has (sim_settings s))
            (λ l. (ok tt ≡ ok tt) × (settings l ≡ sim_settings s))
            (m >> pure tt)
    asked m h =
        Outcome-Keeps _ (λ l k. k) (λ l k. (refl, k)) (Keeps-bind _ _ h (λ _. Keeps-pure tt))

    get_shot_count-Follows : Follows Op.get_shot_count s (call Op.get_shot_count)
    unfolding call sim_call LaserSim.get_shot_count ◌>>=◌
    get_shot_count-Follows = asked _ (shot_count-Has (sim_settings s))

    security-Follows : Follows Op.security s (call Op.security)
    unfolding call sim_call LaserSim.security LaserSim.security_code ◌>>=◌
    security-Follows = asked _ (security-Has (sim_settings s))

    security_u16-Follows : Follows Op.security_u16 s (call Op.security_u16)
    unfolding call sim_call LaserSim.security_u16 LaserSim.security LaserSim.security_code stoul
        ◌>>=◌
    security_u16-Follows = asked _ (u16-Has (sim_settings s))

    security_enum-Follows : Follows Op.security_enum s (call Op.security_enum)
    unfolding call sim_call LaserSim.security_enum LaserSim.security LaserSim.security_code stol
        ◌>>=◌
    security_enum-Follows = asked _ (enum-Has (sim_settings s))

    call-Follows : (op : Op Float) → Follows op s (call op)
    unfolding call sim_call
    call-Follows (Op.shutter x) = shutter-Follows x
    call-Follows (Op.fire x) = fire-Follows x
    call-Follows (Op.set_prescale n) = prescale-Follows n
    call-Follows (Op.set_pump_voltage hv) = voltage-Follows hv
    call-Follows Op.single_shot = single_shot-Follows
    call-Follows Op.get_shot_count = get_shot_count-Follows
    call-Follows Op.security = security-Follows
    call-Follows Op.security_u16 = security_u16-Follows
    call-Follows Op.security_enum = security_enum-Follows
    call-Follows (Op.set_repetition_rate r) = rate-Follows r
    call-Follows (Op.set_qswitch n) = qswitch-Follows n

  -- From equal settings a call that returns leaves the settings that the simulation's call leaves,
  -- which returns too. A call that throws leaves them unchanged; a single shot may leave the
  -- prescale at 0.
  pub call_follows_sim :
      (s : LaserSim Float) (op : Op Float) (l : Laser sp.Port Float)
      → settings l ≡ sim_settings s
      → Ends
          (λ l'. AfterThrow op (sim_settings s) (settings l'))
          (λ l'. ((sim_call op s).0 ≡ ok tt) × (settings l' ≡ sim_settings (sim_call op s).1))
          (call op l).0
          (call op l).1
  call_follows_sim s op l h = (call-Follows s op).ends l h
