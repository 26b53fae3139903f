-- ===== src/Manager/Mapped.antt =====
-- When `map_devices` answers 0, the devices are there.
use laser_control.Common.{
  ℕ, Bool, true, false, ◌≡◌, refl, Option, sym, ◌∙◌, arith, Bool-cases, inl, inr, Bytes,
  if◌then◌else◌,
}
use laser_control.Effects.{Action, Result, ok, err, pure, modify}
use laser_control.Effects.Hoare.{
  Keeps, keeps_rules, Keeps-modify, Keeps-bind, Keeps-gets, Keeps-lift,
}
use laser_control.Effects.Gives.{Gives, Gives-bind, Gives-bind_gets, Given, Given-if}
use laser_control.Std.Floating.{Floating}
use laser_control.Serial.{Serial}
use laser_control.Laser.{Laser}
use laser_control.Attenuator.{Attenuator}
use laser_control.PowerMeter.{PowerMeter}
use laser_control.Manager.{Host, State, is_null, on_laser, on_meter, on_attenuator}
use laser_control.Manager.Pointers.{Keeps-caught, Keeps-through}
use laser_control.Manager.Mapping.{
  store_laser_port, build_laser, map_laser, store_meter_port, build_meter, map_power_meter,
  query_power_meter_settings, store_attenuator_port, build_attenuator, map_attenuator,
  query_attenuator_settings, map_pm_last, map_laser_next, map_devices,
}

-- A device that is not ignored is there.
abbrev Has : {S : Type 0} → Bool → Option S → Type 0
Has ignored o = ignored ≡ false → is_null o ≡ false

Has-ignored : {S : Type 0} (ignored : Bool) (o : Option S) → ignored ≡ true → Has ignored o
Has-ignored ignored o e = λ f. ground (arith, e, f)

module _ ⦃sp : Serial⦄ ⦃fl : Floating⦄ where
  -- The flags are as before, and every device that they do not ignore is there.
  pub record IsMapped (before after : State) : Type 0 where
    pub ignore_laser_same : after.ignore_laser ≡ before.ignore_laser
    pub ignore_pm_same : after.ignore_pm ≡ before.ignore_pm
    pub ignore_attenuator_same : after.ignore_attenuator ≡ before.ignore_attenuator
    pub attenuator_there : Has before.ignore_attenuator after.attenuator
    pub laser_there : Has before.ignore_laser after.laser
    pub meter_there : Has before.ignore_pm after.power_meter

  module _ (host : Host sp.Port) (before : State) where
    abbrev Flags : State → Type 0
    Flags w =
        (w.ignore_laser ≡ before.ignore_laser)
        × (w.ignore_pm ≡ before.ignore_pm)
        × (w.ignore_attenuator ≡ before.ignore_attenuator)

    abbrev WithAttenuator : State → Type 0
    WithAttenuator w = Flags w × Has before.ignore_attenuator w.attenuator

    abbrev WithLaser : State → Type 0
    WithLaser w = WithAttenuator w × Has before.ignore_laser w.laser

    -- What the mapping of one device does to the others and to the flags: nothing.

    on_attenuator-Flags :
        {A : Type 0} (a : A) (m : Action (Attenuator sp.Port fl.Double) A)
        → Keeps Flags (on_attenuator a m)
    unfolding on_attenuator
    on_attenuator-Flags a m = Keeps-through _ _ a m λ w d e h. h

    build_attenuator-Flags : Keeps Flags (build_attenuator host)
    unfolding build_attenuator
    build_attenuator-Flags =
        Keeps-bind _ _ (Keeps-gets _)
          λ c. Keeps-bind _ _ (Keeps-lift _) λ d. Keeps-modify _ λ w h. h

    store_attenuator-Flags :
        (p : State → Bytes) → Keeps Flags (modify (λ w. store_attenuator_port (p w) w))
    unfolding store_attenuator_port
    store_attenuator-Flags p = Keeps-modify _ λ w h. h

    map_attenuator-Flags : Keeps Flags (map_attenuator host)
    unfolding map_attenuator query_attenuator_settings
    map_attenuator-Flags =
        search
          (
            keeps_rules, Keeps-caught, on_attenuator-Flags, build_attenuator-Flags,
            store_attenuator-Flags,
          )
          depth 20

    on_laser-WithAttenuator :
        {A : Type 0} (a : A) (m : Action (Laser sp.Port fl.Float) A)
        → Keeps WithAttenuator (on_laser a m)
    unfolding on_laser
    on_laser-WithAttenuator a m = Keeps-through _ _ a m λ w d e h. h

    build_laser-WithAttenuator : Keeps WithAttenuator (build_laser host)
    unfolding build_laser
    build_laser-WithAttenuator =
        Keeps-bind _ _ (Keeps-gets _)
          λ c. Keeps-bind _ _ (Keeps-lift _) λ d. Keeps-modify _ λ w h. h

    store_laser-WithAttenuator :
        (p : State → Bytes) → Keeps WithAttenuator (modify (λ w. store_laser_port (p w) w))
    unfolding store_laser_port
    store_laser-WithAttenuator p = Keeps-modify _ λ w h. h

    map_laser-WithAttenuator : Keeps WithAttenuator (map_laser host)
    unfolding map_laser
    map_laser-WithAttenuator =
        search
          (
            keeps_rules, Keeps-caught, on_laser-WithAttenuator, build_laser-WithAttenuator,
            store_laser-WithAttenuator,
          )
          depth 20

    on_meter-WithLaser :
        {A : Type 0} (a : A) (m : Action (PowerMeter sp.Port) A) → Keeps WithLaser (on_meter a m)
    unfolding on_meter
    on_meter-WithLaser a m = Keeps-through _ _ a m λ w d e h. h

    build_meter-WithLaser : Keeps WithLaser (build_meter host)
    unfolding build_meter
    build_meter-WithLaser =
        Keeps-bind _ _ (Keeps-gets _)
          λ c. Keeps-bind _ _ (Keeps-lift _) λ d. Keeps-modify _ λ w h. h

    store_meter-WithLaser :
        (p : State → Bytes) → Keeps WithLaser (modify (λ w. store_meter_port (p w) w))
    unfolding store_meter_port
    store_meter-WithLaser p = Keeps-modify _ λ w h. h

    map_power_meter-WithLaser : Keeps WithLaser (map_power_meter host)
    unfolding map_power_meter query_power_meter_settings
    map_power_meter-WithLaser =
        search
          (
            keeps_rules, Keeps-caught, on_meter-WithLaser, build_meter-WithLaser,
            store_meter-WithLaser,
          )
          depth 20

    -- An answer of 0 tells that the devices are there.
    abbrev Tells : ℕ → State → Type 0
    Tells ret w = ret ≡ 0 → IsMapped before w

    complete : (w : State) → WithLaser w → Has before.ignore_pm w.power_meter → IsMapped before w
    complete w h p = record {
      ignore_laser_same = h.0.0.0;
      ignore_pm_same = h.0.0.1;
      ignore_attenuator_same = h.0.0.2;
      attenuator_there = h.0.1;
      laser_there = h.1;
      meter_there = p;
    }

    pm_answer :
        (w : State) (ret : ℕ) → WithLaser w → Tells (if is_null w.power_meter then 1 else ret) w
    pm_answer w ret h e = complete w h λ i. elim (Bool-cases (is_null w.power_meter)) [
      | inl absent ↦ ground (arith, absent, e)
      | inr there ↦ there
    ]

    map_pm_last-Gives : (ret : ℕ) → Gives WithLaser Tells (map_pm_last host ret)
    unfolding map_pm_last pure
    map_pm_last-Gives ret = Gives-bind_gets _ _ λ w h.
        Given-if Tells w.ignore_pm _ _ w
          (λ ignored e. complete w h (Has-ignored _ _ (sym h.0.0.1 ∙ ignored)))
          λ asked.
            (Gives-bind _ _ map_power_meter-WithLaser
                λ ret'. Gives-bind_gets _ _ λ v k. pm_answer v ret' k).gives
              w h

    map_laser_next-Gives : (ret : ℕ) → Gives WithAttenuator Tells (map_laser_next host ret)
    unfolding map_laser_next pure
    map_laser_next-Gives ret = Gives-bind_gets _ _ λ w h.
        Given-if Tells w.ignore_laser _ _ w
          (λ ignored. (map_pm_last-Gives ret).gives w (h, Has-ignored _ _ (sym h.0.0 ∙ ignored)))
          λ asked.
            (Gives-bind _ _ map_laser-WithAttenuator λ ret'. Gives-bind_gets _ _ λ v k.
                Given-if Tells (is_null v.laser) _ _ v (λ missing e. ground (arith, e))
                  λ there. (map_pm_last-Gives ret').gives v (k, λ i. there)).gives
              w h

    map_devices-Gives : Gives Flags Tells (map_devices host)
    unfolding map_devices pure
    map_devices-Gives = Gives-bind_gets _ _ λ w h.
        Given-if Tells w.ignore_attenuator _ _ w
          (λ ignored. (map_laser_next-Gives 0).gives w (h, Has-ignored _ _ (sym h.2 ∙ ignored)))
          λ asked.
            (Gives-bind _ _ map_attenuator-Flags λ ret'. Gives-bind_gets _ _ λ v k.
                Given-if Tells (is_null v.attenuator) _ _ v (λ missing e. ground (arith, e))
                  λ there. (map_laser_next-Gives ret').gives v (k, λ i. there)).gives
              w h

  -- Whatever the ports do: where map_devices returns 0, it has left the flags as they were, and
  -- every device that they do not ignore is built.
  pub map_devices-IsMapped :
      (host : Host sp.Port) (m : State)
      → (map_devices host m).0 ≡ ok 0
      → IsMapped m (map_devices host m).1
  map_devices-IsMapped host m e =
      told (map_devices host m).0 (map_devices host m).1 e
        ((map_devices-Gives host m).gives m (refl, refl, refl))
    where
      told : (r : Result ℕ) (w : State) → r ≡ ok 0 → Given (Tells host m) r w → IsMapped m w
      told (ok n) w e g = g (ground (arith, e))
      told (err x) w e g = ground (arith, e)
