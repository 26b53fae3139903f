-- ===== src/LaserSim/Histories.antt =====
-- A run of the laser as a run of its simulation in which some calls fail.
use laser_control.Common.{⊤, Bool, true, false, ◌≡◌, ◌⊎◌, inl, inr, refl, List, [], ◌∷◌}
use laser_control.Effects.{Result, ok, err}
use laser_control.Effects.Outcome.{Ends, is_ok}
use laser_control.Std.Floating.{Floating}
use laser_control.Serial.{Serial}
use laser_control.Laser.{Laser}
use laser_control.Laser.Settings.{Settings, settings}
use laser_control.Laser.Ops.{Op, call, run, returns}
use laser_control.LaserSim.{LaserSim}
use laser_control.LaserSim.Cached.{sim_settings, sim_call, AfterThrow}
use laser_control.LaserSim.Refines.{call_follows_sim}

module _ ⦃fl : Floating⦄ where
  open fl use {Float}

  -- The simulation goes from one state to another by the calls that return; one that throws does
  -- nothing, but for a single shot, which may have cleared the prescale.
  pub data History : List (Op Float) → List Bool → LaserSim Float → LaserSim Float → Type 0 where
    done : {s : LaserSim Float} → History [] [] s s
    returned :
        {op : Op Float} {ops : List (Op Float)} {bs : List Bool} {s t : LaserSim Float}
        → (sim_call op s).0 ≡ ok tt
        → History ops bs (sim_call op s).1 t
        → History (op ∷ ops) (true ∷ bs) s t
    threw :
        {op : Op Float} {ops : List (Op Float)} {bs : List Bool} {s t : LaserSim Float}
        → History ops bs s t
        → History (op ∷ ops) (false ∷ bs) s t
    half_shot :
        {ops : List (Op Float)} {bs : List Bool} {s t : LaserSim Float}
        → History ops bs (record s { prescale = 0 }) t
        → History (Op.single_shot ∷ ops) (false ∷ bs) s t

  thrown :
      (op : Op Float) (c d : Settings Float)
      → AfterThrow op c d
      → (d ≡ c) ⊎ ((op ≡ Op.single_shot) × (d ≡ record c { prescale = 0 }))
  thrown Op.single_shot c d (inl e) = inl e
  thrown Op.single_shot c d (inr e) = inr (refl, e)
  thrown (Op.shutter x) c d e = inl e
  thrown (Op.fire x) c d e = inl e
  thrown (Op.set_prescale n) c d e = inl e
  thrown (Op.set_pump_voltage hv) c d e = inl e
  thrown Op.get_shot_count c d e = inl e
  thrown Op.security c d e = inl e
  thrown Op.security_u16 c d e = inl e
  thrown Op.security_enum c d e = inl e
  thrown (Op.set_repetition_rate r) c d e = inl e
  thrown (Op.set_qswitch n) c d e = inl e

module _ ⦃sp : Serial⦄ ⦃fl : Floating⦄ where
  open fl use {Float}

  -- The simulation can end where the laser's settings end.
  abbrev pub HasHistory : List (Op Float) → Laser sp.Port Float → LaserSim Float → Type 0
  HasHistory ops l s =
      (t : LaserSim Float) × History ops (returns ops l) s t
      × (settings (run ops l) ≡ sim_settings t)

  module _ (op : Op Float) (ops : List (Op Float)) (l : Laser sp.Port Float)
      (rest : (s : LaserSim Float) → settings l ≡ sim_settings s → HasHistory ops l s) where
    abbrev Continues : Bool → LaserSim Float → Type 0
    Continues b s =
        (t : LaserSim Float) × History (op ∷ ops) (b ∷ returns ops l) s t
        × (settings (run ops l) ≡ sim_settings t)

    unchanged : (s : LaserSim Float) → settings l ≡ sim_settings s → Continues false s
    unchanged s e = let (t, h, k) = rest s e in (t, threw h, k)

    after_throw :
        (s : LaserSim Float) → AfterThrow op (sim_settings s) (settings l) → Continues false s
    after_throw s e = elim (thrown op (sim_settings s) (settings l) e) [
      | inl same ↦ unchanged s same
      | inr (shot, cleared) ↦
          let (t, h, k) = rest (record s { prescale = 0 }) cleared in (t, rw shot (half_shot h), k)
    ]

    after_call :
        (r : Result ⊤) (s : LaserSim Float)
        → Ends
            (λ l'. AfterThrow op (sim_settings s) (settings l'))
            (λ l'. ((sim_call op s).0 ≡ ok tt) × (settings l' ≡ sim_settings (sim_call op s).1))
            r
            l
        → Continues (is_ok r) s
    after_call (ok u) s e = let (t, h, k) = rest (sim_call op s).1 e.1 in (t, returned e.0 h, k)
    after_call (err x) s e = after_throw s e

  -- Whatever the port does: from equal settings, a run of the laser in which some calls return and
  -- some throw leaves the settings that a history of the simulation leaves, in which the same calls
  -- return and the others do nothing, except that a single shot that throws may have cleared the
  -- prescale.
  pub run-HasHistory :
      (ops : List (Op Float)) (l : Laser sp.Port Float) (s : LaserSim Float)
      → settings l ≡ sim_settings s
      → HasHistory ops l s
  unfolding run returns
  run-HasHistory [] l s e = (s, done, e)
  run-HasHistory (op ∷ ops) l s e =
      after_call op ops (call op l).1 (run-HasHistory ops (call op l).1) (call op l).0 s
        (call_follows_sim s op l e)
