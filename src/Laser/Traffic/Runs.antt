-- ===== src/Laser/Traffic/Runs.antt =====
-- However long a client goes on, what the messages say is what the laser caches.
use laser_control.Common.{⊤, ◌≡◌, refl, arith, List, [], ◌∷◌, codes, ltb, if◌then◌else◌}
use laser_control.Effects.{Result, ok, err, Action, ◌>>◌, pure}
use laser_control.Effects.Hoare.{Keeps, Keeps-bind, Keeps-pure}
use laser_control.Effects.Outcome.{Ends, Outcome, Outcome-Keeps, Outcome-bind, Outcome-weaken}
use laser_control.Std.Floating.{Floating}
use laser_control.Serial.{Serial}
use laser_control.Serial.Logged.{LoggedPort, logged}
use laser_control.Device.{Device}
use laser_control.Device.Sending.{IsFramed}
use laser_control.Laser.{Laser}
use laser_control.Laser.Enums.{is_start}
use laser_control.Laser.Settings.{Settings, settings}
use laser_control.Laser.Ops.{Op, call, run_all}
use laser_control.Laser.Sending.{IsReady}
use laser_control.Laser.Traffic.{told, Agrees}
use laser_control.Laser.Traffic.Calls.{
  Spells, Is, Sets, fire-Sets, shutter-Sets, prescale-Sets, qswitch-Sets, voltage-Sets, rate-Sets,
  single_shot-Sets,
}
use laser_control.Laser.Traffic.Queries.{security-keeps, u16-keeps, enum-keeps, shot_count-keeps}

module _ (sp : Serial) ⦃fl : Floating⦄ where
  abbrev LoggedLaser : Type 0
  LoggedLaser = Laser (LoggedPort sp) fl.Float

  -- The laser's framing, and messages that say what is cached.
  abbrev pub IsSynced : LoggedLaser → Type 0
  IsSynced l = IsFramed sp [] (codes "\r") (Spells sp (settings l)) l.device

  IsFramed-moved :
      (c c' : Settings fl.Float) (d : Device (LoggedPort sp))
      → c ≡ c'
      → IsFramed sp [] (codes "\r") (Spells sp c') d
      → IsFramed sp [] (codes "\r") (Spells sp c) d
  IsFramed-moved c c' d e h = rw e h

  Syncs : Action LoggedLaser ⊤ → Type 0
  Syncs m = Outcome IsSynced (λ l. Unit) IsSynced m

  Sets-Syncs :
      (m : Action LoggedLaser ⊤) (update : Settings fl.Float → Settings fl.Float)
      → ((c : Settings fl.Float) → Sets sp c (update c) m)
      → Syncs m
  unfolding Syncs
  Sets-Syncs m update h = record {
    ends = λ l held.
        (Outcome-weaken
            (λ l' k. IsFramed-moved (settings l') (update (settings l)) l'.device k.cached k.framed)
            m (λ l' k. k) (h (settings l))).ends
          l (record { framed = held; cached = refl });
  }

  asks-Syncs :
      {A : Type 0} (m : Action LoggedLaser A)
      → ((c : Settings fl.Float) → Keeps (IsReady sp (Spells sp c) (Is sp c)) m)
      → Syncs (m >> pure tt)
  asks-Syncs m h =
      Sets-Syncs _ (λ c. c)
        λ c. Outcome-Keeps _ (λ l k. tt) (λ l k. k) (Keeps-bind _ _ (h c) λ a. Keeps-pure tt)

  call-Syncs : (op : Op fl.Float) → Syncs (call ⦃sp = logged sp⦄ op)
  unfolding call
  call-Syncs (Op.shutter s) = Sets-Syncs _ (λ c. c) (shutter-Sets sp s)
  call-Syncs (Op.fire s) = Sets-Syncs _ (λ c. record c { is_firing = is_start s }) (fire-Sets sp s)
  call-Syncs (Op.set_prescale n) =
      Sets-Syncs _ (λ c. record c { prescale = if ltb 99 n then 99 else n }) (prescale-Sets sp n)
  call-Syncs (Op.set_pump_voltage hv) =
      Sets-Syncs _ (λ c. record c { pump_hv = hv }) (voltage-Sets sp hv)
  call-Syncs Op.single_shot = Sets-Syncs _ (λ c. record c { prescale = 0 }) (single_shot-Sets sp)
  call-Syncs Op.get_shot_count = asks-Syncs _ (shot_count-keeps sp)
  call-Syncs Op.security = asks-Syncs _ (security-keeps sp)
  call-Syncs Op.security_u16 = asks-Syncs _ (u16-keeps sp)
  call-Syncs Op.security_enum = asks-Syncs _ (enum-keeps sp)
  call-Syncs (Op.set_repetition_rate r) = Sets-Syncs _ (λ c. record c { rate = r }) (rate-Sets sp r)
  call-Syncs (Op.set_qswitch n) =
      Sets-Syncs _ (λ c. record c { qswitch = if ltb 999 n then 999 else n }) (qswitch-Sets sp n)

  run_all-Syncs : (ops : List (Op fl.Float)) → Syncs (run_all ⦃sp = logged sp⦄ ops)
  unfolding run_all Syncs
  run_all-Syncs [] = Outcome-Keeps _ (λ l k. tt) (λ l k. k) (Keeps-pure tt)
  run_all-Syncs (op ∷ ops) = Outcome-bind _ _ (call-Syncs op) λ u. run_all-Syncs ops

  -- Whatever the port does: if the messages said what is cached, and every call of a sequence
  -- returns, then the messages, read without the code that writes them, say again what is cached:
  -- the lamp, the pulse division, the delay, and the texts of the voltage and of the rate are the
  -- ones that were ordered last.
  pub run_all-Agrees :
      (ops : List (Op fl.Float)) (l : LoggedLaser)
      → IsSynced l
      → (run_all ⦃sp = logged sp⦄ ops l).0 ≡ ok tt
      → let l' = (run_all ⦃sp = logged sp⦄ ops l).1 in Agrees (told l'.serial.written) (settings l')
  unfolding Syncs
  run_all-Agrees ops l synced e =
      returned (run_all ⦃sp = logged sp⦄ ops l).0 _ e ((run_all-Syncs ops).ends l synced)
    where
      returned :
          (r : Result ⊤) (l' : LoggedLaser)
          → r ≡ ok tt
          → Ends (λ l. Unit) IsSynced r l'
          → Agrees (told l'.serial.written) (settings l')
      returned (ok u) l' e h = h.traffic
      returned (err x) l' e h = ground (arith, e)
