-- ===== src/Manager/Shutdown.antt =====
-- At the end of a session the laser is told to stop and its shutter to close.
pub mod Loop
pub mod Program
use mathlib.Core.List.{Memᴰ}
use mathlib.Core.List.Memᴰ
use laser_control.Manager.Pointers.{Keeps-through, Outcome-through}
use laser_control.Common.{
  ℕ, ⊤, Bool, true, false, ◌≡◌, refl, Option, none, some, List, [], ◌∷◌, ◌++◌, Bytes, codes,
  get_elem?, arith,
}
use laser_control.Effects.{Result, ok, err, Action, ◌>>=◌, pure}
use laser_control.Effects.Hoare.{Keeps, Keeps-pure}
use laser_control.Effects.Outcome.{
  Ends, Outcome, Outcome-Keeps, Outcome-bind, Outcome-modify, Outcome-weaken,
}
use laser_control.Std.Numbers.{show}
use laser_control.Std.Floating.{Floating}
use laser_control.Serial.{Serial}
use laser_control.Serial.Logged.{LoggedPort, logged}
use laser_control.Device.Sending.{IsFramed, destroy-IsFramed}
use laser_control.Laser as Lasers
use laser_control.Laser.{Laser, on_device}
use laser_control.Laser.Enums.{closed, stop}
use laser_control.Laser.Settings.{Settings}
use laser_control.Laser.Sending.{IsReady, Sends, device_ends, send_or_throw-Sends}
use laser_control.Attenuator.{Attenuator}
use laser_control.PowerMeter.{PowerMeter}
use laser_control.Manager.{Manager, through, on_laser, on_attenuator, on_meter}
use laser_control.Manager.LaserCommand.{retire_laser}
use laser_control.Manager.Mapping.{unmap_devices}

abbrev Any : {A : Type 0} → A → Type 0
Any a = Unit

-- The lamp was told to stop.
abbrev Stopped : List Bytes → Type 0
Stopped ws = Memᴰ (codes "ST 0\r") ws

-- And the latest message closes the shutter.
abbrev pub Closed : List Bytes → Type 0
Closed ws = Memᴰ (codes "ST 0\r") ws × (get_elem? ws 0 ≡ some (codes "SH 0\r"))

abbrev IsOff : {F : Type 0} → Settings F → Type 0
IsOff c = c.is_firing ≡ false

module _ (sp : Serial) ⦃fl : Floating⦄ where
  fire-Sends : Sends sp Any Stopped Any IsOff (Lasers.fire ⦃sp = logged sp⦄ stop)
  unfolding Lasers.fire show
  fire-Sends =
      Outcome-bind _ _
        (send_or_throw-Sends sp Any Stopped Any (codes "ST 0") _ (λ ws h. Memᴰ.head refl)
          (λ ws h. Memᴰ.head refl))
        λ _. Outcome-modify _ λ l held. record {
          framed = record {
            pre_set = held.framed.pre_set;
            sfx_set = held.framed.sfx_set;
            traffic = held.framed.traffic;
          };
          cached = refl;
        }

  shutter_close-Sends : Sends sp Stopped Closed IsOff IsOff (Lasers.shutter ⦃sp = logged sp⦄ closed)
  unfolding Lasers.shutter show
  shutter_close-Sends =
      send_or_throw-Sends sp Stopped Closed IsOff (codes "SH 0") _ (λ ws h. (Memᴰ.tail h, refl))
        (λ ws h. (Memᴰ.tail h.0, refl))

  retire_laser-Sends : Sends sp Any Closed Any IsOff (retire_laser ⦃sp = logged sp⦄)
  unfolding retire_laser
  retire_laser-Sends = Outcome-bind _ _ fire-Sends λ _. Outcome-bind _ _ shutter_close-Sends λ _.
      device_ends sp Closed Closed IsOff _
        (Outcome-Keeps _ (λ t h. tt) (λ t h. h) (destroy-IsFramed sp [] (codes "\r") Closed))

  abbrev World : Type 0
  World = Manager (LoggedPort sp) fl.Float fl.Double

  module _ (P : Option (Laser (LoggedPort sp) fl.Float) → Type 0) where
    pub on_meter-laser :
        {A : Type 0} (a : A) (m : Action (PowerMeter (LoggedPort sp)) A)
        → Keeps (λ w. P w.laser) (on_meter ⦃sp = logged sp⦄ a m)
    unfolding on_meter
    on_meter-laser a m = Keeps-through _ _ a m λ w p e held. held

    pub on_attenuator-laser :
        {A : Type 0} (a : A) (m : Action (Attenuator (LoggedPort sp) fl.Double) A)
        → Keeps (λ w. P w.laser) (on_attenuator ⦃sp = logged sp⦄ a m)
    unfolding on_attenuator
    on_attenuator-laser a m = Keeps-through _ _ a m λ w p e held. held

  module _ (P Q : Option (Laser (LoggedPort sp) fl.Float) → Type 0)
      (nothing : P none → Q none) where
    on_laser-laser :
        {A : Type 0} (a : A) (m : Action (Laser (LoggedPort sp) fl.Float) A)
        → Outcome (λ l. P (some l)) (λ l. Unit) (λ l. Q (some l)) m
        → Outcome (λ w. P w.laser) (λ w. Unit) (λ w. Q w.laser) (on_laser ⦃sp = logged sp⦄ a m)
    unfolding on_laser
    on_laser-laser a m h =
        Outcome-through _ _ a m (λ w e held. rw e (nothing (rw e at held)))
          λ w l e held. by_result (m l).0 (m l).1 w (h.ends l (rw e at held))
      where
        by_result :
            {A : Type 0} (r : Result A) (l : Laser (LoggedPort sp) fl.Float) (w : World)
            → Ends (λ l. Unit) (λ l. Q (some l)) r l
            → Ends (λ w. Unit) (λ w. Q w.laser) r (record w { laser = some l })
        by_result (ok x) l w e = e
        by_result (err x) l w e = tt

    pub unmap_devices-Outcome :
        Outcome (λ l. P (some l)) (λ l. Unit) (λ l. Q (some l)) (retire_laser ⦃sp = logged sp⦄)
        → Outcome (λ w. P w.laser) (λ w. Unit) (λ w. Q w.laser) (unmap_devices ⦃sp = logged sp⦄)
    unfolding unmap_devices
    unmap_devices-Outcome h =
        Outcome-bind _ _ (Outcome-Keeps _ (λ t h. tt) (λ t h. h) (on_meter-laser P _ _)) λ _.
          Outcome-bind _ _ (Outcome-Keeps _ (λ t h. tt) (λ t h. h) (on_attenuator-laser P _ _)) λ _.
            Outcome-bind _ _ (on_laser-laser _ _ h)
              λ _. Outcome-Keeps _ (λ t h. tt) (λ t h. h) (Keeps-pure 0)

  -- The laser's framing, as its constructor sets it.
  abbrev pub IsFramedLaser : Laser (LoggedPort sp) fl.Float → Type 0
  IsFramedLaser l = (l.com_pre ≡ []) × (l.com_sfx ≡ codes "\r")

  -- The laser takes itself not to be firing, it was told to stop, and the latest message closed the
  -- shutter.
  pub record IsRetired (l : Laser (LoggedPort sp) fl.Float) : Type 0 where
    pub not_firing : l.is_firing ≡ false
    pub told_to_stop : Memᴰ (codes "ST 0\r") l.serial.written
    pub shutter_closed : get_elem? l.serial.written 0 ≡ some (codes "SH 0\r")

  pub retire_laser-IsRetired :
      Outcome IsFramedLaser (λ l. Unit) IsRetired (retire_laser ⦃sp = logged sp⦄)
  retire_laser-IsRetired =
      Outcome-weaken
        (λ l held. record {
          not_firing = held.cached;
          told_to_stop = held.framed.traffic.0;
          shutter_closed = held.framed.traffic.1;
        })
        _
        (λ l held. record {
          framed = record { pre_set = held.0; sfx_set = held.1; traffic = tt };
          cached = tt;
        })
        retire_laser-Sends

  pub ok-Ends :
      {A : Type 0} (Q : World → Type 0) (r : Result A) (a : A) (w : World)
      → r ≡ ok a
      → Ends (λ w. Unit) Q r w
      → Q w
  ok-Ends Q (ok b) a w e h = h
  ok-Ends Q (err x) a w e h = absurd (ground (arith, e))
