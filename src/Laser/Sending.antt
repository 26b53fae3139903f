-- ===== src/Laser/Sending.antt =====
-- What a command of the laser that returns has handed to a recording port, whatever was recorded
-- before and whether or not the retry was needed.
use laser_control.Common.{Bool, true, false, not, List, [], ◌∷◌, ◌++◌, String, Bytes, codes}
use laser_control.Effects.{
  Result, ok, err, on_part, Action, ◌>>=◌, ◌>>◌, io_exception, when, throw_if,
}
use laser_control.Effects.Hoare.{Keeps, keeps_rules, Keeps-pure, Keeps-throw_if, Keeps-on_part}
use laser_control.Effects.Outcome.{Ends, Outcome, Outcome-Keeps, Outcome-bind}
use laser_control.Std.Floating.{Floating}
use laser_control.Serial.{Serial}
use laser_control.Serial.Logged.{LoggedPort, logged}
use laser_control.Device as Dev
use laser_control.Device.{Device}
use laser_control.Device.Sending.{
  IsFramed, reset_connection-IsFramed, read_lines-IsFramed, write_cmd-IsFramed, write_cmd-sends,
}
use laser_control.Laser
use laser_control.Laser.{Laser, on_device}
use laser_control.Laser.Settings.{Settings, settings}

module _ (sp : Serial) ⦃fl : Floating⦄ where
  abbrev LoggedLaser : Type 0
  LoggedLaser = Laser (LoggedPort sp) fl.Float

  -- The laser's framing, and what is said of the messages, the latest first, and of the settings.
  pub record IsReady (W : List Bytes → Type 0) (F : Settings fl.Float → Type 0) (l : LoggedLaser)
      : Type 0 where
    pub framed : IsFramed sp [] (codes "\r") W l.device
    pub cached : F (settings l)

  abbrev pub Sends :
      {A : Type 0}
      → (W V : List Bytes → Type 0) (F G : Settings fl.Float → Type 0) → Action LoggedLaser A
      → Type 0
  Sends W V F G m = Outcome (IsReady W F) (λ l. Unit) (IsReady V G) m

  module _ (W V : List Bytes → Type 0) (F : Settings fl.Float → Type 0) where
    pub device_ends :
        {A : Type 0} (m : Action (Device (LoggedPort sp)) A)
        → Outcome (IsFramed sp [] (codes "\r") W) (λ d. Unit) (IsFramed sp [] (codes "\r") V) m
        → Sends W V F F (on_device m)
    unfolding on_device on_part
    device_ends m h = record {
      ends = λ l held.
          by_result (m l.device).0 (m l.device).1 l held.cached (h.ends l.device held.framed);
    }
      where
        by_result :
            {A : Type 0} (r : Result A) (d : Device (LoggedPort sp)) (l : LoggedLaser)
            → F (settings l)
            → Ends (λ d. Unit) (IsFramed sp [] (codes "\r") V) r d
            → Ends (λ l. Unit) (IsReady V F) r (record l { device = d })
        by_result (ok a) d l f e = record { framed = e; cached = f }
        by_result (err x) d l f e = tt

  module _ (W V : List Bytes → Type 0) (F : Settings fl.Float → Type 0) (cmd : Bytes)
      (message : String) (first : (ws : List Bytes) → W ws → V ((cmd ++ codes "\r") ∷ ws))
      (again : (ws : List Bytes) → V ws → V ((cmd ++ codes "\r") ∷ ws)) where
    retry_ends :
        (success : Bool)
        → Sends V V F F (
            when (not success) (
              Laser.reset_connection ⦃sp = logged sp⦄
              >> (Laser.write_cmd ⦃sp = logged sp⦄ cmd >>= λ b.
                  throw_if (not b) (io_exception message))))
    unfolding Laser.reset_connection Laser.write_cmd
    retry_ends true = Outcome-Keeps _ (λ t h. tt) (λ t h. h) (Keeps-pure tt)
    retry_ends false =
        Outcome-bind _ _
          (device_ends V V F _ (
            Outcome-Keeps _ (λ t h. tt) (λ t h. h)
              (reset_connection-IsFramed sp [] (codes "\r") V)))
          λ _.
            Outcome-bind _ _
              (device_ends V V F _ (write_cmd-sends sp [] (codes "\r") V V cmd again))
              λ b. Outcome-Keeps _ (λ t h. tt) (λ t h. h) (Keeps-throw_if _ _)

    -- A command that went out, perhaps twice, has its message recorded.
    pub send_or_throw-Sends : Sends W V F F (Laser.send_or_throw ⦃sp = logged sp⦄ cmd message)
    unfolding Laser.send_or_throw Laser.write_cmd
    send_or_throw-Sends =
        Outcome-bind _ _ (device_ends W V F _ (write_cmd-sends sp [] (codes "\r") W V cmd first))
          retry_ends

  module _ (W : List Bytes → Type 0) (F : Settings fl.Float → Type 0) where
    pub device-IsReady :
        {A : Type 0} (m : Action (Device (LoggedPort sp)) A)
        → Keeps (IsFramed sp [] (codes "\r") W) m
        → Keeps (IsReady W F) (on_device m)
    unfolding on_device
    device-IsReady m h =
        Keeps-on_part _ _ m
          λ l held. record { framed = h.after l.device held.framed; cached = held.cached }

    pub reset_connection-IsReady : Keeps (IsReady W F) (Laser.reset_connection ⦃sp = logged sp⦄)
    unfolding Laser.reset_connection
    reset_connection-IsReady = device-IsReady _ (reset_connection-IsFramed sp [] (codes "\r") W)

    pub read_lines-IsReady :
        Keeps (IsReady W F) (on_device {F = fl.Float} (Dev.read_lines ⦃sp = logged sp⦄))
    read_lines-IsReady = device-IsReady _ (read_lines-IsFramed sp [] (codes "\r") W)

    pub write_cmd-IsReady :
        (cmd : Bytes)
        → ((ws : List Bytes) → W ws → W ((cmd ++ codes "\r") ∷ ws))
        → Keeps (IsReady W F) (Laser.write_cmd ⦃sp = logged sp⦄ cmd)
    unfolding Laser.write_cmd
    write_cmd-IsReady cmd adds = device-IsReady _ (write_cmd-IsFramed sp [] (codes "\r") W cmd adds)

    -- A message that changes nothing of what `W` says.
    pub send_or_throw-IsReady :
        (cmd : Bytes) (message : String)
        → ((ws : List Bytes) → W ws → W ((cmd ++ codes "\r") ∷ ws))
        → Keeps (IsReady W F) (Laser.send_or_throw ⦃sp = logged sp⦄ cmd message)
    unfolding Laser.send_or_throw
    send_or_throw-IsReady cmd message adds =
        search (keeps_rules, reset_connection-IsReady, write_cmd-IsReady) depth 12
