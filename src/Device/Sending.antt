-- ===== src/Device/Sending.antt =====
-- What `write_cmd` adds to the messages of a recording port, whatever else is said of them.
use laser_control.Common.{◌≡◌, List, ◌∷◌, ◌++◌, Bytes, ◌==◌, length}
use laser_control.Effects.{Action, ◌>>=◌, pure, gets, on_part}
use laser_control.Effects.Hoare.{
  Keeps, keeps_rules, Keeps-pure, Keeps-gets, Keeps-bind, Keeps-bind_gets,
}
use laser_control.Effects.Outcome.{
  Outcome, Ends-always, Outcome-Keeps, Outcome-bind, Outcome-bind_gets,
}
use laser_control.Serial.{Serial}
use laser_control.Serial.Logged.{LoggedPort, on_port, logged}
use laser_control.Device
use laser_control.Device.{Device, on_serial, is_open}

module _ (sp : Serial) (pre sfx : Bytes) where
  -- The framing is as set, and the messages, the latest first, are as `W` says.
  pub record IsFramed (W : List Bytes → Type 0) (d : Device (LoggedPort sp)) : Type 0 where
    pub pre_set : d.com_pre ≡ pre
    pub sfx_set : d.com_sfx ≡ sfx
    pub traffic : W d.serial.written

  module _ (W : List Bytes → Type 0) where
    pub quiet-IsFramed :
        {A : Type 0} (m : Action sp.Port A) → Keeps (IsFramed W) (on_serial (on_port sp m))
    unfolding on_serial on_part
    quiet-IsFramed m = record {
      after = λ d held. record {
        pre_set = held.pre_set;
        sfx_set = held.sfx_set;
        traffic = held.traffic;
      };
    }

    pub reset_connection-IsFramed : Keeps (IsFramed W) (Device.reset_connection ⦃sp = logged sp⦄)
    unfolding Device.reset_connection
    reset_connection-IsFramed = search (keeps_rules, quiet-IsFramed)

    pub read_lines-IsFramed : Keeps (IsFramed W) (Device.read_lines ⦃sp = logged sp⦄)
    unfolding Device.read_lines
    read_lines-IsFramed = search (keeps_rules, quiet-IsFramed)

    pub destroy-IsFramed : Keeps (IsFramed W) (Device.destroy ⦃sp = logged sp⦄)
    unfolding Device.destroy Device.close is_open
    destroy-IsFramed = search (keeps_rules, quiet-IsFramed) depth 12

  module _ (W V : List Bytes → Type 0) (cmd : Bytes)
      (adds : (ws : List Bytes) → W ws → V ((pre ++ (cmd ++ sfx)) ∷ ws)) where
    write-sends :
        (msg : Bytes)
        → msg ≡ pre ++ (cmd ++ sfx)
        → Outcome (IsFramed W) (λ d. Unit) (IsFramed V) (on_serial ((logged sp).write msg))
    unfolding on_serial on_part
    write-sends msg e = record {
      ends = λ d held. Ends-always (IsFramed V) (sp.write msg d.serial.port).0 _ (record {
        pre_set = held.pre_set;
        sfx_set = held.sfx_set;
        traffic = rw e (adds d.serial.written held.traffic);
      });
    }

    -- The last steps of `write_cmd`.
    frame-sends :
        Outcome
          (IsFramed W)
          (λ d. Unit)
          (IsFramed V)
          (gets (λ d. d.com_pre ++ (cmd ++ d.com_sfx)) >>= λ msg.
            on_serial ((logged sp).write msg) >>= λ n. pure (n == length msg))
    frame-sends = Outcome-bind_gets _ _ λ d held.
        (Outcome-bind _ _ (write-sends _ (simp (held.pre_set, held.sfx_set)))
            λ n. Outcome-Keeps _ (λ t h. tt) (λ t h. h) (Keeps-pure _)).ends
          d held

    -- The other steps, which send nothing.
    quiet-first :
        {A : Type 0} (m : Action (Device (LoggedPort sp)) A)
        → Keeps (IsFramed W) m
        → Outcome (IsFramed W) (λ d. Unit) (IsFramed W) m
    quiet-first m h = Outcome-Keeps m (λ t held. tt) (λ t held. held) h

    pub write_cmd-sends :
        Outcome (IsFramed W) (λ d. Unit) (IsFramed V) (Device.write_cmd ⦃sp = logged sp⦄ cmd)
    unfolding Device.write_cmd is_open
    write_cmd-sends = Outcome-bind _ _ (quiet-first _ (Keeps-gets _)) λ opened.
        Outcome-bind _ _ (quiet-first _ (search (keeps_rules, quiet-IsFramed))) λ _.
          Outcome-bind _ _ (quiet-first _ (quiet-IsFramed _ _))
            λ _. Outcome-bind _ _ (quiet-first _ (quiet-IsFramed _ _)) λ _. frame-sends

  -- A message that `W` allows at any time.
  module _ (W : List Bytes → Type 0) (cmd : Bytes)
      (adds : (ws : List Bytes) → W ws → W ((pre ++ (cmd ++ sfx)) ∷ ws)) where
    write-IsFramed : Keeps (IsFramed W) (
        gets (λ d. d.com_pre ++ (cmd ++ d.com_sfx)) >>= λ msg.
        on_serial ((logged sp).write msg) >>= λ n. pure (n == length msg))
    unfolding on_serial on_part
    write-IsFramed = Keeps-bind_gets _ _ λ d held.
        (Keeps-bind _ _ (put _ (simp (held.pre_set, held.sfx_set))) λ n. Keeps-pure _).after d held
      where
        put :
            (msg : Bytes)
            → msg ≡ pre ++ (cmd ++ sfx)
            → Keeps (IsFramed W) (on_serial ((logged sp).write msg))
        put msg e = record {
          after = λ d held. record {
            pre_set = held.pre_set;
            sfx_set = held.sfx_set;
            traffic = rw e (adds d.serial.written held.traffic);
          };
        }

    pub write_cmd-IsFramed : Keeps (IsFramed W) (Device.write_cmd ⦃sp = logged sp⦄ cmd)
    unfolding Device.write_cmd is_open
    write_cmd-IsFramed = Keeps-bind _ _ (Keeps-gets _) λ opened.
        Keeps-bind _ _ (search (keeps_rules, quiet-IsFramed)) λ _.
          Keeps-bind _ _ (quiet-IsFramed W _)
            λ _. Keeps-bind _ _ (quiet-IsFramed W _) λ _. write-IsFramed
