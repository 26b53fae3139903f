-- ===== src/Device/Keeps.antt =====
-- Traffic of a device over a recording port: what reaches `write` is the command between prefix
-- and suffix, and nothing else is written.
use laser_control.Common.{◌≡◌, Bytes, ◌++◌, All, length, ◌==◌}
use laser_control.Effects.{Action, ◌>>=◌, pure, gets, on_part}
use laser_control.Effects.Hoare.{Keeps, keeps_rules, Keeps-bind, Keeps-bind_gets, Keeps-pure}
use laser_control.Serial.{Serial}
use laser_control.Serial.Logged.{LoggedPort, on_port, logged}
use laser_control.Device
use laser_control.Device.{Device, on_serial, is_open}

module _ (sp : Serial) (IsFrame : Bytes → Type 0) (pre sfx : Bytes) where
  -- The prefix and the suffix are as set, and every recorded message is a frame.
  pub record IsClean (d : Device (LoggedPort sp)) : Type 0 where
    pub pre_set : d.com_pre ≡ pre
    pub sfx_set : d.com_sfx ≡ sfx
    pub traffic : All IsFrame d.serial.written

  -- A call of the port that is no write.
  pub quiet-IsClean : {A : Type 0} (m : Action sp.Port A) → Keeps IsClean (on_serial (on_port sp m))
  unfolding on_serial on_part
  quiet-IsClean m = record {
    after =
        λ d held. record { pre_set = held.pre_set; sfx_set = held.sfx_set; traffic = held.traffic };
  }

  send-IsClean : (msg : Bytes) → IsFrame msg → Keeps IsClean (on_serial ((logged sp).write msg))
  unfolding on_serial on_part
  send-IsClean msg frame = record {
    after = λ d held. record {
      pre_set = held.pre_set;
      sfx_set = held.sfx_set;
      traffic = (frame, held.traffic);
    };
  }

  -- From the framing on, `write_cmd` hands the framed command to the port.
  frame_and_send :
      (cmd : Bytes)
      → IsFrame (pre ++ (cmd ++ sfx))
      → Keeps IsClean (
          gets (λ d. d.com_pre ++ (cmd ++ d.com_sfx)) >>= λ msg.
          on_serial ((logged sp).write msg) >>= λ n. pure (n == length msg))
  frame_and_send cmd frame = Keeps-bind_gets _ _ λ d held.
      (Keeps-bind _ _ (send-IsClean _ (rw (held.pre_set, held.sfx_set) frame))
          (λ n. Keeps-pure _)).after
        d held

  pub write_cmd-IsClean :
      (cmd : Bytes)
      → IsFrame (pre ++ (cmd ++ sfx))
      → Keeps IsClean (Device.write_cmd ⦃sp = logged sp⦄ cmd)
  unfolding Device.write_cmd is_open
  write_cmd-IsClean cmd frame = search (keeps_rules, quiet-IsClean, frame_and_send)

  pub reset_connection-IsClean : Keeps IsClean (Device.reset_connection ⦃sp = logged sp⦄)
  unfolding Device.reset_connection
  reset_connection-IsClean = search (keeps_rules, quiet-IsClean)

  pub read_lines-IsClean : Keeps IsClean (Device.read_lines ⦃sp = logged sp⦄)
  unfolding Device.read_lines
  read_lines-IsClean = search (keeps_rules, quiet-IsClean)

  pub read_cmd-IsClean : (answer : Bytes) → Keeps IsClean (Device.read_cmd ⦃sp = logged sp⦄ answer)
  unfolding Device.read_cmd
  read_cmd-IsClean answer = search (keeps_rules, quiet-IsClean)
