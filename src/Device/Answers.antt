-- ===== src/Device/Answers.antt =====
-- On a port that takes what it is given, the calls that open, command and close a device answer,
-- whether the port is open before or not.
use laser_control.Common.{Bool, true, false, ◌≡◌, refl, ◌==◌, Bytes, length, arith, ◌++◌}
use laser_control.Effects.{pure, gets, on_part, ◌>>=◌, ◌>>◌, Action}
use laser_control.Effects.Answers.{Any, Answers, Replies}
use laser_control.Serial.{Serial}
use laser_control.Serial.Accepts.{Accepts}
use laser_control.Device.{Device, on_serial, is_open, close, destroy, write_cmd, reset_connection}

module _ ⦃sp : Serial⦄ (port : Accepts sp) where
  destroy-Replies :
      (now : Bool) (d : Device sp.Port)
      → sp.is_open d.serial ≡ now
      → Replies Any (destroy ⦃sp = sp⦄ d).0
  unfolding destroy close is_open ◌>>=◌ on_serial on_part
  destroy-Replies true d h = rw (h, (port.closes d.serial).0) tt
  destroy-Replies false d h = rw h tt

  pub destroy-Answers : Answers Any (destroy ⦃sp = sp⦄)
  destroy-Answers = record { answers = λ d. destroy-Replies (sp.is_open d.serial) d refl }

  -- The port is closed first, so that it can be opened.
  pub reset_connection-Answers : Answers Any (reset_connection ⦃sp = sp⦄)
  unfolding reset_connection ◌>>=◌ on_serial on_part
  reset_connection-Answers = record {
    answers = λ d.
        let (closed, is_closed) = port.closes d.serial in
        let (opened, _) = port.opens (sp.close_port d.serial).1 is_closed in rw (closed, opened) tt;
  }

  -- The part of `write_cmd` behind the test of the port.
  written : Bytes → Action (Device sp.Port) Bool
  written cmd = do
    on_serial sp.flush_input
    on_serial sp.flush_output
    msg ← gets (λ d. d.com_pre ++ (cmd ++ d.com_sfx))
    n ← on_serial (sp.write msg)
    pure (n == length msg)

  written-true :
      (cmd : Bytes) (d : Device sp.Port)
      → sp.is_open d.serial ≡ true
      → Replies (λ b. b ≡ true) (written cmd d).0
  unfolding written ◌>>=◌ on_serial on_part
  written-true cmd d h =
      let (i, i_open) = port.flushes_input d.serial h in
      let (o, o_open) = port.flushes_output (sp.flush_input d.serial).1 i_open in
      let w =
        port.writes (d.com_pre ++ (cmd ++ d.com_sfx))
          (sp.flush_output (sp.flush_input d.serial).1).1 o_open in
      rw (i, o, w) (ground arith)

  write_cmd-Replies :
      (cmd : Bytes) (now : Bool) (d : Device sp.Port)
      → sp.is_open d.serial ≡ now
      → Replies (λ b. b ≡ true) (write_cmd ⦃sp = sp⦄ cmd d).0
  unfolding write_cmd is_open written ◌>>=◌ on_serial on_part
  write_cmd-Replies cmd true d h = rw h (written-true cmd d h)
  write_cmd-Replies cmd false d h =
      let (opened, now_open) = port.opens d.serial h in
      rw (h, opened) (written-true cmd (record d { serial = (sp.open_port d.serial).1 }) now_open)

  -- And a command is written.
  pub write_cmd-Answers : (cmd : Bytes) → Answers (λ b. b ≡ true) (write_cmd ⦃sp = sp⦄ cmd)
  write_cmd-Answers cmd = record {
    answers = λ d. write_cmd-Replies cmd (sp.is_open d.serial) d refl;
  }
