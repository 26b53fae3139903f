-- ===== src/Serial/Logged.antt =====
-- A serial port that also records what is handed to `write`, for statements about the traffic.
use laser_control.Common.{Bytes, List, ◌∷◌}
use laser_control.Effects.{Action, on_part}
use laser_control.Serial.{Serial}

module _ (sp : Serial) where
  pub record LoggedPort : Type 0 where
    pub port : sp.Port
    -- the latest message first
    pub written : List Bytes

  abbrev pub on_port : {A : Type 0} → Action sp.Port A → Action LoggedPort A
  on_port = on_part (λ l. l.port) (λ p l. record l { port = p })

  abbrev pub logged : Serial
  logged = record {
    Port = LoggedPort;
    is_open = λ l. sp.is_open l.port;
    open_port = on_port sp.open_port;
    close_port = on_port sp.close_port;
    flush_input = on_port sp.flush_input;
    flush_output = on_port sp.flush_output;
    write = λ msg l.
        let (r, p) = sp.write msg l.port in (r, record { port = p; written = msg ∷ l.written });
    readline = λ n eol. on_port (sp.readline n eol);
    readlines = λ n eol. on_port (sp.readlines n eol);
    wait_readable = on_port sp.wait_readable;
    set_port = λ name. on_port (sp.set_port name);
    set_baudrate = λ b. on_port (sp.set_baudrate b);
    set_8n1 = on_port sp.set_8n1;
    set_timeout = λ ms. on_port (sp.set_timeout ms);
  }
