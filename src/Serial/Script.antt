-- ===== src/Serial/Script.antt =====
-- A concrete port for the examples: an instrument that follows a script.
use laser_control.Common.{ℕ, Bool, true, false, Bytes, List, [], ◌∷◌, length, if◌then◌else◌}
use laser_control.Effects.{Result, ok, err, port_not_opened, Action, pure, modify}
use laser_control.Serial.{Serial}

pub record ScriptPort : Type 0 where
  pub opened : Bool
  -- whether each write goes through; at the end of the list all do
  pub accepts : List Bool
  -- the line that each read returns; at the end of the list the reads time out
  pub answers : List Bytes
  -- the lines that each `readlines` returns
  pub batches : List (List Bytes)
  -- the accepted messages, the latest first
  pub received : List Bytes

abbrev take_write : List Bool → Bytes → ScriptPort → Result ℕ × ScriptPort
take_write [] msg p = (ok (length msg), record p { received = msg ∷ p.received })
take_write (true ∷ bs) msg p =
    (ok (length msg), record p { accepts = bs; received = msg ∷ p.received })
take_write (false ∷ bs) msg p = (ok 0, record p { accepts = bs })

abbrev take_line : List Bytes → ScriptPort → Result Bytes × ScriptPort
take_line [] p = (ok [], p)
take_line (l ∷ ls) p = (ok l, record p { answers = ls })

abbrev take_batch : List (List Bytes) → ScriptPort → Result (List Bytes) × ScriptPort
take_batch [] p = (ok [], p)
take_batch (b ∷ bs) p = (ok b, record p { batches = bs })

abbrev if_open : {A : Type 0} → Action ScriptPort A → Action ScriptPort A
if_open m p = if p.opened then m p else (err (port_not_opened "script"), p)

abbrev pub script : Serial
script = record {
  Port = ScriptPort;
  is_open = λ p. p.opened;
  open_port = modify (λ p. record p { opened = true });
  close_port = modify (λ p. record p { opened = false });
  flush_input = pure tt;
  flush_output = pure tt;
  write = λ msg. if_open (λ p. take_write p.accepts msg p);
  readline = λ n eol. if_open (λ p. take_line p.answers p);
  readlines = λ n eol. if_open (λ p. take_batch p.batches p);
  wait_readable = pure true;
  set_port = λ name. pure tt;
  set_baudrate = λ b. pure tt;
  set_8n1 = pure tt;
  set_timeout = λ ms. pure tt;
}
