-- ===== src/Manager/Tests/Answers.antt =====
-- An example of how the program ends, over ports that write every message.
use laser_control.Common.{
  Bool, if◌then◌else◌, refl, true, false, none, List, [], ◌∷◌, Bytes, codes, length,
}
use laser_control.Common.Int.{ℤ}
use laser_control.Effects.{Action, ok, err, port_not_opened, serial_exception}
use laser_control.Std.Floating.Thousandths.{thousandths}
use laser_control.Serial.{Serial}
use laser_control.Serial.Accepts.{Accepts}
use laser_control.Manager.{Host, Manager}
use laser_control.Manager.Codes.{IsPlainCode}
use laser_control.Manager.Session.{Flag, main}
use laser_control.Manager.Answers.Program.{main_answers}
use laser_control.Manager.Tests.{only_laser, lines, no_device}

-- What an instrument delivers, one batch of lines after the other.
abbrev Batches : Type 0
Batches = List (List Bytes)

-- A port that the library has: opening throws when it is open, flushing and writing throw when it is
-- closed. It says whether it is open, beside the batches.
abbrev Obliging : Type 0
Obliging = Bool × Batches

abbrev next_batch : Action Obliging (List Bytes)
next_batch (o, []) = (ok [], (o, []))
next_batch (o, b ∷ bs) = (ok b, (o, bs))

abbrev while_open : {A : Type 0} → A → Action Obliging A
while_open a (o, bs) = (if o then ok a else err (port_not_opened "PortNotOpenedException"), (o, bs))

abbrev obliging : Serial
obliging = record {
  Port = Obliging;
  is_open = λ p. p.0;
  open_port =
      λ p. (if p.0 then err (serial_exception "Serial port already open.") else ok tt, (true, p.1));
  close_port = λ p. (ok tt, (false, p.1));
  flush_input = while_open tt;
  flush_output = while_open tt;
  write = λ message. while_open (length message);
  readline = λ size eol. while_open [];
  readlines = λ size eol. next_batch;
  wait_readable = λ p. (ok true, p);
  set_port = λ name p. (ok tt, p);
  set_baudrate = λ baud p. (ok tt, p);
  set_8n1 = λ p. (ok tt, p);
  set_timeout = λ ms p. (ok tt, p);
}

obliging-Accepts : Accepts obliging
obliging-Accepts = record {
  opens = λ p h. rw h (refl, refl);
  closes = λ p. (refl, refl);
  flushes_input = λ p h. rw h (refl, refl);
  flushes_output = λ p h. rw h (refl, refl);
  writes = λ message p h. rw h refl;
}

abbrev bench : Host Obliging
bench = record {
  ports =
      record {
        port = codes "/dev/ttyUSB0";
        description = codes "FTDI A9J0G3SV";
        hardware_id = codes "USB";
      }
      ∷ [];
  new_serial =
      (false, (codes "SE\r" ∷ codes "00\r" ∷ []) ∷ (codes "SC\r" ∷ codes "0000123\r" ∷ []) ∷ []);
  polls = 0;
  leftover = 7;
}

abbrev idle : Manager Obliging ℤ ℤ
idle = record {
  config = record { laser = no_device; attenuator = no_device; power_meter = no_device };
  attenuator = none;
  laser = none;
  power_meter = none;
  ignore_laser = false;
  ignore_pm = false;
  ignore_attenuator = false;
}

main_answers_example :
    IsPlainCode (main ⦃sp = obliging⦄ bench only_laser (Flag.verbose ∷ []) lines idle).0
main_answers_example =
    main_answers ⦃sp = obliging⦄ obliging-Accepts bench only_laser (Flag.verbose ∷ []) lines idle
