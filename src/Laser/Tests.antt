-- ===== src/Laser/Tests.antt =====
-- Examples of the theorems about the laser, on a scripted port.
use laser_control.Common.{
  ⊤, ◌≡◌, ◌≢◌, refl, Bool, true, false, List, [], ◌∷◌, ◌++◌, arith, All, Bytes, codes,
}
use laser_control.Common.Int.{ℤ, pos}
use laser_control.Effects.{ok, ◌>>=◌, on_part}
use laser_control.Std.Numbers.{show, show_width3}
use laser_control.Std.Floating.Thousandths.{thousandths}
use laser_control.Serial.Script.{script, ScriptPort}
use laser_control.Serial.Logged.{LoggedPort, logged}
use laser_control.Device as Dev
use laser_control.Laser
use laser_control.Laser.{Laser, new_laser, on_device}
use laser_control.Laser.Enums.{start, security_table}
use laser_control.Laser.Ops.{Op, IsWithin, call, run, run_all}
use laser_control.Laser.Frames.{IsVoltage, IsRate, documented}
use laser_control.Laser.Safety.{IsSafe, run-IsSafe}
use laser_control.Laser.Settings.{settings}
use laser_control.Laser.Traffic.{told, Agrees}
use laser_control.Laser.Traffic.Runs.{IsSynced, run_all-Agrees}
use laser_control.Laser.Security
use laser_control.Laser.Shots
use laser_control.Laser.Answers.{
  Answered, security_answer, shot_count_answer, shot_count_retry_fails,
}

-- What the runs below compute with.
opened : ⊤
unfolding ◌>>=◌ on_part on_device Dev.write_cmd Dev.read_lines Dev.reset_connection Dev.on_serial
    Dev.is_open Laser.write_cmd Laser.send_or_throw Laser.reset_connection show show_width3
opened = tt

abbrev port : List Bool → List (List Bytes) → ScriptPort
port writes batches = record {
  opened = true;
  accepts = writes;
  answers = [];
  batches = batches;
  received = [];
}

abbrev laser : ScriptPort → Laser ScriptPort ℤ
laser p = new_laser ⦃sp = script⦄ (codes "/dev/ttyUSB0") 9600 p

abbrev logged_laser : Laser (LoggedPort script) ℤ
logged_laser =
    new_laser ⦃sp = logged script⦄ (codes "/dev/ttyUSB0") 9600
      (record { port = port [] []; written = [] })

logged_laser-IsSafe : IsSafe script logged_laser
unfolding Laser.voltage_out_of_range
logged_laser-IsSafe = record {
  clean = record { pre_set = refl; sfx_set = refl; traffic = tt };
  prescale_fits = omega arith;
  qswitch_fits = omega arith;
  voltage_fits = refl;
}

abbrev ops : List (Op ℤ)
ops =
    Op.set_prescale 250
    ∷ Op.fire start
    ∷ Op.set_pump_voltage (pos 1500)
    ∷ Op.set_pump_voltage (pos 1200)
    ∷ Op.set_repetition_rate (pos 10000)
    ∷ Op.single_shot
    ∷ []

-- 1.5 is refused; 1.2 is sent as "1.20", and the rate as "10.0".
within : All IsWithin ops
unfolding Laser.voltage_out_of_range show
within = (
  tt,
  (
    tt,
    (
      λ h. absurd (ground arith),
      (
        λ h. IsVoltage.volts 1 2 0 (omega arith) (omega arith) (omega arith) refl,
        (IsRate.hertz 1 0 0 (omega arith) (omega arith) (omega arith) refl, (tt, tt)),
      ),
    ),
  ),
)

-- With the forms of include/Laser.hh.
run-IsSafe_example : IsSafe script (run ⦃sp = logged script⦄ ops logged_laser)
run-IsSafe_example = run-IsSafe script ops logged_laser within logged_laser-IsSafe

-- The first write is refused, the retry goes through; the first voltage is out of range.
run_traffic :
    (run ⦃sp = script⦄ ops (laser (port (false ∷ []) []))).serial.received
    ≡ codes "SS\r"
      ∷ codes "PD 000\r"
      ∷ codes "RR 10.0\r"
      ∷ codes "VA 1.20\r"
      ∷ codes "ST 1\r"
      ∷ codes "PD 099\r"
      ∷ []
unfolding run call Laser.set_repetition_rate Laser.set_prescale Laser.fire Laser.set_pump_voltage
    Laser.single_shot Laser.voltage_out_of_range opened
run_traffic = refl

logged_laser-IsSynced : IsSynced script logged_laser
unfolding told
logged_laser-IsSynced = record {
  pre_set = refl;
  sfx_set = refl;
  traffic = record {
    lamp_agrees = tt;
    division_agrees = tt;
    delay_agrees = tt;
    voltage_agrees = tt;
    rate_agrees = tt;
  };
}

abbrev settled : List (Op ℤ)
settled = Op.set_prescale 250 ∷ Op.fire start ∷ Op.set_qswitch 7 ∷ Op.single_shot ∷ []

run_all-Agrees_example :
    let l = (run_all ⦃sp = logged script⦄ settled logged_laser).1 in
    Agrees (told l.serial.written) (settings l)
unfolding run_all call Laser.set_prescale Laser.fire Laser.set_qswitch Laser.single_shot opened
run_all-Agrees_example = run_all-Agrees script settled logged_laser logged_laser-IsSynced refl

abbrev status_lines : List Bytes
status_lines = codes "SE\r" ∷ codes "06\r" ∷ []

abbrev after : Bytes → List (List Bytes) → Laser ScriptPort ℤ
after msg batches = laser (record (port [] batches) { received = msg ∷ [] })

status_Answered :
    Answered ⦃sp = script⦄
      (codes "SE")
      status_lines
      (laser (port [] (status_lines ∷ [])))
      (after (codes "SE\r") [])
unfolding opened
status_Answered = record {
  middle = after (codes "SE\r") (status_lines ∷ []);
  sent = refl;
  read = refl;
}

security_answer_example :
    Security.security ⦃sp = script⦄ (laser (port [] (status_lines ∷ [])))
    ≡ (ok (codes "06", codes "External interlock"), after (codes "SE\r") [])
unfolding Security.message_of security_table laser_control.Std.Strings.bytes_eq
security_answer_example =
    security_answer ⦃sp = script⦄ (codes "SE\r") (codes "06") 13 _ _ status_Answered (omega arith)

abbrev count_lines : List Bytes
count_lines = codes "SC\r" ∷ (show 1234 ++ 13 ∷ []) ∷ []

count_Answered :
    Answered ⦃sp = script⦄
      (codes "SC")
      count_lines
      (laser (port [] (count_lines ∷ [])))
      (after (codes "SC\r") [])
unfolding opened
count_Answered = record {
  middle = after (codes "SC\r") (count_lines ∷ []);
  sent = refl;
  read = refl;
}

shot_count_answer_example :
    Shots.get_shot_count ⦃sp = script⦄ (laser (port [] (count_lines ∷ [])))
    ≡ (ok 1234, after (codes "SC\r") [])
shot_count_answer_example =
    shot_count_answer ⦃sp = script⦄ (codes "SC\r") 1234 13 _ _ count_Answered (omega arith)

-- The second reading would deliver the count.
no_line_Answered :
    Answered ⦃sp = script⦄
      (codes "SC")
      []
      (laser (port [] ([] ∷ count_lines ∷ [])))
      (after (codes "SC\r") (count_lines ∷ []))
unfolding opened
no_line_Answered = record {
  middle = after (codes "SC\r") ([] ∷ count_lines ∷ []);
  sent = refl;
  read = refl;
}

shot_count_retry_fails_example :
    (Shots.get_shot_count ⦃sp = script⦄ (laser (port [] ([] ∷ count_lines ∷ [])))).0 ≢ ok 1234
shot_count_retry_fails_example = shot_count_retry_fails ⦃sp = script⦄ _ _ 1234 no_line_Answered
