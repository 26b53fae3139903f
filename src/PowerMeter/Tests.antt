-- ===== src/PowerMeter/Tests.antt =====
-- Examples of the theorems about the power meter, on a scripted port.
use laser_control.Common.{⊤, Bool, true, false, ◌≡◌, refl, List, [], ◌∷◌, ◌++◌, arith, Bytes, codes}
use laser_control.Common.Int.{negsuc}
use laser_control.Effects.{ok, ◌>>=◌, on_part}
use laser_control.Std.Strings.{erase_from}
use laser_control.Std.Numbers.{show}
use laser_control.Std.Floating.Thousandths.{thousandths}
use laser_control.Serial.Script.{ScriptPort, script}
use laser_control.Serial.Logged.{LoggedPort, logged}
use laser_control.Util.Trim.{trim}
use laser_control.Device as Dev
use laser_control.PowerMeter
use laser_control.PowerMeter.{PowerMeter, new_power_meter, on_device, ask}
use laser_control.PowerMeter.Ops.{Op, run}
use laser_control.PowerMeter.Keeps.{IsValid}
use laser_control.PowerMeter.Valid.{run-IsValid}
use laser_control.PowerMeter.Threshold
use laser_control.PowerMeter.Modes
use laser_control.Std.Strings
use laser_control.PowerMeter.Info
use laser_control.PowerMeter.Heads.{head_info_reply}
use laser_control.PowerMeter.Lengths.{pulse_length_reply}
use laser_control.PowerMeter.Exchange.{
  threshold_line, query_user_threshold_reply, user_threshold_accepted,
}

-- What the exchanges below compute with.
opened : ⊤
unfolding ◌>>=◌ on_part on_device Dev.write_cmd Dev.read_cmd Dev.strip_suffix Dev.on_serial
    Dev.is_open Dev.reset_connection PowerMeter.write_cmd PowerMeter.read_cmd
    PowerMeter.reset_connection PowerMeter.send_twice PowerMeter.read_twice PowerMeter.send_cmd ask
    erase_from show
opened = tt

abbrev port : List Bool → List Bytes → List Bytes → ScriptPort
port writes lines sent = record {
  opened = true;
  accepts = writes;
  answers = lines;
  batches = [];
  received = sent;
}

abbrev meter : List Bool → List Bytes → List Bytes → PowerMeter ScriptPort
meter writes lines sent =
    new_power_meter ⦃sp = script⦄ (codes "/dev/ttyUSB2") 9600 (port writes lines sent)

abbrev logged_meter : PowerMeter (LoggedPort script)
logged_meter =
    new_power_meter ⦃sp = logged script⦄ (codes "/dev/ttyUSB2") 9600
      (record { port = port [] (codes "*\r\n" ∷ []) []; written = [] })

logged_meter-IsValid : IsValid script logged_meter
logged_meter-IsValid = record {
  clean = record { pre_set = refl; sfx_set = refl; traffic = tt };
  wavelength_fits = omega arith;
  threshold_fits = omega arith;
  low_fits = omega arith;
  high_fits = omega arith;
  lengths_sorted = tt;
  windows_sorted = tt;
  ranges_sorted = tt;
  units_kept = refl;
}

abbrev ops : List Op
ops =
    Op.set_wavelength 532 ∷ Op.set_range (negsuc 0) ∷ Op.query_user_threshold ∷ Op.read_energy ∷ []

run-IsValid_example : IsValid script (run ⦃sp = logged script⦄ ops logged_meter)
run-IsValid_example = run-IsValid script ops logged_meter (omega arith) logged_meter-IsValid

abbrev threshold_message : Bytes
threshold_message = codes "$UT\r\n"

query_user_threshold_reply_example :
    Threshold.query_user_threshold ⦃sp = script⦄
      (meter [] ((threshold_line 3 1 2500 ++ codes "\r\n") ∷ []) [])
    ≡ (
      ok (3, 1, 2500),
      record (meter [] [] (threshold_message ∷ [])) {
        e_threshold = 3;
        threshold_ranges = (1, 2500);
      },
    )
unfolding opened
query_user_threshold_reply_example =
    query_user_threshold_reply ⦃sp = script⦄ 3 1 2500 _ (meter [] [] (threshold_message ∷ [])) refl
      (omega arith) (omega arith) (omega arith)

abbrev after_set : PowerMeter ScriptPort
after_set = meter [] [] (codes "$UT 7\r\n" ∷ [])

user_threshold_accepted_example :
    Threshold.user_threshold ⦃sp = script⦄ 7 0
      (meter [] ((threshold_line 7 1 2500 ++ codes "\r\n") ∷ []) [])
    ≡ (ok 7, record after_set { e_threshold = 7; threshold_ranges = (1, 2500) })
unfolding opened
user_threshold_accepted_example =
    user_threshold_accepted ⦃sp = script⦄ 7 0 7 1 2500 _ after_set refl (omega arith) (omega arith)
      (omega arith)

pulse_length_reply_example :
    Modes.pulse_length ⦃sp = script⦄ 0 (meter [] (codes "*2 1.0ms 2.0ms \r\n" ∷ []) []) ≡ (
      ok 2,
      record (meter [] [] (codes "$PL 0\r\n" ∷ [])) {
        pulse_lengths = (1, codes "1.0ms") ∷ (2, codes "2.0ms") ∷ [];
      },
    )
unfolding opened trim laser_control.Std.Strings.find
pulse_length_reply_example =
    pulse_length_reply ⦃sp = script⦄ 2 (codes " 1.0ms 2.0ms ") (codes "1.0ms") (codes "2.0ms" ∷ [])
      (meter [] (codes "*2 1.0ms 2.0ms \r\n" ∷ []) []) (meter [] [] (codes "$PL 0\r\n" ∷ [])) refl
      (omega arith) refl (refl, (refl, tt)) (omega arith)

abbrev head_line : Bytes
head_line = codes "* PY 110 PE10 80000002\r\n"

-- Bit 1, which the comment of the source gives to energy, is set in the word, and bit 0 is not.
head_info_reply_example : Info.head_info ⦃sp = script⦄ (meter [] (head_line ∷ []) []) ≡ (
  ok (record {
    type_name = codes "PY";
    sn = codes "110";
    name = codes "PE10";
    power = false;
    energy = false;
    freq = true;
  }),
  meter [] [] (codes "$HI\r\n" ∷ []),
)
unfolding opened trim laser_control.Std.Strings.find laser_control.Std.Numbers.stoul_base
head_info_reply_example =
    head_info_reply ⦃sp = script⦄ (codes "* PY 110 PE10 80000002") (codes "*") (codes "PY")
      (codes "110") (codes "PE10") (codes "80000002") [] 0x80000002 (meter [] (head_line ∷ []) [])
      (meter [] [] (codes "$HI\r\n" ∷ [])) refl refl (refl, (refl, (refl, (refl, (refl, tt))))) refl
