-- ===== src/Manager/Tests.antt =====
-- Examples of the theorems about the terminal program, on scripted ports.
pub mod Commands
pub mod Answers
use laser_control.Common.{
  ⊤, true, false, ◌≡◌, refl, Option, none, some, List, [], ◌∷◌, Bytes, codes, if◌then◌else◌, arith,
}
use laser_control.Common.Int.{ℤ, to_unsigned}
use laser_control.Effects.{Result, ok, ◌>>=◌, ◌>>◌, on_part, pure}
use laser_control.Std.Strings.{bytes_eq, at, erase_from, find, size_sub}
use laser_control.Std.Numbers.{show, show_width3, stoul}
use laser_control.Std.Numbers.Auto.{strtol}
use laser_control.Std.Floating.Thousandths.{thousandths}
use laser_control.Serial.Script.{script}
use laser_control.Serial.Logged.{LoggedPort, logged}
use laser_control.Util.Tokens.{tokenize_string}
use laser_control.Util.Ports.{find_port}
use laser_control.Device as Dev
use laser_control.Laser as Lasers
use laser_control.Laser.{Laser, voltage_out_of_range, new_laser}
use laser_control.Laser.Enums.{security_table}
use laser_control.Laser.Security
use laser_control.Laser.Shots
use laser_control.Attenuator.Getters
use laser_control.PowerMeter as Meters
use laser_control.Manager.{
  Host, Manager, DeviceConfig, port_valid, caught, on_laser, on_attenuator, on_meter,
}
use laser_control.Manager.LaserCommand.{
  laser_request, laser_setting, laser_command, check_laser, retire_laser,
}
use laser_control.Manager.Arguments.{u32_of}
use laser_control.Manager.Mapping
use laser_control.Manager.Commands.{run_laser, dispatch, run_command}
use laser_control.Manager.Mapped.{IsMapped, map_devices-IsMapped}
use laser_control.Manager.Typed.{Setting, typed, issued}
use laser_control.Manager.Typed.Commands.{setting_typed}
use laser_control.Manager.Codes.{first_is, IsPlainCode, run_command_answers}
use laser_control.Manager.Frame.{Same, run_command_frame}
use laser_control.Manager.Words.{command_words}
use laser_control.Manager.Words.Tokens.{drop_empty, command_words-tokenize_string}
use laser_control.Manager.Session
use laser_control.Manager.Session.{Json, Flag, main, session}
use laser_control.Manager.Blank.{session_blank}
use laser_control.Manager.Course.{Course, session-Course}
use laser_control.Manager.Safety.Program.{main-IsSound}
use laser_control.Manager.Safety.{IsSound, Within}
use laser_control.Manager.Shutdown.{IsRetired}
use laser_control.Manager.Shutdown.Program.{main-IsRetired}

-- What the runs below compute with.
opened : ⊤
unfolding ◌>>=◌ on_part find_port Dev.write_cmd Dev.on_serial Dev.is_open Dev.reset_connection
    Dev.read_lines Dev.set_timeout_ms Dev.destroy Dev.close Lasers.write_cmd Lasers.reset_connection
    Lasers.on_device Lasers.send_or_throw Lasers.fire Lasers.shutter Lasers.set_prescale
    Lasers.connect Security.security Security.security_code Security.security_lines
    Security.message_of security_table Shots.get_shot_count Shots.shot_count_text Shots.drop_last
    Getters.destroy Meters.on_device show show_width3 stoul strtol to_unsigned bytes_eq at
    erase_from size_sub find port_valid caught on_laser on_attenuator on_meter laser_request
    laser_setting laser_command check_laser retire_laser u32_of Mapping.store_laser_port
    Mapping.build_laser Mapping.map_laser Mapping.map_pm_last Mapping.map_laser_next
    Mapping.map_devices Mapping.unmap_devices run_laser dispatch run_command command_words
    Session.apply_flags Session.configured Session.load_attenuator Session.load_laser
    Session.load_meter Session.load_config Session.follow Session.session Session.operate
    Session.start Session.main
opened = tt

abbrev pub Port : Type 0
Port = LoggedPort script

-- A port at which a laser answers the two queries of `map_laser`.
abbrev new_port : Port
new_port = record {
  port = record {
    opened = false;
    accepts = [];
    answers = [];
    batches = (codes "SE\r" ∷ codes "00\r" ∷ []) ∷ (codes "SC\r" ∷ codes "0000123\r" ∷ []) ∷ [];
    received = [];
  };
  written = [];
}

abbrev pub bench : Host Port
bench = record {
  ports =
      record {
        port = codes "/dev/ttyUSB0";
        description = codes "FTDI A9J0G3SV";
        hardware_id = codes "USB";
      }
      ∷ [];
  new_serial = new_port;
  polls = 0;
  leftover = 7;
}

abbrev no_device : DeviceConfig
no_device = record { serial_nr = []; port = []; baud_rate = 0 }

abbrev idle : Manager Port ℤ ℤ
idle = record {
  config = record { laser = no_device; attenuator = no_device; power_meter = no_device };
  attenuator = none;
  laser = none;
  power_meter = none;
  ignore_laser = false;
  ignore_pm = false;
  ignore_attenuator = false;
}

-- Only the laser has an entry.
abbrev only_laser : Bytes → Result Json
only_laser file =
    ok (λ key. if bytes_eq key (codes "laser") then some (ok (codes "A9J0G3SV")) else none)

abbrev lines : List Bytes
lines =
    codes "laser  prescale 0x10" ∷ [] ∷ codes "laser fire_start" ∷ codes "exit" ∷ codes "help" ∷ []

-- The program finds the laser, passes the commands on and stops the laser at the end.
main_run : (main ⦃sp = logged script⦄ bench only_laser (Flag.verbose ∷ []) lines idle).0 ≡ ok 0
unfolding opened
main_run = refl

abbrev sent : Option (Laser Port ℤ) → List Bytes
sent none = []
sent (some l) = l.serial.written

main_sent :
    sent (main ⦃sp = logged script⦄ bench only_laser (Flag.verbose ∷ []) lines idle).1.laser
    ≡ codes "SH 0\r"
      ∷ codes "ST 0\r"
      ∷ codes "ST 1\r"
      ∷ codes "PD 016\r"
      ∷ codes "SC\r"
      ∷ codes "SE\r"
      ∷ []
unfolding opened
main_sent = refl

main-IsSound_example :
    IsSound script (main ⦃sp = logged script⦄ bench only_laser (Flag.verbose ∷ []) lines idle).1
unfolding voltage_out_of_range
main-IsSound_example =
    main-IsSound script refl bench refl only_laser (Flag.verbose ∷ []) lines idle refl refl refl

main-IsRetired_example :
    Within
      (IsRetired script)
      (main ⦃sp = logged script⦄ bench only_laser (Flag.verbose ∷ []) lines idle).1.laser
unfolding voltage_out_of_range
main-IsRetired_example =
    main-IsRetired script refl bench refl only_laser (Flag.verbose ∷ []) lines idle 0 refl refl refl
      main_run

abbrev ready_laser : Laser Port ℤ
ready_laser = new_laser ⦃sp = logged script⦄ (codes "/dev/ttyUSB0") 9600 new_port

abbrev pub with_laser : Manager Port ℤ ℤ
with_laser = record idle { laser = some ready_laser }

-- The laser is to be found by its serial number, and the others are ignored.
abbrev laser_wanted : Manager Port ℤ ℤ
laser_wanted = record idle {
  config = record idle.config { laser = record no_device { serial_nr = codes "A9J0G3SV" } };
  ignore_pm = true;
  ignore_attenuator = true;
}

map_devices-IsMapped_example :
    IsMapped ⦃sp = logged script⦄ laser_wanted
      (Mapping.map_devices ⦃sp = logged script⦄ bench laser_wanted).1
unfolding opened
map_devices-IsMapped_example = map_devices-IsMapped ⦃sp = logged script⦄ bench laser_wanted refl

-- An empty line, a command, "exit", and a line behind it, with no device.
abbrev short : List Bytes
short = [] ∷ codes "help" ∷ codes "exit" ∷ codes "  " ∷ []

session_run : session ⦃sp = logged script⦄ bench short idle ≡ (ok 0, idle)
unfolding opened
session_run = refl

session-Course_example :
    (Course ⦃sp = logged script⦄ bench short idle (ok 0) idle
      → session ⦃sp = logged script⦄ bench short idle ≡ (ok 0, idle))
    × (session ⦃sp = logged script⦄ bench short idle ≡ (ok 0, idle)
        → Course ⦃sp = logged script⦄ bench short idle (ok 0) idle)
session-Course_example = session-Course ⦃sp = logged script⦄ bench short idle idle (ok 0)

short-Course : Course ⦃sp = logged script⦄ bench short idle (ok 0) idle
short-Course = (session-Course ⦃sp = logged script⦄ bench short idle idle (ok 0)).1 session_run
