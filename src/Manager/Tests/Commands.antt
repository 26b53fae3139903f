-- ===== src/Manager/Tests/Commands.antt =====
-- Examples of the theorems about the commands, on scripted ports.
use laser_control.Common.{some, true, false, ◌≡◌, refl, [], ◌∷◌, codes, arith}
use laser_control.Common.Int.{ℤ, negsuc}
use laser_control.Effects.{◌>>◌, pure}
use laser_control.Std.Strings.{bytes_eq}
use laser_control.Std.Floating.Thousandths.{thousandths}
use laser_control.Serial.Script.{script}
use laser_control.Serial.Logged.{logged}
use laser_control.Util.Tokens.{tokenize_string}
use laser_control.Manager.{Manager, caught}
use laser_control.Attenuator.{new_attenuator}
use laser_control.Manager.Mapping
use laser_control.Manager.Commands.{run_command}
use laser_control.Manager.Typed.{Setting, typed, issued}
use laser_control.Manager.Typed.Commands.{setting_typed}
use laser_control.Manager.Codes.{IsPlainCode, first_is, run_command_answers}
use laser_control.Manager.Frame.{Same, run_command_frame}
use laser_control.Manager.Words.{command_words}
use laser_control.Manager.Words.Tokens.{drop_empty, command_words-tokenize_string}
use laser_control.Manager.Session.{session}
use laser_control.Manager.Blank.{session_blank}
use laser_control.Manager.Tests.{Port, bench, with_laser}

command_words-tokenize_string_example :
    command_words (codes " laser  prescale 0x10 ")
    ≡ drop_empty (tokenize_string (codes " laser  prescale 0x10 ") (codes " "))
command_words-tokenize_string_example =
    command_words-tokenize_string (codes " laser  prescale 0x10 ")

run_command_frame_example :
    Same ⦃sp = logged script⦄ true false false with_laser
      (run_command ⦃sp = logged script⦄ bench
        (codes "laser" ∷ codes "fire_start" ∷ [])
        with_laser).1
unfolding first_is bytes_eq
run_command_frame_example =
    run_command_frame ⦃sp = logged script⦄ bench (codes "laser" ∷ codes "fire_start" ∷ [])
      with_laser

run_command_answers_example :
    IsPlainCode
      (run_command ⦃sp = logged script⦄ bench
        (codes "laser" ∷ codes "fire_start" ∷ [])
        with_laser).0
unfolding first_is bytes_eq
run_command_answers_example =
    run_command_answers ⦃sp = logged script⦄ bench (codes "laser" ∷ codes "fire_start" ∷ [])
      with_laser

session_blank_example :
    (session ⦃sp = logged script⦄ bench (codes "  " ∷ codes "help" ∷ []) with_laser
      ≡ (Mapping.unmap_devices ⦃sp = logged script⦄ >> pure 1) with_laser)
    × (session ⦃sp = logged script⦄ bench ([] ∷ codes "help" ∷ []) with_laser
        ≡ session ⦃sp = logged script⦄ bench (codes "help" ∷ []) with_laser)
session_blank_example = session_blank ⦃sp = logged script⦄ bench 1 (codes "help" ∷ []) with_laser

-- A motor that accepts the command and answers with its status and its position.
abbrev with_motor : Manager Port ℤ ℤ
with_motor = record with_laser {
  attenuator = some (
      new_attenuator ⦃sp = logged script⦄ (codes "/dev/ttyUSB1") 38400 (record {
        port = record {
          opened = true;
          accepts = false ∷ [];
          answers = codes "o0;-250;\n\r" ∷ [];
          batches = [];
          received = [];
        };
        written = [];
      }));
}

setting_typed_example :
    run_command ⦃sp = logged script⦄ bench
      (command_words (typed Setting.move (negsuc 249)))
      with_motor
    ≡ caught (issued ⦃sp = logged script⦄ bench Setting.move (negsuc 249) >> pure 0) with_motor
setting_typed_example =
    setting_typed ⦃sp = logged script⦄ bench Setting.move (negsuc 249) with_motor (omega arith) refl
