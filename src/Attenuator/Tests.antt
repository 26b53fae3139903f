-- ===== src/Attenuator/Tests.antt =====
-- Examples of the theorems about the attenuator, on a scripted port.
pub mod Safety
use laser_control.Common.{ℕ, ⊤, true, false, ◌≡◌, ◌≢◌, refl, List, [], ◌∷◌, arith, Bytes, codes}
use laser_control.Common.Int.{ℤ, pos, negsuc, ◌+ℤ◌, ◌-ℤ◌, wrap_i32}
use laser_control.Effects.{Result, ok, err, runtime_error, ◌>>=◌, on_part}
use laser_control.Std.Strings.{at, substr, erase_from}
use laser_control.Std.Numbers.{show, show_ℤ, stol, stoul}
use laser_control.Std.Floating.Thousandths.{thousandths}
use laser_control.Serial.Script.{ScriptPort, script}
use laser_control.Util.Tokens.{tokenize_string}
use laser_control.Device as Dev
use laser_control.Attenuator.{Attenuator, new_attenuator, on_device}
use laser_control.Attenuator.Port.{strip_two, write_cmd, read_cmd, send, ask}
use laser_control.Attenuator.Position.{poll, wait_stopped, get_position, refresh_position}
use laser_control.Attenuator.Motion.{require_stopped, set_zero, set_current_position}
use laser_control.Attenuator.Settings.{set_serial_number, padded_name}
use laser_control.Attenuator.Transmission.{
  raw_steps, raw_transmission, trans_to_steps, steps_to_trans,
}
use laser_control.Attenuator.Transmission.Calibration.{steps_to_trans-trans_to_steps}
use laser_control.Attenuator.Guards.{MotorOp, call, call_while_moving}
use laser_control.Attenuator.Waits.{StopsAfter, get_position_waits, get_position_stopped}
use laser_control.Attenuator.Names.{set_serial_number_loses}
use laser_control.Attenuator.Replies.{refresh_position_reply}
use laser_control.Attenuator.Status.{refresh_status}
use laser_control.Attenuator.Registers.{register_line, refresh_status_reply}
use laser_control.Util.Tokens.RoundTrip.{line_of}
use laser_control.Common.{map, ◌++◌}
use laser_control.Attenuator.Offsets.{set_zero-set_current_position}

-- What the runs below compute with.
opened : ⊤
unfolding ◌>>=◌ on_part on_device Dev.write_cmd Dev.on_serial Dev.is_open Dev.reset_connection send
    write_cmd read_cmd strip_two ask poll refresh_position at substr erase_from tokenize_string show
    show_ℤ stol stoul wrap_i32
opened = tt

abbrev Motor : Type 0
Motor = Attenuator ScriptPort ℤ

abbrev motor : List Bytes → List Bytes → Motor
motor lines sent =
    new_attenuator ⦃sp = script⦄ (codes "/dev/ttyUSB1") 38400
      (record { opened = true; accepts = []; answers = lines; batches = []; received = sent })

abbrev polled : Bytes
polled = codes "o\r"

abbrev stopped_at_40 : Motor
stopped_at_40 = motor (codes "o0;40\n\r" ∷ []) []

abbrev moving_at_40 : Motor
moving_at_40 = motor (codes "o1;40\n\r" ∷ []) []

call_while_moving_example : call ⦃sp = script⦄ (MotorOp.move 9 (pos 100) false) moving_at_40 ≡ (
  err (runtime_error "Can't move motor until it is in a stopped (state="),
  record (motor [] (polled ∷ [])) { position = pos 40; motor_state = pos 1 },
)
unfolding opened
call_while_moving_example =
    call_while_moving ⦃sp = script⦄ (MotorOp.move 9 (pos 100) false) moving_at_40 _ refl refl

abbrev no_put : ℤ → Motor → Result ⊤ × Motor
no_put p a = (ok tt, a)

-- The motor moves at the first poll and stands at the second one.
abbrev waiting : Motor
waiting = motor (codes "o1;40\n\r" ∷ codes "o0;50\n\r" ∷ []) []

abbrev last_answer : ℤ × ℕ
last_answer = (pos 50, 0)

get_position_waits_example :
    (get_position ⦃sp = script⦄ 5 no_put true waiting
      ≡ (ok last_answer, motor [] (polled ∷ polled ∷ [])))
    × (last_answer.1 ≡ 0)
unfolding opened
get_position_waits_example =
    get_position_waits ⦃sp = script⦄ no_put 5 1 (pos 40, 1) last_answer waiting
      (motor (codes "o0;50\n\r" ∷ []) (polled ∷ [])) (motor [] (polled ∷ polled ∷ [])) refl
      (StopsAfter.moving (pos 40, 1) (pos 50, 0) _ (ground arith) refl
        (StopsAfter.stopped (pos 50, 0) _ refl))
      (omega arith)

get_position_stopped_example : last_answer.1 ≡ 0
unfolding opened get_position wait_stopped
get_position_stopped_example =
    get_position_stopped ⦃sp = script⦄ no_put 5 {last = last_answer} waiting
      {a' = motor [] (polled ∷ polled ∷ [])} refl

abbrev name : Bytes
name = codes "attenuator-number-01"

set_serial_number_loses_example :
    (set_serial_number ⦃sp = script⦄ name stopped_at_40
      ≡ set_serial_number ⦃sp = script⦄ [] stopped_at_40)
    × (set_serial_number ⦃sp = script⦄ (name ++ b'7' ∷ []) stopped_at_40
        ≡ send ⦃sp = script⦄
            (codes "sn " ++ name)
            "Failed to send command to set serial number"
            stopped_at_40)
set_serial_number_loses_example = set_serial_number_loses ⦃sp = script⦄ name b'7' stopped_at_40 refl

steps_to_trans-trans_to_steps_example :
    steps_to_trans ⦃sp = script⦄
      (trans_to_steps ⦃sp = script⦄ (pos 500) stopped_at_40)
      stopped_at_40
    ≡ raw_transmission ⦃sp = script⦄ stopped_at_40.cal_scale
        (raw_steps ⦃sp = script⦄ stopped_at_40.cal_scale (pos 500))
unfolding raw_steps
steps_to_trans-trans_to_steps_example =
    steps_to_trans-trans_to_steps ⦃sp = script⦄ (pos 500) stopped_at_40 (omega arith)

refresh_position_reply_example :
    refresh_position ⦃sp = script⦄ stopped_at_40
    ≡ (ok tt, record (motor [] (polled ∷ [])) { position = pos 40; motor_state = pos 0 })
unfolding opened
refresh_position_reply_example =
    refresh_position_reply ⦃sp = script⦄ 0 (pos 40) [] stopped_at_40 (motor [] (polled ∷ [])) refl
      (omega arith) (omega arith) tt

abbrev after : Bytes → ℤ → Motor
after sent off = record (motor [] (sent ∷ polled ∷ [])) {
  position = pos 40;
  motor_state = pos 0;
  offset = off;
}

set_zero-set_current_position_example :
    (pos 40 ≡ wrap_i32 (pos 0 +ℤ pos 40))
    × (negsuc 39 ≡ wrap_i32 (pos 0 +ℤ wrap_i32 (pos 0 -ℤ pos 40)))
unfolding opened set_zero set_current_position require_stopped ◌+ℤ◌ ◌-ℤ◌
set_zero-set_current_position_example =
    set_zero-set_current_position ⦃sp = script⦄ stopped_at_40
      (record (motor [] (polled ∷ [])) { position = pos 40; motor_state = pos 0 })
      (after (codes "h\r") (pos 40)) (after (codes "i 0\r") (negsuc 39)) refl refl refl

abbrev registers : List ℕ
registers = register_line 1 0 60 300 59000 100 10 0 2 1 0 1 0 (7 ∷ [])

abbrev registers_sent : Motor
registers_sent = motor ((codes "pc" ++ (line_of b';' (map show registers) ++ codes "\n\r")) ∷ []) []

refresh_status_reply_example : refresh_status ⦃sp = script⦄ registers_sent ≡ (
  ok tt,
  record (motor [] (codes "pc\r" ∷ [])) {
    acceleration = 60;
    deceleration = 44;
    reset_on_zero = true;
  },
)
unfolding opened
refresh_status_reply_example =
    refresh_status_reply ⦃sp = script⦄ 1 0 60 300 59000 100 10 0 2 1 0 1 0 (7 ∷ []) registers_sent
      (motor [] (codes "pc\r" ∷ [])) refl
      (
        omega arith,
        (
          omega arith,
          (
            omega arith,
            (
              omega arith,
              (
                omega arith,
                (
                  omega arith,
                  (
                    omega arith,
                    (
                      omega arith,
                      (
                        omega arith,
                        (
                          omega arith,
                          (omega arith, (omega arith, (omega arith, (omega arith, tt)))),
                        ),
                      ),
                    ),
                  ),
                ),
              ),
            ),
          ),
        ),
      )
