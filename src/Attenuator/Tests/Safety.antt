-- ===== src/Attenuator/Tests/Safety.antt =====
-- An example of the safety of the attenuator, on a scripted port.
use laser_control.Common.{refl, false, true, List, [], ◌∷◌, codes, arith, All}
use laser_control.Common.Int.{ℤ, negsuc}
use laser_control.Std.Floating.Thousandths.{thousandths}
use laser_control.Serial.Script.{script}
use laser_control.Serial.Logged.{logged}
use laser_control.Attenuator.{new_attenuator}
use laser_control.Attenuator.Ops.{Op, IsWithin, run}
use laser_control.Attenuator.Frames.{documented}
use laser_control.Attenuator.Safety.{Motor, IsKept}
use laser_control.Attenuator.Safety.Runs.{run-IsKept}

abbrev motor : Motor script
motor = new_attenuator ⦃sp = logged script⦄ (codes "/dev/ttyUSB1") 38400 (record {
  port = record {
    opened = true;
    accepts = false ∷ [];
    answers = codes "o0;42;\n\r" ∷ [];
    batches = [];
    received = [];
  };
  written = [];
})

abbrev ops : List (Op ℤ)
ops =
    Op.set_idle_current 300
    ∷ Op.move 2 (negsuc 99) true
    ∷ Op.set_max_speed 65000
    ∷ Op.set_resolution 16
    ∷ Op.set_serial_number (codes "A")
    ∷ []

motor-IsKept : IsKept script motor
motor-IsKept = record {
  clean = record { pre_set = refl; sfx_set = refl; traffic = tt };
  fits = omega arith;
}

within : All IsWithin ops
within = (
  omega arith,
  (omega arith, ((omega arith, omega arith), ((omega arith, ground arith), (tt, tt)))),
)

-- With the limits of include/Attenuator.hh.
run-IsKept_example : IsKept script (run ⦃sp = logged script⦄ ops motor)
run-IsKept_example = run-IsKept script ops motor within motor-IsKept
