-- ===== src/PowerMeterSim/Tests.antt =====
-- An example of a run of the simulated power meter.
use laser_control.Common.{inl, List, map, arith, ◌≡◌, refl, [], ◌∷◌}
use laser_control.Common.Int.{negsuc}
use laser_control.PowerMeterSim.{new_sim}
use laser_control.Std.Floating.Thousandths.{thousandths}
use laser_control.PowerMeterSim.Ops.{Op, outcome, run}
use laser_control.PowerMeterSim.Known.{IsKnown, run-IsKnown}

abbrev ops : List Op
ops =
    Op.pulse_length 0
    ∷ Op.set_wavelength 70000
    ∷ Op.get_all_wavelengths_u16
    ∷ Op.average_query 2
    ∷ Op.write_range (negsuc 0)
    ∷ Op.force_screen
    ∷ Op.send_units_long
    ∷ []

run-IsKnown_example : ((run ops new_sim).0 ≡ map outcome ops) × IsKnown (run ops new_sim).1
run-IsKnown_example =
    run-IsKnown ops new_sim (omega arith)
      (inl refl, inl refl, inl refl, refl, omega arith, inl (omega arith), inl refl, omega arith)
