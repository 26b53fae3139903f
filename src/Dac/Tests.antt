-- ===== src/Dac/Tests.antt =====
-- Examples of the theorems about the converter, on a bus with one register.
use laser_control.Common.{true, false, ◌≡◌, refl, some, [], ◌∷◌, Bytes, length}
use laser_control.Common.Int.{ℤ, pos, negsuc}
use laser_control.Effects.{ok, ◌>>=◌}
use laser_control.Std.Numbers.{show}
use laser_control.Dac.{I2c, Level, Dac, Driver, on_bus, connect, new_driver, read_dac}
use laser_control.Dac.Registers.{IsReading, read_dac_bounds}
use laser_control.Dac.Sweep.{Outcome, sweep_program}
use laser_control.Dac.Sweep.Echo.{IsEcho, sweep_program_completes}

abbrev take_message : Bytes → Level → ℤ × Level
take_message (p ∷ m ∷ l ∷ []) b = (pos 3, record { msb = m; lsb = l })
take_message msg b = (pos (length msg), b)

-- A converter that keeps the level it was sent.
abbrev bench : I2c
bench = record {
  Bus = Level;
  open_file = λ path b. (pos 5, b);
  close_file = λ fd b. b;
  query_functions = λ fd b. b;
  select = λ fd addr b. (pos 0, b);
  write = λ fd msg b. take_message msg b;
  read_two = λ fd b. (some (b.msb, b.lsb), b);
}

abbrev blank : Level
blank = record { msb = 0; lsb = 0 }

abbrev unset : Dac
unset = record { ptr = 9; level = record { msb = 255; lsb = 255 } }

abbrev ready : Level → Driver Level
ready b = record { bus_addr = 8; dev_addr = 13; dev = pos 5; is_ready = true; bus = b }

connect_run : (connect ⦃io = bench⦄ (new_driver ⦃io = bench⦄ 8 13 blank)).1 ≡ ready blank
unfolding connect on_bus show ◌>>=◌
connect_run = refl

abbrev stored : Level
stored = record { msb = 0x2a; lsb = 0xbc }

read_dac_bounds_example :
    IsReading (read_dac ⦃io = bench⦄ unset 1 (ready stored)).0
    × (false ≡ true → read_dac ⦃io = bench⦄ unset 1 (ready stored) ≡ (ok (negsuc 0), ready stored))
read_dac_bounds_example = read_dac_bounds ⦃io = bench⦄ (ready stored) unset 1

bench_accepts : (message : Bytes) (b : Level) → (take_message message b).0 ≡ pos (length message)
bench_accepts [] b = refl
bench_accepts (p ∷ []) b = refl
bench_accepts (p ∷ m ∷ []) b = refl
bench_accepts (p ∷ m ∷ l ∷ []) b = refl
bench_accepts (p ∷ m ∷ l ∷ x ∷ s) b = refl

bench-IsEcho : IsEcho ⦃io = bench⦄ 5
bench-IsEcho = record {
  selects = λ addr b. (0, refl);
  accepts = bench_accepts;
  echoes = λ addr ch m l b. (m, refl, refl);
}

sweep_program_completes_example :
    (b : Level) × (sweep_program ⦃io = bench⦄ unset
        (true ∷ false ∷ [])
        (new_driver ⦃io = bench⦄ 8 13 blank)
      ≡ (ok Outcome.stopped, ready b))
sweep_program_completes_example =
    sweep_program_completes ⦃io = bench⦄ unset 5 bench-IsEcho (true ∷ false ∷ []) 8 13 blank blank
      refl
