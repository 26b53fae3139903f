-- ===== src/Dac/Sweep/Echo.antt =====
-- The sweep over a converter that reads back what it was sent.
use laser_control.Common.{
  ℕ, zero, suc, ◌≤◌, ◌<◌, ◌+◌, ◌%◌, ◌^◌, ◌≡◌, ◌∙◌, ◌++◌, codes, refl, true, false, none, some, List,
  [], ◌∷◌, Bytes, arith, length, Bool,
}
use laser_control.Common.Int.{pos}
use laser_control.Effects.{pure, Result, ok, ◌>>=◌}
use laser_control.Std.Numbers.{show}
use laser_control.Dac.{
  new_driver, Level, I2c, Dac, Driver, set_value, get_value, write_dac, read_dac, connect, destroy,
  on_bus,
}
use laser_control.Dac.Levels.{set_value_lem}
use laser_control.Dac.Registers.{write_dac_ok, read_dac_ok}
use laser_control.Dac.Sweep.{Outcome, sweep_channels, sweep_values, sweep_while, sweep_program}

-- The bus finds the converter and takes every message, and a register that was written is read back
-- with the same value, in the four low bits of the first byte and in the second byte.
pub record IsEcho ⦃io : I2c⦄ (fd : ℕ) : Type 0 where
  pub selects : (addr : ℕ) (b : io.Bus) → (r : ℕ) × ((io.select (pos fd) addr b).0 ≡ pos r)
  pub accepts :
      (message : Bytes) (b : io.Bus) → (io.write (pos fd) message b).0 ≡ pos (length message)
  pub echoes :
      (addr ch m l : ℕ) (b : io.Bus)
      → let written = (io.write (pos fd) (ch ∷ m ∷ l ∷ []) (io.select (pos fd) addr b).1).1 in
        let pointed = (io.write (pos fd) (ch ∷ []) (io.select (pos fd) addr written).1).1 in
        (m' : ℕ) × ((io.read_two (pos fd) pointed).0 ≡ some (m', l)) × (m' % 2 ^ 4 ≡ m % 2 ^ 4)

-- What the program ends with if nothing fails.
abbrev pub end_of : List Bool → Outcome
end_of [] = Outcome.sweeping
end_of (false ∷ runs) = Outcome.stopped
end_of (true ∷ runs) = end_of runs

-- A pair with its first part spelled out.
known_first {ℓ ℓ'} : {A : Type ℓ} {B : Type ℓ'} (p : A × B) (a : A) → p.0 ≡ a → p ≡ (a, p.1)
known_first (x, y) a e = rw e refl

-- The level that comes back stands for the value.
get_value-set_value :
    (val m : ℕ) (l : Level)
    → val < 2 ^ 12
    → m % 2 ^ 4 ≡ (set_value val false true l).msb % 2 ^ 4
    → get_value (record { msb = m % 2 ^ 8; lsb = (set_value val false true l).lsb % 2 ^ 8 }) ≡ val
unfolding get_value
get_value-set_value val m l fits same =
    let (value, _, low, _, _) = set_value_lem val false true l in ground (arith, value, low)

module _ ⦃io : I2c⦄ (unset : Dac) (fd : ℕ) (echo : IsEcho fd) where
  -- A run that returns `a` and leaves all but the bus as it was.
  abbrev Completes : {A : Type 0} → Driver io.Bus → A → Result A × Driver io.Bus → Type 0
  Completes d a r = (b : io.Bus) × (r ≡ (ok a, record d { bus = b }))

  -- A value that is written to a channel is read back.
  write_read :
      (d : Driver io.Bus) (ch val : ℕ)
      → d.is_ready ≡ true
      → d.dev ≡ pos fd
      → ch ≤ 2
      → val < 2 ^ 12
      → (b b' : io.Bus) × (write_dac unset val ch d ≡ (ok 1, record d { bus = b }))
        × (read_dac unset ch (record d { bus = b }) ≡ (ok (pos val), record d { bus = b' }))
  write_read d ch val ready dev small fits =
      let level = set_value val false true unset.level in
      let (r1, s1) = echo.selects d.dev_addr d.bus in
      let b1 = (io.select (pos fd) d.dev_addr d.bus).1 in
      let w1 = echo.accepts (ch ∷ level.msb ∷ level.lsb ∷ []) b1 in
      let b2 = (io.write (pos fd) (ch ∷ level.msb ∷ level.lsb ∷ []) b1).1 in
      let (r2, s2) = echo.selects d.dev_addr b2 in
      let b3 = (io.select (pos fd) d.dev_addr b2).1 in
      let w2 = echo.accepts (ch ∷ []) b3 in
      let b4 = (io.write (pos fd) (ch ∷ []) b3).1 in
      let (m, back, same) = echo.echoes d.dev_addr ch level.msb level.lsb d.bus in
      (
        b2,
        (io.read_two (pos fd) b4).1,
        write_dac_ok d unset val ch fd r1 b1 b2 ready dev small (known_first _ _ s1)
            (known_first _ _ w1),
        rw (get_value-set_value val m unset.level fits same) at (
            read_dac_ok (record d { bus = b2 }) unset ch fd r2 m level.lsb b3 b4 _ ready dev small
              (known_first _ _ s2) (known_first _ _ w2) (known_first _ _ back)),
      )

  sweep_channels_one :
      (d : Driver io.Bus) (n ch val : ℕ)
      → d.is_ready ≡ true
      → d.dev ≡ pos fd
      → ch ≤ 2
      → val < 2 ^ 12
      → (b : io.Bus) × (sweep_channels unset (suc n) ch val d
          ≡ sweep_channels unset n (ch + 1) val (record d { bus = b }))
  unfolding sweep_channels ◌>>=◌
  sweep_channels_one d n ch val ready dev small fits =
      let (b, b', w, r) = write_read d ch val ready dev small fits in (b', ground (arith, w, r))

  sweep_channels-Completes :
      (d : Driver io.Bus) (val : ℕ)
      → d.is_ready ≡ true
      → d.dev ≡ pos fd
      → val < 2 ^ 12
      → Completes d none (sweep_channels unset 2 1 val d)
  sweep_channels-Completes d val ready dev fits =
      let (b, first) = sweep_channels_one d 1 1 val ready dev (omega arith) fits in
      let (b', second) =
        sweep_channels_one (record d { bus = b }) 0 2 val ready dev (omega arith) fits in
      (b', first ∙ second ∙ (unfold sweep_channels pure in refl))

  sweep_values-Completes :
      (n val : ℕ) (d : Driver io.Bus)
      → d.is_ready ≡ true
      → d.dev ≡ pos fd
      → val + n ≤ 2 ^ 12
      → Completes d none (sweep_values unset n val d)
  unfolding sweep_values ◌>>=◌
  sweep_values-Completes zero val d ready dev fits = (d.bus, refl)
  sweep_values-Completes (suc n) val d ready dev fits =
      let (b, one) = sweep_channels-Completes d val ready dev (omega arith) in
      let (b', rest) =
        sweep_values-Completes n (val + 1) (record d { bus = b }) ready dev (omega arith) in
      (b', rw one rest)

  sweep_while-Completes :
      (runs : List Bool) (d : Driver io.Bus)
      → d.is_ready ≡ true
      → d.dev ≡ pos fd
      → Completes d (end_of runs) (sweep_while unset runs d)
  unfolding sweep_while ◌>>=◌
  sweep_while-Completes [] d ready dev = (d.bus, refl)
  sweep_while-Completes (false ∷ runs) d ready dev = (d.bus, refl)
  sweep_while-Completes (true ∷ runs) d ready dev =
      let (b, one) = sweep_values-Completes 0xfff 0 d ready dev (omega arith) in
      let (b', rest) = sweep_while-Completes runs (record d { bus = b }) ready dev in
      (b', rw one rest)

  -- Where the bus opens, over a converter that reads back what it was sent: the program reports no
  -- failed write and no difference, but runs until a test of `run` reads false, and then the bus is
  -- closed.
  pub sweep_program_completes :
      (runs : List Bool) (bus_nr address : ℕ) (b b' : io.Bus)
      → io.open_file (codes "/dev/i2c-" ++ show bus_nr) b ≡ (pos fd, b')
      → (end_bus : io.Bus) × (sweep_program unset runs (new_driver bus_nr address b) ≡ (
        ok (end_of runs),
        record (new_driver bus_nr address b) {
          dev = pos fd;
          is_ready = true;
          bus = io.close_file (pos fd) end_bus;
        },
      ))
  unfolding sweep_program connect destroy on_bus ◌>>=◌
  sweep_program_completes runs bus_nr address b b' opened =
      let ready = record (new_driver bus_nr address b) {
        dev = pos fd;
        is_ready = true;
        bus = io.query_functions (pos fd) b';
      } in
      let (end_bus, swept) = sweep_while-Completes runs ready refl refl in
      (end_bus, rw opened (rw swept refl))
