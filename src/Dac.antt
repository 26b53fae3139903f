-- ===== src/Dac.antt =====
-- i2c_deprecated/AD5339.h and AD5339.cpp: the driver of a digital-to-analog converter at an I2C bus.
-- It reports errors by the code 0 or -1. The output under `m_debug` and the pause are left out.
pub mod Levels
pub mod Registers
pub mod Sweep
pub mod Tests
use laser_control.Common.{
  ℕ, ⊤, Bool, true, false, not, ◌+◌, ◌*◌, ◌/◌, ◌%◌, ◌-◌, ◌^◌, Option, none, some, List, [], ◌∷◌,
  ◌++◌, Bytes, codes, ltb, ◌==◌, if◌then◌else◌, length,
}
use laser_control.Common.Int.{ℤ, pos, negsuc}
use laser_control.Effects.{Action, ok, ◌>>=◌, ◌>>◌, pure, gets, modify, when}
use laser_control.Std.Numbers.{show}

-- The system calls on the bus. A file descriptor and a result are -1 on failure.
pub record I2c : Type 1 where
  pub Bus : Type 0
  -- `open(path, O_RDWR)`
  pub open_file : Bytes → Bus → ℤ × Bus
  pub close_file : ℤ → Bus → Bus
  -- `ioctl(fd, I2C_FUNCS, &funcs)`
  pub query_functions : ℤ → Bus → Bus
  -- `ioctl(fd, I2C_SLAVE, addr)`
  pub select : ℤ → ℕ → Bus → ℤ × Bus
  pub write : ℤ → Bytes → Bus → ℤ × Bus
  -- `read(fd, buffer, 2)`: the buffer, if two bytes came
  pub read_two : ℤ → Bus → Option (ℕ × ℕ) × Bus

-- `level_t`.
pub record Level : Type 0 where
  pub msb : ℕ
  pub lsb : ℕ

-- `dac_t`.
pub record Dac : Type 0 where
  pub ptr : ℕ
  pub level : Level

-- `b & ~(1 << i)` and `b | (v << i)`, for a bit `i` that is clear in `b`.
abbrev clear_bit : ℕ → ℕ → ℕ
clear_bit i b = b - b / 2 ^ i % 2 * 2 ^ i

-- `!v`.
abbrev negated : Bool → ℕ
negated v = if v then 0 else 1

unfoldable pub set_clear : Bool → Level → Level
set_clear clear l = record l { msb = clear_bit 5 l.msb + negated clear * 2 ^ 5 }

unfoldable pub set_load : Bool → Level → Level
set_load load l = record l { msb = clear_bit 4 l.msb + negated load * 2 ^ 4 }

-- `load` is not read.
unfoldable pub set_value : ℕ → Bool → Bool → Level → Level
unfolding set_clear
set_value val clear load l = record (set_clear clear (record l { msb = val / 2 ^ 8 % 2 ^ 4 })) {
  lsb = val % 2 ^ 8;
}

unfoldable pub get_value : Level → ℕ
get_value l = l.msb % 2 ^ 4 * 2 ^ 8 + l.lsb

unfoldable pub set_channel : ℕ → Dac → Dac
set_channel ch d = record d { ptr = ch % 2 ^ 4 }

unfoldable pub get_channel : Dac → ℕ
get_channel d = d.ptr

-- `reinterpret_cast<uint8_t*>(&dac)`.
unfoldable pub bytes_of : Dac → Bytes
bytes_of d = d.ptr ∷ d.level.msb ∷ d.level.lsb ∷ []

-- `B` is the state of the bus.
pub record Driver (B : Type 0) : Type 0 where
  pub bus_addr : ℕ
  pub dev_addr : ℕ
  pub dev : ℤ
  pub is_ready : Bool
  pub bus : B

abbrev is_negative : ℤ → Bool
is_negative (pos n) = false
is_negative (negsuc n) = true

abbrev equals : ℤ → ℕ → Bool
equals (pos n) m = n == m
equals (negsuc n) m = false

module _ ⦃io : I2c⦄ where
  abbrev pub Act : Type 0 → Type 0
  Act A = Action (Driver io.Bus) A

  unfoldable pub on_bus : {A : Type 0} → (io.Bus → A × io.Bus) → Act A
  on_bus f d = let (a, b) = f d.bus in (ok a, record d { bus = b })

  -- The fields as `AD5339::AD5339` sets them.
  abbrev pub new_driver : ℕ → ℕ → io.Bus → Driver io.Bus
  new_driver bus_nr address b = record {
    bus_addr = bus_nr;
    dev_addr = address % 2 ^ 8;
    dev = negsuc 0;
    is_ready = false;
    bus = b;
  }

  -- The rest of `AD5339::AD5339`.
  unfoldable pub connect : Act ⊤
  connect = do
    bus_nr ← gets (λ d. d.bus_addr)
    fd ← on_bus (io.open_file (codes "/dev/i2c-" ++ show bus_nr))
    modify (λ d. record d { dev = fd })
    if is_negative fd then pure tt else (do
      modify (λ d. record d { is_ready = true })
      modify (λ d. record d { bus = io.query_functions fd d.bus }))

  -- `AD5339::~AD5339`.
  unfoldable pub destroy : Act ⊤
  destroy = do
    ready ← gets (λ d. d.is_ready)
    when ready (modify (λ d. record d { bus = io.close_file d.dev d.bus }))

  unfoldable pub i2c_set_device : ℕ → Act ℕ
  i2c_set_device addr = do
    fd ← gets (λ d. d.dev)
    ret ← on_bus (io.select fd addr)
    pure (if is_negative ret then 0 else 1)

  unfoldable pub i2c_write : ℤ → ℕ → Bytes → Act ℕ
  i2c_write fd addr buffer = if is_negative fd then pure 0 else (do
    set ← i2c_set_device addr
    if set == 0 then pure 0 else (do
      wr_bytes ← on_bus (io.write fd buffer)
      pure (if equals wr_bytes (length buffer) then 1 else 0)))

  -- The reading of the register behind `dac.ptr`: `none` for the code 0.
  unfoldable pub read_register : Dac → Act (Option Dac)
  read_register dac = do
    fd ← gets (λ d. d.dev)
    addr ← gets (λ d. d.dev_addr)
    pointed ← i2c_write fd addr (dac.ptr ∷ [])
    if pointed == 0 then pure none else (do buffer ← on_bus (io.read_two fd); pure (filled buffer))
    where
      filled : Option (ℕ × ℕ) → Option Dac
      filled none = none
      filled (some (m, l)) =
          some (record dac { level = record { msb = m % 2 ^ 8; lsb = l % 2 ^ 8 } })

  unfoldable pub i2c_read : Dac → Act (Option Dac)
  i2c_read dac = do
    ready ← gets (λ d. d.is_ready)
    if not ready
        then pure none
        else if ltb 2 (get_channel dac)
        then pure none
        else read_register dac

  -- `dac` as the declaration leaves it: its fields are not set.
  unfoldable pub write_dac : Dac → ℕ → ℕ → Act ℕ
  write_dac dac val ch = do
    ready ← gets (λ d. d.is_ready)
    fd ← gets (λ d. d.dev)
    addr ← gets (λ d. d.dev_addr)
    let filled = set_channel ch (record dac { level = set_value val false true dac.level })
    if not ready
        then pure 0
        else (do sent ← i2c_write fd addr (bytes_of filled); pure (if sent == 0 then 0 else 1))

  unfoldable pub read_dac : Dac → ℕ → Act ℤ
  read_dac dac ch = do
    ready ← gets (λ d. d.is_ready)
    if not ready
        then pure (negsuc 0)
        else if ltb 2 ch
        then pure (negsuc 0)
        else (do got ← i2c_read (set_channel ch dac); pure (value_of got))
    where
      value_of : Option Dac → ℤ
      value_of none = negsuc 0
      value_of (some d) = pos (get_value d.level)
