-- ===== src/Dac/Sweep.antt =====
-- i2c_deprecated/test_AD5339.cpp: a saw signal on both channels, each value of it read back. The
-- pauses and the output of the driver are left out.
pub mod Echo
use laser_control.Common.{
  ℕ, zero, suc, Bool, true, false, ◌+◌, Option, none, some, List, [], ◌∷◌, ◌==◌, if◌then◌else◌,
}
use laser_control.Common.Int.{ℤ, pos, negsuc}
use laser_control.Effects.{◌>>=◌, ◌>>◌, pure, gets}
use laser_control.Dac.{I2c, Dac, Driver, Act, connect, destroy, write_dac, read_dac}

-- What the program prints before it ends. `sweeping` is no end of it: the loop still runs when what
-- is known of `run` is used up.
pub data Outcome : Type 0 where
  not_ready stopped sweeping : Outcome
  write_failed : ℕ → ℕ → Outcome
  read_back_failed : ℕ → ℕ → ℤ → Outcome

abbrev pub equals : ℤ → ℕ → Bool
equals (pos n) m = n == m
equals (negsuc n) m = false

-- `unset` is a `dac_t` as its declaration leaves it.
module _ ⦃io : I2c⦄ (unset : Dac) where
  -- The loop over the channels, with `n` of them left from `ch` on; `none` where it ends by itself.
  unfoldable pub sweep_channels : ℕ → ℕ → ℕ → Act (Option Outcome)
  sweep_channels zero ch val = pure none
  sweep_channels (suc n) ch val = do
    let rest = sweep_channels n (ch + 1) val
    ret ← write_dac unset val ch
    if ret == 0 then pure (some (Outcome.write_failed val ch)) else (do
      rdbck ← read_dac unset ch
      if equals rdbck val then rest else pure (some (Outcome.read_back_failed val ch rdbck)))

  -- The loop over the values, with `n` of them left from `val` on.
  unfoldable pub sweep_values : ℕ → ℕ → Act (Option Outcome)
  sweep_values zero val = pure none
  sweep_values (suc n) val = do
    let rest = sweep_values n (val + 1)
    failed ← sweep_channels 2 1 val
    elim failed [ none ↦ rest | some o ↦ pure (some o) ]

  -- The loop on `run`, which a signal clears: what its tests read, one after the other.
  unfoldable pub sweep_while : List Bool → Act Outcome
  sweep_while [] = pure Outcome.sweeping
  sweep_while (false ∷ runs) = pure Outcome.stopped
  sweep_while (true ∷ runs) = do
    let rest = sweep_while runs
    failed ← sweep_values 0xfff 0
    elim failed [ none ↦ rest | some o ↦ pure o ]

  -- `main`, from the fields that the constructor of the driver sets to its end.
  unfoldable pub sweep_program : List Bool → Act Outcome
  sweep_program runs = do
    connect
    ready ← gets (λ d. d.is_ready)
    outcome ← if ready then sweep_while runs else pure Outcome.not_ready
    destroy
    pure outcome
