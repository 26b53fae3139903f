-- ===== src/Dac/Registers.antt =====
-- Writing a register of the converter, and reading one, over a bus that takes the messages.
use laser_control.Common.{
  ℕ, ◌≤◌, ◌<◌, ◌%◌, ◌^◌, ◌≡◌, true, false, not, ◌||◌, ltb, some, [], ◌∷◌, Bytes, arith, length,
}
use laser_control.Common.Int.{ℤ, pos, negsuc}
use laser_control.Effects.{Result, ok, err, ◌>>=◌}
use laser_control.Dac.{
  I2c, Dac, Driver, set_value, get_value, set_channel, get_channel, bytes_of, on_bus,
  i2c_set_device, i2c_write, read_register, i2c_read, write_dac, read_dac,
}

-- -1, or a number of twelve bits.
abbrev pub IsReading : Result ℤ → Type 0
IsReading (ok (pos n)) = n < 2 ^ 12
IsReading (ok (negsuc n)) = n ≡ 0
IsReading (err e) = ⊥

module _ ⦃io : I2c⦄ where
  i2c_write_ok :
      (d : Driver io.Bus) (buffer : Bytes) (fd r : ℕ) (b b' : io.Bus)
      → d.dev ≡ pos fd
      → io.select (pos fd) d.dev_addr d.bus ≡ (pos r, b)
      → io.write (pos fd) buffer b ≡ (pos (length buffer), b')
      → i2c_write (pos fd) d.dev_addr buffer d ≡ (ok 1, record d { bus = b' })
  unfolding i2c_write i2c_set_device on_bus ◌>>=◌
  i2c_write_ok d buffer fd r b b' dev s w = ground (arith, dev, s, w)

  pub write_dac_ok :
      (d : Driver io.Bus) (dac : Dac) (val ch fd r : ℕ) (b b' : io.Bus)
      → d.is_ready ≡ true
      → d.dev ≡ pos fd
      → ch ≤ 2
      → let level = set_value val false true dac.level in
        io.select (pos fd) d.dev_addr d.bus ≡ (pos r, b)
        → io.write (pos fd) (ch ∷ level.msb ∷ level.lsb ∷ []) b ≡ (pos 3, b')
        → write_dac dac val ch d ≡ (ok 1, record d { bus = b' })
  unfolding write_dac set_channel bytes_of ◌>>=◌
  write_dac_ok d dac val ch fd r b b' ready dev small s w =
      let level = set_value val false true dac.level in
      ground (arith, ready, dev, i2c_write_ok d (ch ∷ level.msb ∷ level.lsb ∷ []) fd r b b' dev s w)

  pub read_dac_ok :
      (d : Driver io.Bus) (dac : Dac) (ch fd r m l : ℕ) (b b' b'' : io.Bus)
      → d.is_ready ≡ true
      → d.dev ≡ pos fd
      → ch ≤ 2
      → io.select (pos fd) d.dev_addr d.bus ≡ (pos r, b)
      → io.write (pos fd) (ch ∷ []) b ≡ (pos 1, b')
      → io.read_two (pos fd) b' ≡ (some (m, l), b'')
      → read_dac dac ch d ≡ (
        ok (pos (get_value (record { msb = m % 2 ^ 8; lsb = l % 2 ^ 8 }))),
        record d { bus = b'' },
      )
  unfolding read_dac i2c_read read_register set_channel get_channel on_bus ◌>>=◌
  read_dac_ok d dac ch fd r m l b b' b'' ready dev small s w rd =
      ground (arith, ready, dev, i2c_write_ok d (ch ∷ []) fd r b b' dev s w, rd)

  -- Whatever the bus does, `read_dac` returns -1 or a number of twelve bits; it returns -1 and
  -- leaves the bus alone for a channel above 2 and where the driver is not ready.
  pub read_dac_bounds :
      (d : Driver io.Bus) (dac : Dac) (ch : ℕ)
      → IsReading (read_dac dac ch d).0
        × ((not d.is_ready || ltb 2 ch) ≡ true → read_dac dac ch d ≡ (ok (negsuc 0), d))
  unfolding read_dac i2c_read read_register i2c_write i2c_set_device on_bus set_channel get_channel
      get_value ◌>>=◌
  read_dac_bounds d dac ch = (ground arith, λ h. ground (arith, h))
