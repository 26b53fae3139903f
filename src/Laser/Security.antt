-- ===== src/Laser/Security.antt =====
-- The overloads of `Laser::security`.
use laser_control.Common.{
  ℕ, not, ◌%◌, ◌^◌, Bytes, codes, List, [], ◌∷◌, ◌==◌, if◌then◌else◌, length,
}
use laser_control.Common.Int.{ℤ}
use laser_control.Effects.{io_exception, ◌>>=◌, ◌>>◌, pure, gets, lift, throw_if}
use laser_control.Std.Strings.{at, erase_from, size_sub, bytes_eq}
use laser_control.Std.Numbers.{stoul, stol}
use laser_control.Std.Floating.{Floating}
use laser_control.Serial.{Serial}
use laser_control.Device
use laser_control.Laser.{Act, on_device, reset_connection, send_or_throw}

-- `m_sec_map[code]`, or the empty text where `count(code)` is 0.
unfoldable pub message_of : List (Bytes × Bytes) → Bytes → Bytes
message_of [] code = []
message_of ((k, v) ∷ m) code = if bytes_eq k code then v else message_of m code

module _ ⦃sp : Serial⦄ ⦃fl : Floating⦄ where
  -- The answer is read again after a reset if there is none, and must be two lines the first time.
  unfoldable pub security_lines : Act (List Bytes)
  security_lines = do
    lines ← on_device Device.read_lines
    if length lines == 0
        then (do
          reset_connection
          again ← on_device Device.read_lines
          throw_if (length again == 0) (io_exception "Failed to read security code")
          pure again)
        else (do
          throw_if (not (length lines == 2))
              (io_exception "Failed to read security code. Got unexpected number of tokens : ")
          pure lines)

  unfoldable pub security_code : Act Bytes
  security_code = do
    send_or_throw (codes "SE") "Failed to send SE command"
    lines ← security_lines
    resp ← lift (at lines 1)
    lift (erase_from resp (size_sub (length resp) 1))

  unfoldable pub security : Act (Bytes × Bytes)
  security = do code ← security_code; m ← gets (λ l. l.sec_map); pure (code, message_of m code)

  -- `security(uint16_t &code, std::string &msg)`.
  unfoldable pub security_u16 : Act (ℕ × Bytes)
  security_u16 = do answer ← security; code ← lift (stoul answer.0); pure (code % 2 ^ 16, answer.1)

  -- `security(Security &code, std::string &msg)`: the number that is cast to the enumeration.
  unfoldable pub security_enum : Act (ℤ × Bytes)
  security_enum = do answer ← security; code ← lift (stol answer.0); pure (code, answer.1)
