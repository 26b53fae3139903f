-- ===== src/Attenuator/Port.antt =====
-- `write_cmd` and `read_cmd` of the attenuator, with one retry each, and the shape of its commands.
use laser_control.Common.{
  ⊤, Bool, true, false, not, ◌-◌, ◌++◌, String, Bytes, codes, [], ltb, ◌==◌, if◌then◌else◌, length,
}
use laser_control.Effects.{Result, ok, err, io_exception, ◌>>=◌, ◌>>◌, pure, lift, throw_if}
use laser_control.Std.Strings.{erase_from}
use laser_control.Std.Floating.{Floating}
use laser_control.Serial.{Serial}
use laser_control.Device as Dev
use laser_control.Attenuator.{Act, on_device}

-- What `read_cmd` does with the bytes that `readline` appended, from the test `nbytes < 2` on.
unfoldable pub strip_two : Bytes → Bytes → Result (Bool × Bytes)
strip_two answer line =
    let whole = answer ++ line in
    if ltb (length line) 2 then ok (false, whole) else elim (erase_from whole (length whole - 2)) [
      | ok trimmed ↦ ok (true, trimmed)
      | err e ↦ err e
    ]

module _ ⦃sp : Serial⦄ ⦃fl : Floating⦄ where
  unfoldable pub reset_connection : Act ⊤
  reset_connection = on_device Dev.reset_connection

  -- `write_cmd(cmd, false)`.
  unfoldable pub write_once : Bytes → Act Bool
  write_once cmd = on_device (Dev.write_cmd cmd)

  -- `write_cmd(cmd)`: the retry is `write_cmd(cmd, false)`.
  unfoldable pub write_cmd : Bytes → Act Bool
  write_cmd cmd = do
    st ← on_device (Dev.write_cmd cmd)
    if st then pure true else (do reset_connection; write_once cmd)

  -- `read_cmd(answer, false)`.
  unfoldable pub read_once : Bytes → Act (Bool × Bytes)
  read_once answer = do
    line ← on_device (Dev.on_serial (sp.readline 0xffff (codes "\n\r")))
    if length line == 0 then pure (false, answer) else lift (strip_two answer line)

  -- `read_cmd(answer)`.
  unfoldable pub read_cmd : Bytes → Act (Bool × Bytes)
  read_cmd answer = do
    line ← on_device (Dev.on_serial (sp.readline 0xffff (codes "\n\r")))
    if length line == 0
        then (do reset_connection; read_once answer)
        else lift (strip_two answer line)

  -- A command is sent, or an exception says that it could not be.
  unfoldable pub send : Bytes → String → Act ⊤
  send cmd message = do st ← write_cmd cmd; throw_if (not st) (io_exception message)

  -- A command is sent and its answer read.
  unfoldable pub ask : Bytes → String → String → Act Bytes
  ask cmd unsent unread = do
    send cmd unsent
    answer ← read_cmd []
    throw_if (not answer.0) (io_exception unread)
    pure answer.1
