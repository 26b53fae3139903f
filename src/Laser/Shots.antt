-- ===== src/Laser/Shots.antt =====
-- `Laser::get_shot_count` and `Laser::read_cmd`.
use laser_control.Common.{
  ℕ, Bool, true, false, ◌%◌, ◌^◌, ◌-◌, ◌++◌, Bytes, codes, [], ltb, leb, ◌==◌, if◌then◌else◌,
  length,
}
use laser_control.Effects.{Result, ok, io_exception, ◌>>=◌, ◌>>◌, pure, gets, lift, throw_if, when}
use laser_control.Std.Strings.{at, erase_from}
use laser_control.Std.Numbers.{stoul}
use laser_control.Std.Floating.{Floating}
use laser_control.Serial.{Serial}
use laser_control.Device
use laser_control.Laser.{Act, on_device, write_cmd, reset_connection}

-- `if (resp.size() > 0) resp.erase(resp.size()-1);`
unfoldable pub drop_last : Bytes → Result Bytes
drop_last resp = if ltb 0 (length resp) then erase_from resp (length resp - 1) else ok resp

module _ ⦃sp : Serial⦄ ⦃fl : Floating⦄ where
  -- `resp` stays empty where no line came at first.
  unfoldable pub shot_count_text : Act Bytes
  shot_count_text = do
    lines ← on_device Device.read_lines
    if length lines == 0
        then (do
          reset_connection
          again ← on_device Device.read_lines
          throw_if (length again == 0) (io_exception "Failed to read shot count")
          pure [])
        else if length lines == 1
        then (do resp ← lift (at lines 0); lift (drop_last resp))
        else (do resp ← lift (at lines 1); lift (drop_last resp))

  unfoldable pub get_shot_count : Act ℕ
  get_shot_count = do
    sent ← write_cmd (codes "SC")
    resp ← shot_count_text
    count ← lift (stoul resp)
    pure (count % 2 ^ 32)

  -- What `read_cmd` does with the bytes `line` that the first `readline` appended to `answer`.
  unfoldable pub read_cmd : Bytes → Act (Bool × Bytes)
  read_cmd answer = do
    waits ← gets (λ l. l.wait_read)
    when waits (on_device (Device.on_serial sp.wait_readable) >> pure tt)
    sfx ← gets (λ l. l.read_sfx)
    line ← on_device (Device.on_serial (sp.readline 0xffff sfx))
    if length line == 0
        then (do
          reset_connection
          again ← on_device (Device.on_serial (sp.readline 0xffff sfx))
          pure (if length again == 0 then false else true, answer ++ again))
        else if leb (length line) (length sfx)
        then pure (false, answer ++ line)
        else (do
          trimmed ← lift (erase_from (answer ++ line) (length (answer ++ line) - length sfx))
          pure (true, trimmed))
