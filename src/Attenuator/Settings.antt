-- ===== src/Attenuator/Settings.antt =====
-- The commands that configure the controller, and the cached settings they change.
use laser_control.Common.{
  ℕ, ⊤, not, ◌-◌, ◌%◌, ◌^◌, ◌++◌, Bytes, codes, ltb, ◌==◌, if◌then◌else◌, length, take, replicate,
}
use laser_control.Effects.{◌>>=◌, ◌>>◌, pure, gets, modify, lift, throw_if, io_exception}
use laser_control.Std.Strings.{substr}
use laser_control.Std.Numbers.{show}
use laser_control.Std.Floating.{Floating}
use laser_control.Serial.{Serial}
use laser_control.Attenuator.{Act}
use laser_control.Attenuator.Port.{send, read_cmd}

-- The name that goes to the controller: cut to 20 bytes, or filled up with spaces in front. A name
-- of exactly 20 bytes takes neither branch, and the 20 spaces that `name` began as are sent.
unfoldable pub padded_name : Bytes → Bytes
padded_name sn =
    if ltb 20 (length sn)
    then take 20 sn
    else if ltb (length sn) 20
    then replicate (20 - length sn) b' ' ++ sn
    else replicate 20 b' '

module _ ⦃sp : Serial⦄ ⦃fl : Floating⦄ where
  -- The cached resolution changes before the command is sent. 16 is sent as 6.
  unfoldable pub set_resolution : ℕ → Act ⊤
  set_resolution res = do
    let r = if res == 16 then 6 else res
    modify (λ a. record a { resolution = res })
    send (codes "r " ++ show r) "Failed to set resolution"

  unfoldable pub get_resolution : Act ℕ
  get_resolution = gets (λ a. let res = a.resolution % 2 ^ 16 in if res == 6 then 16 else res)

  -- Only the low byte is sent, and the whole value is cached.
  unfoldable pub set_idle_current : ℕ → Act ⊤
  set_idle_current val = do
    send (codes "ws " ++ show (val % 2 ^ 8)) "Failed to set idle current"
    modify (λ a. record a { current_idle = val })

  unfoldable pub set_moving_current : ℕ → Act ⊤
  set_moving_current val = do
    send (codes "wm " ++ show (val % 2 ^ 8)) "Failed to set moving current"
    modify (λ a. record a { current_move = val })

  unfoldable pub set_acceleration : ℕ → Act ⊤
  set_acceleration val = do
    send (codes "a " ++ show (val % 2 ^ 8)) "Failed to set acceleration"
    modify (λ a. record a { acceleration = val })

  unfoldable pub set_deceleration : ℕ → Act ⊤
  set_deceleration val = do
    send (codes "d " ++ show (val % 2 ^ 8)) "Failed to set deceleration"
    modify (λ a. record a { deceleration = val })

  unfoldable pub set_max_speed : ℕ → Act ⊤
  set_max_speed speed = do
    send (codes "s " ++ show speed) "Failed to set max speed"
    modify (λ a. record a { max_speed = speed })

  unfoldable pub save_settings : Act ⊤
  save_settings = send (codes "ss") "Failed to send save settings command"

  unfoldable pub reset_controller : Act ⊤
  reset_controller = send (codes "j") "Failed to send reset command"

  unfoldable pub set_serial_number : Bytes → Act ⊤
  set_serial_number sn =
      send (codes "sn " ++ padded_name sn) "Failed to send command to set serial number"

  -- `before` is the text that the reference argument holds: the answer is appended to it.
  unfoldable pub get_serial_number : Bytes → Act Bytes
  get_serial_number before = do
    send (codes "n") "Failed to send command to get serial number"
    answer ← read_cmd before
    throw_if (not answer.0) (io_exception "Failed to read serial number")
    sn ← lift (substr answer.1 1)
    modify (λ a. record a { serial_number = sn })
    pure sn
