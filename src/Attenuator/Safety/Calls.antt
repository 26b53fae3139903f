-- ===== src/Attenuator/Safety/Calls.antt =====
-- Every call of the attenuator keeps its traffic and its registers.
use laser_control.Common.{
  ℕ, Bool, ◌≡◌, ◌++◌, true, false, ◌<◌, ◌^◌, ◌==◌, refl, arith, String, Bytes, codes, if◌then◌else◌,
}
use laser_control.Common.Int.{ℤ, wrap_i32, wrap_i32-IsI32}
use laser_control.Effects.{Action, modify}
use laser_control.Effects.Hoare.{Keeps, keeps_rules, Keeps-bind, Keeps-if, Keeps-pure}
use laser_control.Std.Floating.{Floating}
use laser_control.Std.Numbers.{show}
use laser_control.Std.Numbers.Width.{show_digit}
use laser_control.Serial.{Serial}
use laser_control.Serial.Logged.{logged}
use laser_control.Attenuator.Port
use laser_control.Attenuator.Motion
use laser_control.Attenuator.Settings
use laser_control.Attenuator.Frames.{Limits, IsFrame}
use laser_control.Attenuator.Names.{length-padded_name}
use laser_control.Attenuator.Safety.{Motor, IsKept, modify-IsKept, send-IsKept, read_cmd-IsKept}
use laser_control.Attenuator.Safety.Polls.{
  requests, moves, tunes, get_position-IsKept, refresh_position-IsKept,
}

module _ (sp : Serial) ⦃fl : Floating⦄ ⦃lim : Limits⦄ where
  abbrev Holds : {A : Type 0} → Action (Motor sp) A → Type 0
  Holds m = Keeps (IsKept sp) m

  require_stopped-IsKept :
      (message : String) → Holds (Motion.require_stopped ⦃sp = logged sp⦄ message)
  unfolding Motion.require_stopped
  require_stopped-IsKept message = search (keeps_rules, refresh_position-IsKept)

  position_if-IsKept :
      (polls : ℕ) (wait : Bool) → Holds (Motion.position_if ⦃sp = logged sp⦄ polls wait)
  unfolding Motion.position_if
  position_if-IsKept polls wait =
      Keeps-if wait _ _
        (λ e.
          Keeps-bind _ _ (get_position-IsKept sp polls _ wait (λ z. Keeps-pure tt))
            λ now. Keeps-pure _)
        λ e. Keeps-pure _

  pub move-IsKept :
      (polls : ℕ) (z : ℤ) (wait : Bool)
      → lim.steps z
      → Holds (Motion.move ⦃sp = logged sp⦄ polls z wait)
  unfolding Motion.move
  move-IsKept polls z wait h =
      Keeps-bind _ _ (require_stopped-IsKept _)
        λ u. Keeps-bind _ _ (moves sp (codes "m ") z _ 0 refl h) λ v. position_if-IsKept polls wait

  pub go-IsKept :
      (polls : ℕ) (z : ℤ) (wait : Bool)
      → lim.steps z
      → Holds (Motion.go ⦃sp = logged sp⦄ polls z wait)
  unfolding Motion.go
  go-IsKept polls z wait h =
      Keeps-bind _ _ (require_stopped-IsKept _)
        λ u. Keeps-bind _ _ (moves sp (codes "g ") z _ 1 refl h) λ v. position_if-IsKept polls wait

  -- A new offset.
  offset-IsKept : (f : Motor sp → ℤ) → Holds (modify (λ a. record a { offset = wrap_i32 (f a) }))
  offset-IsKept f =
      modify-IsKept sp _ (λ a. refl)
        λ a h. (wrap_i32-IsI32 (f a), h.1, h.2, h.3, h.4, h.5, h.6, h.7, h.8, h.9)

  pub set_current_position-IsKept :
      (z : ℤ) → lim.steps z → Holds (Motion.set_current_position ⦃sp = logged sp⦄ z)
  unfolding Motion.set_current_position
  set_current_position-IsKept z h =
      Keeps-bind _ _ (require_stopped-IsKept _)
        λ u. Keeps-bind _ _ (moves sp (codes "i ") z _ 2 refl h) λ v. offset-IsKept _

  pub set_zero-IsKept : Holds (Motion.set_zero ⦃sp = logged sp⦄)
  unfolding Motion.set_zero
  set_zero-IsKept =
      Keeps-bind _ _ (require_stopped-IsKept _)
        λ u. Keeps-bind _ _ (offset-IsKept _) λ v. requests sp (codes "h") _ 6 refl

  pub go_home-IsKept : Holds (Motion.go_home ⦃sp = logged sp⦄)
  unfolding Motion.go_home
  go_home-IsKept = Keeps-bind _ _ (require_stopped-IsKept _) λ u.
      Keeps-bind _ _ (requests sp (codes "zp") _ 7 refl) λ v.
        modify-IsKept sp _ (λ a. refl)
          λ a h. (omega arith, h.1, h.2, h.3, h.4, h.5, h.6, h.7, h.8, h.9)

  pub stop-IsKept : (force : Bool) → Holds (Motion.stop ⦃sp = logged sp⦄ force)
  unfolding Motion.stop
  stop-IsKept true = requests sp (codes "b") _ 5 refl
  stop-IsKept false = requests sp (codes "st") _ 4 refl

  resolution_frame :
      (n : ℕ) (coded : Bool)
      → (n == 16) ≡ coded
      → lim.resolution n
      → IsFrame ((codes "r " ++ show (if coded then 6 else n)) ++ codes "\r")
  resolution_frame n true e h =
      let sixteen : n ≡ 16 = ground (arith, e) in
      IsFrame.sixteenths (rw sixteen at h) (rw (show_digit 6 (omega arith)))
  resolution_frame n false e h = IsFrame.resolution n h (ground (arith, e)) refl

  pub set_resolution-IsKept :
      (n : ℕ) → n < 2 ^ 16 → lim.resolution n → Holds (Settings.set_resolution ⦃sp = logged sp⦄ n)
  unfolding Settings.set_resolution
  set_resolution-IsKept n small h =
      Keeps-bind _ _
        (modify-IsKept sp _ (λ a. refl)
          λ a k. (k.0, k.1, k.2, k.3, k.4, k.5, k.6, k.7, k.8, omega arith))
        λ u. send-IsKept sp _ _ (resolution_frame n (n == 16) refl h)

  pub set_idle_current-IsKept :
      (n : ℕ) → n < 2 ^ 16 → Holds (Settings.set_idle_current ⦃sp = logged sp⦄ n)
  unfolding Settings.set_idle_current
  set_idle_current-IsKept n h =
      Keeps-bind _ _ (tunes sp (codes "ws ") n _ 0 refl)
        λ u. modify-IsKept sp _ (λ a. refl) λ a k. (k.0, k.1, k.2, k.3, k.4, h, k.6, k.7, k.8, k.9)

  pub set_moving_current-IsKept :
      (n : ℕ) → n < 2 ^ 16 → Holds (Settings.set_moving_current ⦃sp = logged sp⦄ n)
  unfolding Settings.set_moving_current
  set_moving_current-IsKept n h =
      Keeps-bind _ _ (tunes sp (codes "wm ") n _ 1 refl)
        λ u. modify-IsKept sp _ (λ a. refl) λ a k. (k.0, k.1, k.2, k.3, k.4, k.5, h, k.7, k.8, k.9)

  pub set_acceleration-IsKept :
      (n : ℕ) → n < 2 ^ 16 → Holds (Settings.set_acceleration ⦃sp = logged sp⦄ n)
  unfolding Settings.set_acceleration
  set_acceleration-IsKept n h =
      Keeps-bind _ _ (tunes sp (codes "a ") n _ 2 refl)
        λ u. modify-IsKept sp _ (λ a. refl) λ a k. (k.0, k.1, k.2, h, k.4, k.5, k.6, k.7, k.8, k.9)

  pub set_deceleration-IsKept :
      (n : ℕ) → n < 2 ^ 16 → Holds (Settings.set_deceleration ⦃sp = logged sp⦄ n)
  unfolding Settings.set_deceleration
  set_deceleration-IsKept n h =
      Keeps-bind _ _ (tunes sp (codes "d ") n _ 3 refl)
        λ u. modify-IsKept sp _ (λ a. refl) λ a k. (k.0, k.1, k.2, k.3, h, k.5, k.6, k.7, k.8, k.9)

  pub set_max_speed-IsKept :
      (n : ℕ) → n < 2 ^ 32 → lim.speed n → Holds (Settings.set_max_speed ⦃sp = logged sp⦄ n)
  unfolding Settings.set_max_speed
  set_max_speed-IsKept n small h = Keeps-bind _ _ (send-IsKept sp _ _ (IsFrame.speed n h refl)) λ u.
      modify-IsKept sp _ (λ a. refl) λ a k. (k.0, k.1, small, k.3, k.4, k.5, k.6, k.7, k.8, k.9)

  pub save_settings-IsKept : Holds (Settings.save_settings ⦃sp = logged sp⦄)
  unfolding Settings.save_settings
  save_settings-IsKept = requests sp (codes "ss") _ 8 refl

  pub reset_controller-IsKept : Holds (Settings.reset_controller ⦃sp = logged sp⦄)
  unfolding Settings.reset_controller
  reset_controller-IsKept = requests sp (codes "j") _ 9 refl

  pub set_serial_number-IsKept :
      (sn : Bytes) → Holds (Settings.set_serial_number ⦃sp = logged sp⦄ sn)
  unfolding Settings.set_serial_number
  set_serial_number-IsKept sn =
      send-IsKept sp _ _ (IsFrame.name (Settings.padded_name sn) (length-padded_name sn) refl)

  asks_name : (message : String) → Holds (Port.send ⦃sp = logged sp⦄ (codes "n") message)
  asks_name message = requests sp (codes "n") message 3 refl

  stores_name : (sn : Bytes) → Holds (modify (λ a. record a { serial_number = sn }))
  stores_name sn = modify-IsKept sp _ (λ a. refl) λ a h. h

  pub get_serial_number-IsKept :
      (before : Bytes) → Holds (Settings.get_serial_number ⦃sp = logged sp⦄ before)
  unfolding Settings.get_serial_number
  get_serial_number-IsKept before =
      search (keeps_rules, asks_name, read_cmd-IsKept, stores_name) depth 20
