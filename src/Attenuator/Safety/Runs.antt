-- ===== src/Attenuator/Safety/Runs.antt =====
-- The registers that are read back, the transmission, and sequences of calls.
use laser_control.Common.{
  ℕ, ◌<◌, ◌^◌, ⊤, Bool, ◌≡◌, refl, All, arith, List, [], ◌∷◌, Bytes, String, codes,
}
use laser_control.Common.Int.{ℤ, pos, negsuc, IsI32, wrap_i32-IsI32, to_unsigned}
use laser_control.Effects.{Action, ◌>>◌, pure}
use laser_control.Effects.Hoare.{
  Keeps, keeps_rules, Keeps-lift, Keeps-bind, Keeps-pure, Keeps-bind_gets,
}
use laser_control.Std.Floating.{Floating}
use laser_control.Serial.{Serial}
use laser_control.Serial.Logged.{logged}
use laser_control.Attenuator.Port
use laser_control.Attenuator.Status
use laser_control.Attenuator.Transmission
use laser_control.Attenuator.Getters
use laser_control.Attenuator.Ops.{Op, IsWithin, call, run}
use laser_control.Attenuator.Frames.{Limits}
use laser_control.Attenuator.Safety.{Motor, Fits, IsKept, modify-IsKept}
use laser_control.Attenuator.Safety.Polls.{asks, get_position-IsKept, refresh_position-IsKept}
use laser_control.Attenuator.Safety.Calls.{
  move-IsKept, go-IsKept, set_current_position-IsKept, set_zero-IsKept, go_home-IsKept, stop-IsKept,
  set_resolution-IsKept, set_idle_current-IsKept, set_moving_current-IsKept,
  set_acceleration-IsKept, set_deceleration-IsKept, set_max_speed-IsKept, save_settings-IsKept,
  reset_controller-IsKept, set_serial_number-IsKept, get_serial_number-IsKept,
}

module _ (sp : Serial) ⦃fl : Floating⦄ ⦃lim : Limits⦄ where
  open fl use {Double}

  abbrev Holds : {A : Type 0} → Action (Motor sp) A → Type 0
  Holds m = Keeps (IsKept sp) m

  -- A register of the answer, stored in the width of its type.
  signed-IsKept :
      (tokens : List Bytes) (i : ℕ) (store : ℤ → Motor sp → Motor sp)
      → ((v : ℤ) (a : Motor sp) → (store v a).device ≡ a.device)
      → ((v : ℤ) (a : Motor sp) → Fits sp a → Fits sp (store v a))
      → Holds (Status.signed_field ⦃sp = logged sp⦄ tokens i store)
  unfolding Status.signed_field
  signed-IsKept tokens i store same fits =
      Keeps-bind _ _ (Keeps-lift _)
        λ t. Keeps-bind _ _ (Keeps-lift _) λ v. modify-IsKept sp (store v) (same v) (fits v)

  unsigned-IsKept :
      (tokens : List Bytes) (i : ℕ) (store : ℕ → Motor sp → Motor sp)
      → ((v : ℕ) (a : Motor sp) → (store v a).device ≡ a.device)
      → ((v : ℕ) (a : Motor sp) → Fits sp a → Fits sp (store v a))
      → Holds (Status.unsigned_field ⦃sp = logged sp⦄ tokens i store)
  unfolding Status.unsigned_field
  unsigned-IsKept tokens i store same fits =
      Keeps-bind _ _ (Keeps-lift _)
        λ t. Keeps-bind _ _ (Keeps-lift _) λ v. modify-IsKept sp (store v) (same v) (fits v)

  next : (m k : Action (Motor sp) ⊤) → Holds m → Holds k → Holds (m >> k)
  next m k h g = Keeps-bind m _ h λ u. g

  -- The widths of the numbers that are stored.
  u32_below : (v : ℤ) → to_unsigned (2 ^ 32) v < 2 ^ 32
  unfolding to_unsigned
  u32_below (pos n) = omega arith
  u32_below (negsuc n) = omega arith

  op_mode-IsKept :
      (ts : List Bytes) (i : ℕ)
      → Holds (
          Status.signed_field ⦃sp = logged sp⦄ ts i
            (λ v a. record a { op_mode = pos (to_unsigned (2 ^ 32) v) }))
  op_mode-IsKept ts i =
      signed-IsKept ts i _ (λ v a. refl)
        λ v a k. (k.0, k.1, k.2, k.3, k.4, k.5, k.6, (omega arith, u32_below v), k.8, k.9)

  motor_state-IsKept :
      (ts : List Bytes) (i : ℕ)
      → Holds (
          Status.signed_field ⦃sp = logged sp⦄ ts i
            (λ v a. record a { motor_state = pos (to_unsigned (2 ^ 32) v) }))
  motor_state-IsKept ts i =
      signed-IsKept ts i _ (λ v a. refl)
        λ v a k. (k.0, k.1, k.2, k.3, k.4, k.5, k.6, k.7, (omega arith, u32_below v), k.9)

  store_status-IsKept : (tokens : List Bytes) → Holds (Status.store_status ⦃sp = logged sp⦄ tokens)
  unfolding Status.store_status
  store_status-IsKept tokens = next _ _ (op_mode-IsKept _ _) (
      next _ _ (motor_state-IsKept _ _) (
        next _ _
          (unsigned-IsKept _ _ _ (λ v a. refl)
            λ v a k. (k.0, k.1, k.2, omega arith, k.4, k.5, k.6, k.7, k.8, k.9))
          (next _ _
            (unsigned-IsKept _ _ _ (λ v a. refl)
              λ v a k. (k.0, k.1, k.2, k.3, omega arith, k.5, k.6, k.7, k.8, k.9))
            (next _ _
              (unsigned-IsKept _ _ _ (λ v a. refl)
                λ v a k. (k.0, k.1, omega arith, k.3, k.4, k.5, k.6, k.7, k.8, k.9))
              (next _ _
                (unsigned-IsKept _ _ _ (λ v a. refl)
                  λ v a k. (k.0, k.1, k.2, k.3, k.4, k.5, omega arith, k.7, k.8, k.9))
                (next _ _
                  (unsigned-IsKept _ _ _ (λ v a. refl)
                    λ v a k. (k.0, k.1, k.2, k.3, k.4, omega arith, k.6, k.7, k.8, k.9))
                  (next _ _
                    (unsigned-IsKept _ _ _ (λ v a. refl)
                      λ v a k. (k.0, k.1, k.2, k.3, k.4, k.5, k.6, k.7, k.8, omega arith))
                    (next _ _ (signed-IsKept _ _ _ (λ v a. refl) (λ v a h. h)) (
                      next _ _ (signed-IsKept _ _ _ (λ v a. refl) (λ v a h. h))
                        (signed-IsKept _ _ _ (λ v a. refl) (λ v a h. h)))))))))))

  asks_status :
      (unsent unread : String) → Holds (Port.ask ⦃sp = logged sp⦄ (codes "pc") unsent unread)
  asks_status unsent unread = asks sp (codes "pc") unsent unread 2 refl

  asks_raw_status :
      (unsent unread : String) → Holds (Port.ask ⦃sp = logged sp⦄ (codes "p") unsent unread)
  asks_raw_status unsent unread = asks sp (codes "p") unsent unread 1 refl

  pub refresh_status-IsKept : Holds (Status.refresh_status ⦃sp = logged sp⦄)
  unfolding Status.refresh_status
  refresh_status-IsKept = search (keeps_rules, asks_status, store_status-IsKept) depth 12

  pub get_status_raw-IsKept : Holds (Status.get_status_raw ⦃sp = logged sp⦄)
  unfolding Status.get_status_raw
  get_status_raw-IsKept = search (keeps_rules, asks_raw_status) depth 12

  set_transmission-IsKept :
      (polls : ℕ) (t : Double) (wait : Bool)
      → ((z : ℤ) → IsI32 z → lim.steps z)
      → Holds (Transmission.set_transmission ⦃sp = logged sp⦄ polls t wait)
  unfolding Transmission.set_transmission Transmission.trans_to_steps
  set_transmission-IsKept polls t wait h = Keeps-bind _ _ (search keeps_rules) λ u.
      Keeps-bind_gets _ _
        λ a held. (go-IsKept sp polls _ wait (h _ (wrap_i32-IsI32 _))).after a held

  dropped : {A : Type 0} (m : Action (Motor sp) A) → Holds m → Holds (m >> pure tt)
  dropped m h = Keeps-bind m _ h λ r. Keeps-pure tt

  call-IsKept : (op : Op Double) → IsWithin op → Holds (call ⦃sp = logged sp⦄ op)
  unfolding call Getters.set_cal_parameters
  call-IsKept (Op.move polls z wait) h = dropped _ (move-IsKept sp polls z wait h)
  call-IsKept (Op.go polls z wait) h = dropped _ (go-IsKept sp polls z wait h)
  call-IsKept (Op.get_position polls wait) h =
      dropped _ (get_position-IsKept sp polls _ wait (λ z. Keeps-pure tt))
  call-IsKept (Op.set_transmission polls t wait) h =
      dropped _ (set_transmission-IsKept polls t wait h)
  call-IsKept (Op.set_cal_parameters z scale) h = modify-IsKept sp _ (λ a. refl) λ a k. k
  call-IsKept (Op.set_current_position z) h = set_current_position-IsKept sp z h
  call-IsKept Op.set_zero h = set_zero-IsKept sp
  call-IsKept Op.go_home h = go_home-IsKept sp
  call-IsKept Op.save_settings h = save_settings-IsKept sp
  call-IsKept Op.reset_controller h = reset_controller-IsKept sp
  call-IsKept Op.refresh_status h = refresh_status-IsKept
  call-IsKept Op.refresh_position h = refresh_position-IsKept sp
  call-IsKept Op.get_status_raw h = dropped _ get_status_raw-IsKept
  call-IsKept (Op.stop force) h = stop-IsKept sp force
  call-IsKept (Op.set_resolution n) h = set_resolution-IsKept sp n h.0 h.1
  call-IsKept (Op.set_idle_current n) h = set_idle_current-IsKept sp n h
  call-IsKept (Op.set_moving_current n) h = set_moving_current-IsKept sp n h
  call-IsKept (Op.set_acceleration n) h = set_acceleration-IsKept sp n h
  call-IsKept (Op.set_deceleration n) h = set_deceleration-IsKept sp n h
  call-IsKept (Op.set_max_speed n) h = set_max_speed-IsKept sp n h.0 h.1
  call-IsKept (Op.set_serial_number sn) h = set_serial_number-IsKept sp sn
  call-IsKept (Op.get_serial_number before) h = dropped _ (get_serial_number-IsKept sp before)

  -- For any limits on steps, resolutions and speeds, whatever the port does, whichever calls throw
  -- and however long they wait: from a state with empty prefix, suffix "\r", recorded messages of
  -- Attenuator/Frames within the limits, and registers in the widths of their types, enumerations
  -- included, every sequence of calls whose arguments are numbers of their types within the limits,
  -- where set_transmission asks for limits that admit every int32, leaves such a state. So no other
  -- message is sent.
  pub run-IsKept :
      (ops : List (Op Double)) (a : Motor sp)
      → All IsWithin ops
      → IsKept sp a
      → IsKept sp (run ⦃sp = logged sp⦄ ops a)
  unfolding run
  run-IsKept [] a typed h = h
  run-IsKept (op ∷ ops) a typed h =
      run-IsKept ops (call ⦃sp = logged sp⦄ op a).1 typed.1 ((call-IsKept op typed.0).after a h)
