-- ===== src/Laser/Safety.antt =====
-- Safety of the laser: over a recording port, every message that any sequence of calls sends is one
-- of Laser/Frames, and the cached settings stay in their ranges.
use laser_control.Common.{
  ℕ, false, ◌≡◌, refl, ◌≤◌, ◌/◌, ◌%◌, [], ◌∷◌, ◌++◌, List, All, arith, String, Bytes, codes, ltb,
  if◌then◌else◌,
}
use laser_control.Effects.{Action, modify}
use laser_control.Effects.Hoare.{
  Keeps, keeps_rules, Keeps-on_part, Keeps-modify, Keeps-bind, Keeps-bind_throw_if,
}
use laser_control.Std.Numbers.{show, show_width3}
use laser_control.Std.Numbers.Width.{show_width3_lem, show_digit}
use laser_control.Std.Floating.{Floating}
use laser_control.Serial.{Serial}
use laser_control.Serial.Logged.{LoggedPort, logged}
use laser_control.Device as Dev
use laser_control.Device.{Device}
use laser_control.Device.Keeps.{
  IsClean, write_cmd-IsClean, reset_connection-IsClean, read_lines-IsClean,
}
use laser_control.Laser
use laser_control.Laser.{Laser, on_device, voltage_out_of_range}
use laser_control.Laser.Enums.{Shutter, open_shutter, closed, Fire, start, stop, fire_code}
use laser_control.Laser.Frames.{Forms, IsFrame}
use laser_control.Laser.Security
use laser_control.Laser.Shots
use laser_control.Laser.Ops.{Op, IsWithin, call, run}

module _ (sp : Serial) ⦃fl : Floating⦄ ⦃fm : Forms⦄ where
  open fl use {Float}

  abbrev LoggedLaser : Type 0
  LoggedLaser = Laser (LoggedPort sp) Float

  pub record IsSafe (l : LoggedLaser) : Type 0 where
    pub clean : IsClean sp IsFrame [] (codes "\r") l.device
    pub prescale_fits : l.prescale ≤ 99
    pub qswitch_fits : l.qswitch ≤ 999
    pub voltage_fits : voltage_out_of_range l.pump_hv ≡ false

  pub device-IsSafe :
      {A : Type 0} (m : Action (Device (LoggedPort sp)) A)
      → Keeps (IsClean sp IsFrame [] (codes "\r")) m
      → Keeps IsSafe (on_device m)
  unfolding on_device
  device-IsSafe m h = Keeps-on_part _ _ m λ l held. record {
    clean = h.after l.device held.clean;
    prescale_fits = held.prescale_fits;
    qswitch_fits = held.qswitch_fits;
    voltage_fits = held.voltage_fits;
  }

  write_cmd-IsSafe :
      (cmd : Bytes)
      → IsFrame (cmd ++ codes "\r")
      → Keeps IsSafe (Laser.write_cmd ⦃sp = logged sp⦄ cmd)
  unfolding Laser.write_cmd
  write_cmd-IsSafe cmd frame =
      device-IsSafe _ (write_cmd-IsClean sp IsFrame [] (codes "\r") cmd frame)

  reset_connection-IsSafe : Keeps IsSafe (Laser.reset_connection ⦃sp = logged sp⦄)
  unfolding Laser.reset_connection
  reset_connection-IsSafe = device-IsSafe _ (reset_connection-IsClean sp IsFrame [] (codes "\r"))

  send_or_throw-IsSafe :
      (cmd : Bytes) (message : String)
      → IsFrame (cmd ++ codes "\r")
      → Keeps IsSafe (Laser.send_or_throw ⦃sp = logged sp⦄ cmd message)
  unfolding Laser.send_or_throw
  send_or_throw-IsSafe cmd message frame =
      search (keeps_rules, write_cmd-IsSafe, reset_connection-IsSafe)

  read_lines-IsSafe : Keeps IsSafe (on_device (Dev.read_lines ⦃sp = logged sp⦄))
  read_lines-IsSafe = device-IsSafe _ (read_lines-IsClean sp IsFrame [] (codes "\r"))

  -- A change of the settings that leaves the device alone.
  modify-IsSafe :
      (f : LoggedLaser → LoggedLaser)
      → ((l : LoggedLaser) → (f l).device ≡ l.device)
      → ((l : LoggedLaser) → IsSafe l → (f l).prescale ≤ 99)
      → ((l : LoggedLaser) → IsSafe l → (f l).qswitch ≤ 999)
      → ((l : LoggedLaser) → IsSafe l → voltage_out_of_range (f l).pump_hv ≡ false)
      → Keeps IsSafe (modify f)
  modify-IsSafe f same p q v = Keeps-modify f λ l held. record {
    clean = rw (same l) held.clean;
    prescale_fits = p l held;
    qswitch_fits = q l held;
    voltage_fits = v l held;
  }

  pub shutter-IsSafe : (s : Shutter) → Keeps IsSafe (Laser.shutter ⦃sp = logged sp⦄ s)
  unfolding Laser.shutter
  shutter-IsSafe open_shutter =
      send_or_throw-IsSafe _ _
        (IsFrame.switch_shutter 1 (omega arith) (rw (show_digit 1 (omega arith))))
  shutter-IsSafe closed =
      send_or_throw-IsSafe _ _
        (IsFrame.switch_shutter 0 (omega arith) (rw (show_digit 0 (omega arith))))

  pub fire-IsSafe : (s : Fire) → Keeps IsSafe (Laser.fire ⦃sp = logged sp⦄ s)
  unfolding Laser.fire
  fire-IsSafe s = Keeps-bind _ _ (send_or_throw-IsSafe _ _ (frame s)) λ _.
      modify-IsSafe _ (λ l. refl) (λ l h. h.prescale_fits) (λ l h. h.qswitch_fits)
        (λ l h. h.voltage_fits)
    where
      frame : (s : Fire) → IsFrame ((codes "ST " ++ show (fire_code s)) ++ codes "\r")
      frame start = IsFrame.switch_fire 1 (omega arith) (rw (show_digit 1 (omega arith)))
      frame stop = IsFrame.switch_fire 0 (omega arith) (rw (show_digit 0 (omega arith)))

  -- A pulse division of at most 99 prints with a leading zero.
  division_frame : (n : ℕ) → n ≤ 99 → IsFrame ((codes "PD " ++ show_width3 n) ++ codes "\r")
  division_frame n h =
      IsFrame.pulse_division (n / 10) (n % 10) (omega arith) (omega arith)
        (rw (show_width3_lem n (omega arith)) (ground arith))

  pub set_prescale-IsSafe : (n : ℕ) → Keeps IsSafe (Laser.set_prescale ⦃sp = logged sp⦄ n)
  unfolding Laser.set_prescale
  set_prescale-IsSafe n =
      Keeps-bind _ _
        (send_or_throw-IsSafe _ _ (division_frame (if ltb 99 n then 99 else n) (ground arith)))
        λ _.
          modify-IsSafe _ (λ l. refl) (λ l h. ground arith) (λ l h. h.qswitch_fits)
            (λ l h. h.voltage_fits)

  pub voltage-IsSafe :
      (hv : Float)
      → (voltage_out_of_range hv ≡ false → fm.voltage hv)
      → Keeps IsSafe (Laser.set_pump_voltage ⦃sp = logged sp⦄ hv)
  unfolding Laser.set_pump_voltage
  voltage-IsSafe hv form = Keeps-bind_throw_if _ _ _ λ fits.
      Keeps-bind _ _ (send_or_throw-IsSafe _ _ (IsFrame.pump_voltage hv (form fits) refl)) λ _.
        modify-IsSafe _ (λ l. refl) (λ l h. h.prescale_fits) (λ l h. h.qswitch_fits) (λ l h. fits)

  rate-IsSafe :
      (r : Float) → fm.rate r → Keeps IsSafe (Laser.set_repetition_rate ⦃sp = logged sp⦄ r)
  unfolding Laser.set_repetition_rate
  rate-IsSafe r form =
      Keeps-bind _ _ (send_or_throw-IsSafe _ _ (IsFrame.repetition_rate r form refl)) λ _.
        modify-IsSafe _ (λ l. refl) (λ l h. h.prescale_fits) (λ l h. h.qswitch_fits)
          (λ l h. h.voltage_fits)

  delay_frame : (n : ℕ) → n ≤ 999 → IsFrame ((codes "QS " ++ show_width3 n) ++ codes "\r")
  delay_frame n h =
      IsFrame.qswitch_delay (n / 100) (n / 10 % 10) (n % 10) (omega arith) (omega arith)
        (omega arith) (rw (show_width3_lem n (omega arith)))

  pub qswitch-IsSafe : (n : ℕ) → Keeps IsSafe (Laser.set_qswitch ⦃sp = logged sp⦄ n)
  unfolding Laser.set_qswitch
  qswitch-IsSafe n =
      Keeps-bind _ _
        (send_or_throw-IsSafe _ _ (delay_frame (if ltb 999 n then 999 else n) (ground arith)))
        λ _.
          modify-IsSafe _ (λ l. refl) (λ l h. h.prescale_fits) (λ l h. ground arith)
            (λ l h. h.voltage_fits)

  pub single_shot-IsSafe : Keeps IsSafe (Laser.single_shot ⦃sp = logged sp⦄)
  unfolding Laser.single_shot
  single_shot-IsSafe =
      Keeps-bind _ _ (set_prescale-IsSafe 0)
        λ _. send_or_throw-IsSafe _ _ (IsFrame.single_shot refl)

  security_lines-IsSafe : Keeps IsSafe (Security.security_lines ⦃sp = logged sp⦄)
  unfolding Security.security_lines
  security_lines-IsSafe = search (keeps_rules, read_lines-IsSafe, reset_connection-IsSafe) depth 12

  security_code-IsSafe : Keeps IsSafe (Security.security_code ⦃sp = logged sp⦄)
  unfolding Security.security_code
  security_code-IsSafe =
      Keeps-bind _ _ (send_or_throw-IsSafe _ _ (IsFrame.security_status refl))
        λ _. search (keeps_rules, security_lines-IsSafe)

  pub security-IsSafe : Keeps IsSafe (Security.security ⦃sp = logged sp⦄)
  unfolding Security.security
  security-IsSafe = search (keeps_rules, security_code-IsSafe)

  pub shot_count-IsSafe : Keeps IsSafe (Shots.get_shot_count ⦃sp = logged sp⦄)
  unfolding Shots.get_shot_count Shots.shot_count_text
  shot_count-IsSafe =
      Keeps-bind _ _ (write_cmd-IsSafe _ (IsFrame.shot_count refl))
        λ _. search (keeps_rules, read_lines-IsSafe, reset_connection-IsSafe) depth 12

  call-IsSafe : (op : Op Float) → IsWithin op → Keeps IsSafe (call ⦃sp = logged sp⦄ op)
  unfolding call Security.security_u16 Security.security_enum
  call-IsSafe (Op.shutter s) h = shutter-IsSafe s
  call-IsSafe (Op.fire s) h = fire-IsSafe s
  call-IsSafe (Op.set_prescale n) h = set_prescale-IsSafe n
  call-IsSafe (Op.set_pump_voltage hv) h = voltage-IsSafe hv h
  call-IsSafe Op.single_shot h = single_shot-IsSafe
  call-IsSafe Op.get_shot_count h = search (keeps_rules, shot_count-IsSafe)
  call-IsSafe Op.security h = search (keeps_rules, security-IsSafe)
  call-IsSafe Op.security_u16 h = search (keeps_rules, security-IsSafe)
  call-IsSafe Op.security_enum h = search (keeps_rules, security-IsSafe)
  call-IsSafe (Op.set_repetition_rate r) h = rate-IsSafe r h
  call-IsSafe (Op.set_qswitch n) h = qswitch-IsSafe n

  -- For any forms of voltage and rate, whatever the port does, and whichever calls throw: from a
  -- state with empty prefix, suffix "\r", recorded messages that are all of Laser/Frames, with
  -- voltages and rates of these forms, and settings in range, every sequence of calls in which a
  -- voltage that passes the range test and every rate has its form leaves such a state. So no other
  -- message is sent, the prescale stays at most 99, the Q-switch delay at most 999, and the pump
  -- voltage is one that passes the range test.
  pub run-IsSafe :
      (ops : List (Op Float)) (l : LoggedLaser)
      → All IsWithin ops
      → IsSafe l
      → IsSafe (run ⦃sp = logged sp⦄ ops l)
  unfolding run
  run-IsSafe [] l within h = h
  run-IsSafe (op ∷ ops) l within h =
      run-IsSafe ops (call ⦃sp = logged sp⦄ op l).1 within.1 ((call-IsSafe op within.0).after l h)
