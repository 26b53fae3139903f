-- ===== src/Laser/Traffic/Calls.antt =====
-- After a call that returns, what the messages say is what the laser caches.
use laser_control.Common.{
  ℕ, ⊤, ◌≡◌, ◌∙◌, refl, ap, List, ◌++◌, Bytes, String, codes, arith, ltb, if◌then◌else◌,
}
use laser_control.Effects.{Action, ◌>>=◌, modify}
use laser_control.Effects.Outcome.{Outcome-bind, Outcome-modify, Outcome-guard}
use laser_control.Std.Floating.{Floating}
use laser_control.Serial.{Serial}
use laser_control.Serial.Logged.{LoggedPort, logged}
use laser_control.Laser
use laser_control.Laser.{Laser}
use laser_control.Laser.Enums.{Shutter, Fire, is_start}
use laser_control.Laser.Settings.{Settings, settings}
use laser_control.Laser.Sending.{Sends, send_or_throw-Sends}
use laser_control.Laser.Traffic.{Told, told, tell, Agrees}
use laser_control.Laser.Traffic.Orders.{
  tell-fire, tell-shutter, tell-prescale, tell-qswitch, tell-voltage, tell-rate, tell-quiet,
}

module _ (sp : Serial) ⦃fl : Floating⦄ where
  open fl use {Float, show_fixed}

  -- The messages say what `c` holds.
  abbrev pub Spells : Settings Float → List Bytes → Type 0
  Spells c ws = Agrees (told ws) c

  abbrev pub Is : Settings Float → Settings Float → Type 0
  Is c c' = c' ≡ c

  -- From the settings `c` to the settings `c'`, and the messages with them.
  abbrev pub Sets :
      Settings Float → Settings Float → Action (Laser (LoggedPort sp) Float) ⊤ → Type 0
  Sets c c' m = Sends sp (Spells c) (Spells c') (Is c) (Is c') m

  -- A message that orders what `update` does.
  abbrev Orders : Bytes → (Settings Float → Settings Float) → Type 0
  Orders cmd update =
      (t : Told) (c : Settings Float) → Agrees t c → Agrees (tell (cmd ++ codes "\r") t) (update c)

  module _ (c : Settings Float) (update : Settings Float → Settings Float)
      (again : update (update c) ≡ update c) (cmd : Bytes) (message : String)
      (orders : Orders cmd update) where
    sent :
        Sends sp
          (Spells c)
          (Spells (update c))
          (Is c)
          (Is c)
          (Laser.send_or_throw ⦃sp = logged sp⦄ cmd message)
    unfolding told
    sent =
        send_or_throw-Sends sp (Spells c) (Spells (update c)) (Is c) cmd message
          (λ ws h. orders (told ws) c h) λ ws h. rw again at (orders (told ws) (update c) h)

    -- A command that is sent and then noted.
    noted :
        (f : Laser (LoggedPort sp) Float → Laser (LoggedPort sp) Float)
        → ((l : Laser (LoggedPort sp) Float) → (f l).device ≡ l.device)
        → ((l : Laser (LoggedPort sp) Float) → settings (f l) ≡ update (settings l))
        → Sets c (update c) (Laser.send_or_throw ⦃sp = logged sp⦄ cmd message >>= λ _. modify f)
    noted f same does = Outcome-bind _ _ sent λ _. Outcome-modify f λ l held. record {
      framed = rw (same l) held.framed;
      cached = does l ∙ ap update held.cached;
    }

  pub fire-Sets :
      (s : Fire) (c : Settings Float)
      → Sets c (record c { is_firing = is_start s }) (Laser.fire ⦃sp = logged sp⦄ s)
  unfolding Laser.fire
  fire-Sets s c =
      noted c (λ d. record d { is_firing = is_start s }) refl _ _
        (λ t d h. rw (tell-fire s t) (record {
          lamp_agrees = refl;
          division_agrees = h.division_agrees;
          delay_agrees = h.delay_agrees;
          voltage_agrees = h.voltage_agrees;
          rate_agrees = h.rate_agrees;
        }))
        _ (λ l. refl) (λ l. refl)

  pub shutter-Sets :
      (s : Shutter) (c : Settings Float) → Sets c c (Laser.shutter ⦃sp = logged sp⦄ s)
  unfolding Laser.shutter
  shutter-Sets s c = sent c (λ d. d) refl _ _ (λ t d h. rw (tell-shutter s t) h)

  pub prescale-Sets :
      (n : ℕ) (c : Settings Float)
      → Sets c
          (record c { prescale = if ltb 99 n then 99 else n })
          (Laser.set_prescale ⦃sp = logged sp⦄ n)
  unfolding Laser.set_prescale
  prescale-Sets n c =
      noted c (λ d. record d { prescale = if ltb 99 n then 99 else n }) refl _ _
        (λ t d h. rw (tell-prescale (if ltb 99 n then 99 else n) t (ground arith)) (record {
          lamp_agrees = h.lamp_agrees;
          division_agrees = refl;
          delay_agrees = h.delay_agrees;
          voltage_agrees = h.voltage_agrees;
          rate_agrees = h.rate_agrees;
        }))
        _ (λ l. refl) (λ l. refl)

  pub qswitch-Sets :
      (n : ℕ) (c : Settings Float)
      → Sets c
          (record c { qswitch = if ltb 999 n then 999 else n })
          (Laser.set_qswitch ⦃sp = logged sp⦄ n)
  unfolding Laser.set_qswitch
  qswitch-Sets n c =
      noted c (λ d. record d { qswitch = if ltb 999 n then 999 else n }) refl _ _
        (λ t d h. rw (tell-qswitch (if ltb 999 n then 999 else n) t (ground arith)) (record {
          lamp_agrees = h.lamp_agrees;
          division_agrees = h.division_agrees;
          delay_agrees = refl;
          voltage_agrees = h.voltage_agrees;
          rate_agrees = h.rate_agrees;
        }))
        _ (λ l. refl) (λ l. refl)

  pub voltage-Sets :
      (hv : Float) (c : Settings Float)
      → Sets c (record c { pump_hv = hv }) (Laser.set_pump_voltage ⦃sp = logged sp⦄ hv)
  unfolding Laser.set_pump_voltage
  voltage-Sets hv c =
      Outcome-guard _ _ _ (λ l h. tt)
        λ fits.
          noted c (λ d. record d { pump_hv = hv }) refl _ _
            (λ t d h. rw (tell-voltage (show_fixed 2 hv) t) (record {
              lamp_agrees = h.lamp_agrees;
              division_agrees = h.division_agrees;
              delay_agrees = h.delay_agrees;
              voltage_agrees = refl;
              rate_agrees = h.rate_agrees;
            }))
            _ (λ l. refl) (λ l. refl)

  pub rate-Sets :
      (r : Float) (c : Settings Float)
      → Sets c (record c { rate = r }) (Laser.set_repetition_rate ⦃sp = logged sp⦄ r)
  unfolding Laser.set_repetition_rate
  rate-Sets r c =
      noted c (λ d. record d { rate = r }) refl _ _
        (λ t d h. rw (tell-rate (show_fixed 1 r) t) (record {
          lamp_agrees = h.lamp_agrees;
          division_agrees = h.division_agrees;
          delay_agrees = h.delay_agrees;
          voltage_agrees = h.voltage_agrees;
          rate_agrees = refl;
        }))
        _ (λ l. refl) (λ l. refl)

  pub single_shot-Sets :
      (c : Settings Float) → Sets c (record c { prescale = 0 }) (Laser.single_shot ⦃sp = logged sp⦄)
  unfolding Laser.single_shot
  single_shot-Sets c =
      Outcome-bind _ _ (prescale-Sets 0 c)
        λ u. sent (record c { prescale = 0 }) (λ d. d) refl _ _ (λ t d h. rw ((tell-quiet t).0) h)
