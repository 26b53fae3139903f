-- ===== src/Attenuator/Safety/Polls.antt =====
-- The messages of the attenuator, and its polls, keep its traffic and its registers.
use laser_control.Common.{
  ℕ, zero, suc, ⊤, some, get_elem?, Bool, ◌≡◌, ◌<◌, ◌%◌, ◌^◌, ◌==◌, refl, ◌++◌, arith, String,
  Bytes, codes,
}
use laser_control.Common.Int.{ℤ, wrap_i32, wrap_i32-IsI32}
use laser_control.Effects.{Action, modify}
use laser_control.Effects.Hoare.{
  Keeps, keeps_rules, Keeps-bind, Keeps-if, Keeps-throw, Keeps-pure, Keeps-bind_returned,
}
use laser_control.Effects.Returns.{Returns, Returns-pure, Returns-bind}
use laser_control.Std.Numbers.{show, show_ℤ}
use laser_control.Std.Floating.{Floating}
use laser_control.Serial.{Serial}
use laser_control.Serial.Logged.{logged}
use laser_control.Attenuator.Port
use laser_control.Attenuator.Position
use laser_control.Attenuator.Frames.{Limits, IsFrame, bare, moving, tuning}
use laser_control.Attenuator.Safety.{Motor, IsKept, modify-IsKept, send-IsKept, ask-IsKept}

module _ (sp : Serial) ⦃fl : Floating⦄ ⦃lim : Limits⦄ where
  abbrev Holds : {A : Type 0} → Action (Motor sp) A → Type 0
  Holds m = Keeps (IsKept sp) m

  pub asks :
      (word : Bytes) (unsent unread : String)
      → (i : ℕ) → get_elem? bare i ≡ some word
      → Holds (Port.ask ⦃sp = logged sp⦄ word unsent unread)
  asks word unsent unread i e = ask-IsKept sp word unsent unread (IsFrame.request word i e refl)

  pub requests :
      (word : Bytes) (message : String)
      → (i : ℕ) → get_elem? bare i ≡ some word
      → Holds (Port.send ⦃sp = logged sp⦄ word message)
  requests word message i e = send-IsKept sp word message (IsFrame.request word i e refl)

  pub moves :
      (word : Bytes) (z : ℤ) (message : String)
      → (i : ℕ) → get_elem? moving i ≡ some word
      → lim.steps z
      → Holds (Port.send ⦃sp = logged sp⦄ (word ++ show_ℤ z) message)
  moves word z message i e h = send-IsKept sp _ message (IsFrame.steps word z i e h refl)

  pub tunes :
      (word : Bytes) (n : ℕ) (message : String)
      → (i : ℕ) → get_elem? tuning i ≡ some word
      → Holds (Port.send ⦃sp = logged sp⦄ (word ++ show (n % 2 ^ 8)) message)
  tunes word n message i e =
      send-IsKept sp _ message (IsFrame.byte word (n % 2 ^ 8) i e (omega arith) refl)

  -- The polls. `put` keeps what holds where it is given a 32-bit number.
  abbrev pub Stores : (ℤ → Action (Motor sp) ⊤) → Type 0
  Stores put = (z : ℤ) → Holds (put (wrap_i32 z))

  asks_position :
      (unsent unread : String) → Holds (Port.ask ⦃sp = logged sp⦄ (codes "o") unsent unread)
  asks_position unsent unread = asks (codes "o") unsent unread 0 refl

  poll-IsKept :
      (put : ℤ → Action (Motor sp) ⊤) → Stores put → Holds (Position.poll ⦃sp = logged sp⦄ put)
  unfolding Position.poll
  poll-IsKept put stores = search (keeps_rules, asks_position, stores) depth 20

  wait_stopped-IsKept :
      (polls : ℕ) (put : ℤ → Action (Motor sp) ⊤) (last : ℤ × ℕ)
      → Stores put
      → Holds (Position.wait_stopped ⦃sp = logged sp⦄ polls put last)
  unfolding Position.wait_stopped
  wait_stopped-IsKept zero put last stores = Keeps-throw _
  wait_stopped-IsKept (suc polls) put last stores =
      Keeps-if (last.1 == 0) _ _ (λ e. Keeps-pure last)
        λ e.
          Keeps-bind _ _ (poll-IsKept put stores) λ next. wait_stopped-IsKept polls put next stores

  pub get_position-IsKept :
      (polls : ℕ) (put : ℤ → Action (Motor sp) ⊤) (wait : Bool)
      → Stores put
      → Holds (Position.get_position ⦃sp = logged sp⦄ polls put wait)
  unfolding Position.get_position
  get_position-IsKept polls put wait stores = Keeps-bind _ _ (poll-IsKept put stores) λ first.
      Keeps-if wait _ _ (λ e. wait_stopped-IsKept polls put first stores) λ e. Keeps-pure first

  position-Stores : Stores (λ p. modify (λ a. record a { position = p }))
  position-Stores z =
      modify-IsKept sp _ (λ a. refl)
        λ a h. (h.0, wrap_i32-IsI32 z, h.2, h.3, h.4, h.5, h.6, h.7, h.8, h.9)

  -- The status of a poll has 16 bits.
  status-below :
      (put : ℤ → Action (Motor sp) ⊤)
      → Returns (λ now. now.1 < 2 ^ 16) (Position.poll ⦃sp = logged sp⦄ put)
  unfolding Position.poll
  status-below put = Returns-bind _ _ λ a. Returns-bind _ _ λ b. Returns-bind _ _ λ c.
      Returns-bind _ _ λ d. Returns-bind _ _ λ e.
        Returns-bind _ _
          λ f. Returns-bind _ _ λ g. Returns-bind _ _ λ n. Returns-pure _ (omega arith)

  pub refresh_position-IsKept : Holds (Position.refresh_position ⦃sp = logged sp⦄)
  unfolding Position.refresh_position
  refresh_position-IsKept =
      Keeps-bind_returned _ _ (poll-IsKept _ position-Stores) (status-below _) λ now below.
        modify-IsKept sp _ (λ a. refl)
          λ a h. (h.0, h.1, h.2, h.3, h.4, h.5, h.6, h.7, (omega arith, omega arith), h.9)
