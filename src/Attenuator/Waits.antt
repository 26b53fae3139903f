-- ===== src/Attenuator/Waits.antt =====
-- The loop in `get_position` that waits for the motor to stop.
use laser_control.Common.{ℕ, zero, suc, ⊤, true, ◌<◌, ◌≡◌, ◌≢◌, ◌==◌, arith, inl, inr, Bool-cases}
use laser_control.Common.Int.{ℤ}
use laser_control.Effects.{Result, ok, err, resume, ◌>>=◌}
use laser_control.Std.Floating.{Floating}
use laser_control.Serial.{Serial}
use laser_control.Attenuator.{Attenuator, Act}
use laser_control.Attenuator.Position.{poll, wait_stopped, get_position}

module _ ⦃sp : Serial⦄ ⦃fl : Floating⦄ (put : ℤ → Act ⊤) where
  abbrev Motor : Type 0
  Motor = Attenuator sp.Port fl.Double

  -- From the answer `last` the instrument reports a moving motor `k` times, and then a stopped one.
  pub data StopsAfter : ℕ → ℤ × ℕ → Motor → ℤ × ℕ → Motor → Type 0 where
    stopped : (last : ℤ × ℕ) (a : Motor) → last.1 ≡ 0 → StopsAfter zero last a last a
    moving :
        {k : ℕ} {a a' : Motor} {last' : ℤ × ℕ} (last next : ℤ × ℕ) (b : Motor)
        → last.1 ≢ 0
        → poll put a ≡ (ok next, b)
        → StopsAfter k next b last' a'
        → StopsAfter (suc k) last a last' a'

  wait_lem :
      (polls : ℕ) {k : ℕ} {last last' : ℤ × ℕ} {a a' : Motor}
      → StopsAfter k last a last' a'
      → k < polls
      → (wait_stopped polls put last a ≡ (ok last', a')) × (last'.1 ≡ 0)
  unfolding wait_stopped ◌>>=◌
  wait_lem zero s h = absurd (omega arith)
  wait_lem (suc polls) (stopped last a e) h = ground arith
  wait_lem (suc polls) (moving last next b ne e s) h = ground (arith, wait_lem polls s)

  -- With `wait`, a call that gets an answer from which the motor stops after `k` more polls returns
  -- the last answer, which says that the motor is stopped, if it may poll more than `k` times.
  pub get_position_waits :
      (polls k : ℕ) (first last : ℤ × ℕ) (a b a' : Motor)
      → poll put a ≡ (ok first, b)
      → StopsAfter k first b last a'
      → k < polls
      → (get_position polls put true a ≡ (ok last, a')) × (last.1 ≡ 0)
  unfolding get_position ◌>>=◌
  get_position_waits polls k first last a b a' e s h = ground (arith, wait_lem polls s h)

  wait_sound_step :
      (rest : ℤ × ℕ → Act (ℤ × ℕ)) {last' : ℤ × ℕ} {a' : Motor}
      → ((next : ℤ × ℕ) (b : Motor) → rest next b ≡ (ok last', a') → last'.1 ≡ 0)
      → (r : Result (ℤ × ℕ)) (b : Motor) → resume r rest b ≡ (ok last', a')
      → last'.1 ≡ 0
  wait_sound_step rest ih (ok next) b h = ih next b h
  wait_sound_step rest ih (err e) b h = cc

  wait_sound :
      (polls : ℕ) (last : ℤ × ℕ) {last' : ℤ × ℕ} (a : Motor) {a' : Motor}
      → wait_stopped polls put last a ≡ (ok last', a')
      → last'.1 ≡ 0
  unfolding wait_stopped ◌>>=◌
  wait_sound zero last a h = ground arith
  wait_sound (suc polls) last {last'} a {a'} h = elim (Bool-cases (last.1 == 0)) [
    | inl e ↦ ground arith
    | inr e ↦
        wait_sound_step (wait_stopped polls put) (λ next b. wait_sound polls next b) (poll put a).0
          (poll put a).1 (rw e at h)
  ]

  -- With `wait`, a call that returns reports a stopped motor.
  pub get_position_stopped :
      (polls : ℕ) {last : ℤ × ℕ} (a : Motor) {a' : Motor}
      → get_position polls put true a ≡ (ok last, a')
      → last.1 ≡ 0
  unfolding get_position ◌>>=◌
  get_position_stopped polls a h =
      wait_sound_step (wait_stopped polls put) (λ next b. wait_sound polls next b) (poll put a).0
        (poll put a).1 h
