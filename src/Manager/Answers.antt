-- ===== src/Manager/Answers.antt =====
-- Over ports that take what they are given, the devices are found and given up without an
-- exception.
pub mod Program
use laser_control.Common.{
  ℕ, ⊤, ◌≤◌, ◌≡◌, ◌⊎◌, inl, inr, refl, true, false, not, Bool, Bool-cases, Option, none, some, List,
  [], ◌∷◌, Bytes, String, codes, arith, ◌==◌, length, if◌then◌else◌,
}
use laser_control.Effects.{
  Result, ok, err, Exception, still_waiting, Action, ◌>>=◌, ◌>>◌, pure, lift, when, throw_if,
}
use laser_control.Effects.Answers.{
  Any, Replies, Answers, Answers-pure, Answers-returned, Answers-if, Answers-bind, Answers-modify,
  Answers-bind_known, Answers-weaken, Answers-on_part, answers_rules,
}
use laser_control.Std.Floating.{Floating}
use laser_control.Serial.{Serial}
use laser_control.Serial.Accepts.{Accepts}
use laser_control.Device
use laser_control.Device.Answers.{destroy-Answers, reset_connection-Answers, write_cmd-Answers}
use laser_control.Laser as Lasers
use laser_control.Laser.Enums.{stop, closed}
use laser_control.Attenuator as Attenuators
use laser_control.Attenuator.Getters
use laser_control.PowerMeter as Meters
use laser_control.Manager.{
  Host, State, Act, code_of, caught, through, on_laser, on_attenuator, on_meter,
}
use laser_control.Manager.LaserCommand.{retire_laser}
use laser_control.Manager.Mapping
use laser_control.Manager.Mapping.{map_devices, unmap_devices}
use laser_control.Manager.Commands.{run_command}
use laser_control.Manager.Words.{command_words}
use laser_control.Manager.Codes.{first_is, IsPlainCode, run_command_answers}
use laser_control.Manager.Session.{
  Json, Flag, apply_flags, load_config, follow, session, operate, start, main,
}

-- A `catch` clause makes a code of every exception.
pub caught-Answers : {S : Type 0} (m : Action S ℕ) → Answers Any (caught m)
unfolding caught
caught-Answers m = record { answers = λ s. by_result (m s).0 }
  where
    by_result : (r : Result ℕ) → Replies Any (code_of r)
    by_result (ok n) = tt
    by_result (err e) = ground arith

-- A call through a null pointer answers too.
through-Answers :
    {S T A : Type 0} (get : T → Option S) (put : S → T → T) (absent : A) (m : Action S A)
    → Answers Any m
    → Answers Any (λ t. through (get t) put absent m t)
through-Answers {S} {T} get put absent m h = record { answers = λ t. by_pointer (get t) t }
  where
    by_pointer : (o : Option S) (t : T) → Replies Any (through o put absent m t).0
    by_pointer none t = tt
    by_pointer (some s) t = h.answers s

module _ ⦃sp : Serial⦄ ⦃fl : Floating⦄ (port : Accepts sp) where
  laser_device-Answers :
      {A : Type 0} {P : A → Type 0} (m : Action (Device.Device sp.Port) A)
      → Answers P m
      → Answers P (Lasers.on_device {F = fl.Float} m)
  unfolding Lasers.on_device
  laser_device-Answers m h = Answers-on_part _ _ m h

  send_or_throw-Answers :
      (cmd : Bytes) (message : String) → Answers Any (Lasers.send_or_throw cmd message)
  unfolding Lasers.send_or_throw Lasers.write_cmd
  send_or_throw-Answers cmd message =
      Answers-bind_known _ _ (laser_device-Answers _ (write_cmd-Answers port cmd))
        λ sent e. rw e (Answers-returned tt)

  fire-Answers : Answers Any (Lasers.fire ⦃sp = sp⦄ stop)
  unfolding Lasers.fire
  fire-Answers = Answers-bind _ _ (send_or_throw-Answers _ _) λ u. Answers-modify _

  shutter-Answers : Answers Any (Lasers.shutter ⦃sp = sp⦄ closed)
  unfolding Lasers.shutter
  shutter-Answers = send_or_throw-Answers _ _

  retire_laser-Answers : Answers Any (retire_laser ⦃sp = sp⦄)
  unfolding retire_laser
  retire_laser-Answers =
      Answers-bind _ _ fire-Answers
        λ u. Answers-bind _ _ shutter-Answers λ u. laser_device-Answers _ (destroy-Answers port)

  laser-Answers : (m : Lasers.Act ⊤) → Answers Any m → Answers Any (on_laser tt m)
  unfolding on_laser
  laser-Answers m h = through-Answers _ _ tt m h

  motor-Answers : (m : Attenuators.Act ⊤) → Answers Any m → Answers Any (on_attenuator tt m)
  unfolding on_attenuator
  motor-Answers m h = through-Answers _ _ tt m h

  meter-Answers : (m : Meters.Act ⊤) → Answers Any m → Answers Any (on_meter tt m)
  unfolding on_meter
  meter-Answers m h = through-Answers _ _ tt m h

  on_meter_device :
      (m : Action (Device.Device sp.Port) ⊤) → Answers Any m → Answers Any (Meters.on_device m)
  unfolding Meters.on_device
  on_meter_device m h = Answers-on_part _ _ m h

  on_motor_device :
      (m : Action (Device.Device sp.Port) ⊤)
      → Answers Any m
      → Answers Any (Attenuators.on_device {D = fl.Double} m)
  unfolding Attenuators.on_device
  on_motor_device m h = Answers-on_part _ _ m h

  destroy_motor-Answers : Answers Any (Getters.destroy ⦃sp = sp⦄ ⦃fl = fl⦄)
  unfolding Getters.destroy
  destroy_motor-Answers =
      Answers-bind _ _ (on_motor_device _ (destroy-Answers port))
        λ u. on_motor_device _ (destroy-Answers port)

  pub unmap_devices-Answers : Answers Any unmap_devices
  unfolding unmap_devices
  unmap_devices-Answers =
      Answers-bind _ _ (meter-Answers _ (on_meter_device _ (destroy-Answers port))) λ u.
        Answers-bind _ _ (motor-Answers _ destroy_motor-Answers)
          λ u. Answers-bind _ _ (laser-Answers _ retire_laser-Answers) λ u. Answers-returned 0

  pub map_devices-Answers : (host : Host sp.Port) → Answers Any (map_devices host)
  unfolding map_devices Mapping.map_laser_next Mapping.map_pm_last Mapping.map_attenuator
      Mapping.map_laser Mapping.map_power_meter
  map_devices-Answers host = search (answers_rules, caught-Answers) depth 30
