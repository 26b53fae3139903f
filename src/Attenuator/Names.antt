-- ===== src/Attenuator/Names.antt =====
-- The serial number or name that is sent to the controller.
use laser_control.Common.{
  ℕ, ◌-◌, ◌≡◌, refl, arith, Bytes, codes, [], ◌∷◌, ◌++◌, length, replicate, take_prefix,
  length-append, length-take, length-replicate,
}
use laser_control.Std.Floating.{Floating}
use laser_control.Serial.{Serial}
use laser_control.Attenuator.{Attenuator}
use laser_control.Attenuator.Port.{send}
use laser_control.Attenuator.Settings.{padded_name, set_serial_number}

-- Whatever the name, 20 bytes are sent.
pub length-padded_name : (sn : Bytes) → length (padded_name sn) ≡ 20
unfolding padded_name
length-padded_name sn = ground (
  arith,
  length-take 20 sn,
  length-append (replicate (20 - length sn) b' ') sn,
  length-replicate {A = ℕ} (20 - length sn) b' ',
)

padded_name-full : (sn : Bytes) → length sn ≡ 20 → padded_name sn ≡ padded_name []
unfolding padded_name
padded_name-full sn h = ground arith

padded_name-longer : (sn : Bytes) (c : ℕ) → length sn ≡ 20 → padded_name (sn ++ c ∷ []) ≡ sn
unfolding padded_name
padded_name-longer sn c h = ground (arith, length-append sn (c ∷ []), take_prefix 20 sn (c ∷ []) h)

module _ ⦃sp : Serial⦄ ⦃fl : Floating⦄ where
  -- A serial number of exactly 20 bytes is not sent: set_serial_number does what it does with an
  -- empty one. With any byte added, the call sends the 20 bytes.
  pub set_serial_number_loses :
      (sn : Bytes) (c : ℕ) (a : Attenuator sp.Port fl.Double)
      → length sn ≡ 20
      → (set_serial_number sn a ≡ set_serial_number [] a)
        × (set_serial_number (sn ++ c ∷ []) a
            ≡ send (codes "sn " ++ sn) "Failed to send command to set serial number" a)
  unfolding set_serial_number
  set_serial_number_loses sn c a h =
      (rw (padded_name-full sn h) refl, rw (padded_name-longer sn c h) refl)
