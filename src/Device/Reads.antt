-- ===== src/Device/Reads.antt =====
-- What `read_cmd` makes of what the port delivers.
use laser_control.Common.{
  ◌-◌, ◌≡◌, ◌≢◌, refl, true, false, ◌||◌, [], ◌∷◌, ◌++◌, append_assoc, arith, Bytes, ltb, ◌==◌,
  if◌then◌else◌, length, take, length-append, take_prefix,
}
use laser_control.Effects.{ok, ◌>>=◌, on_part}
use laser_control.Std.Strings.{erase_from}
use laser_control.Serial.{Serial}
use laser_control.Device.{Device, on_serial, strip_suffix, read_cmd}

-- The answer is trimmed to the bytes before the suffix, or refused when fewer bytes came than the
-- suffix has; it never throws, and the branch of `read_cmd` that calls `rtrim` is not reached.
strip_suffix_lem :
    (sfx answer line : Bytes)
    → strip_suffix sfx answer line ≡ (
        if length line == 0 || ltb (length line) (length sfx)
        then ok (false, answer ++ line)
        else ok (true, take (length (answer ++ line) - length sfx) (answer ++ line)))
unfolding strip_suffix erase_from
strip_suffix_lem sfx answer line = ground (arith, length-append answer line)

suffix_off :
    (answer text sfx : Bytes)
    → take (length (answer ++ (text ++ sfx)) - length sfx) (answer ++ (text ++ sfx))
      ≡ answer ++ text
suffix_off answer text sfx =
    let n : length (answer ++ (text ++ sfx)) - length sfx ≡ length (answer ++ text) = omega (
      arith,
      length-append answer (text ++ sfx),
      length-append text sfx,
      length-append answer text,
    ) in
    rw (n, ← append_assoc answer text sfx) (take_prefix _ (answer ++ text) sfx refl)

strip_suffix_line :
    (sfx answer text : Bytes)
    → sfx ≢ []
    → strip_suffix sfx answer (text ++ sfx) ≡ ok (true, answer ++ text)
strip_suffix_line [] answer text h = absurd (h refl)
strip_suffix_line (c ∷ sfx) answer text h =
    rw (strip_suffix_lem (c ∷ sfx) answer (text ++ c ∷ sfx), suffix_off answer text (c ∷ sfx))
      (ground (arith, length-append text (c ∷ sfx)))

module _ ⦃sp : Serial⦄ where
  -- A line that ends in the suffix is appended to the answer without it, and only the port changes.
  pub read_cmd_line :
      (answer text : Bytes) (d : Device sp.Port) (p : sp.Port)
      → sp.readline 0xffff d.read_sfx d.serial ≡ (ok (text ++ d.read_sfx), p)
      → d.read_sfx ≢ []
      → read_cmd answer d ≡ (ok (true, answer ++ text), record d { serial = p })
  unfolding read_cmd ◌>>=◌ on_serial on_part
  read_cmd_line answer text d p h nonempty =
      ground (arith, strip_suffix_line d.read_sfx answer text)
