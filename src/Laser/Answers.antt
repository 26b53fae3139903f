-- ===== src/Laser/Answers.antt =====
-- What the queries of the laser return for what the port delivers.
use laser_control.Common.{
  ℕ, ◌+◌, ◌-◌, ◌%◌, ◌^◌, ◌<◌, ◌≡◌, ◌≢◌, refl, true, List, [], ◌∷◌, ◌++◌, arith, Bytes, codes,
  length, length-append, take_prefix,
}
use laser_control.Effects.{ok, ◌>>=◌}
use laser_control.Std.Strings.{at, erase_from, size_sub}
use laser_control.Std.Numbers.{show, stoul}
use laser_control.Std.Numbers.RoundTrip.{stoul-show_all}
use laser_control.Std.Floating.{Floating}
use laser_control.Serial.{Serial}
use laser_control.Device as Dev
use laser_control.Laser
use laser_control.Laser.{Laser, on_device}
use laser_control.Laser.Security
use laser_control.Laser.Security.{message_of}
use laser_control.Laser.Shots
use laser_control.Laser.Shots.{drop_last}

-- The terminator of a line is cut off.
erase_last :
    (text : Bytes) (c : ℕ)
    → length text < 2 ^ 63
    → erase_from (text ++ c ∷ []) (size_sub (length (text ++ c ∷ [])) 1) ≡ ok text
unfolding erase_from size_sub
erase_last text c h =
    let n : (length (text ++ c ∷ []) + 2 ^ 64 - 1) % 2 ^ 64 ≡ length text =
      omega (arith, length-append text (c ∷ [])) in
    rw (n, take_prefix (length text) text (c ∷ []) refl)
      (ground (arith, length-append text (c ∷ [])))

drop_last_line : (text : Bytes) (c : ℕ) → drop_last (text ++ c ∷ []) ≡ ok text
unfolding drop_last erase_from
drop_last_line text c =
    let n : length (text ++ c ∷ []) - 1 ≡ length text =
      omega (arith, length-append text (c ∷ [])) in
    rw (n, take_prefix (length text) text (c ∷ []) refl)
      (ground (arith, length-append text (c ∷ [])))

module _ ⦃sp : Serial⦄ ⦃fl : Floating⦄ where
  open fl use {Float}

  -- The command is accepted at the first try, and the port then delivers these lines.
  pub record Answered (cmd : Bytes) (lines : List Bytes) (l l' : Laser sp.Port Float) : Type 0 where
    pub middle : Laser sp.Port Float
    pub sent : Laser.write_cmd cmd l ≡ (ok true, middle)
    pub read : on_device Dev.read_lines middle ≡ (ok lines, l')

  -- The echo and a line with the code: the code comes back without its terminator, with the
  -- message that the table holds for it.
  pub security_answer :
      (echo code : Bytes) (c : ℕ) (l l' : Laser sp.Port Float)
      → Answered (codes "SE") (echo ∷ (code ++ c ∷ []) ∷ []) l l'
      → length code < 2 ^ 63
      → Security.security l ≡ (ok (code, message_of l'.sec_map code), l')
  unfolding Security.security Security.security_code Security.security_lines Laser.send_or_throw at
      ◌>>=◌
  security_answer echo code c l l' a h = ground (arith, a.sent, a.read, erase_last code c h)

  -- The echo and a line with the count: the count comes back, in 32 bits.
  pub shot_count_answer :
      (echo : Bytes) (n c : ℕ) (l l' : Laser sp.Port Float)
      → Answered (codes "SC") (echo ∷ (show n ++ c ∷ []) ∷ []) l l'
      → n < 2 ^ 64
      → Shots.get_shot_count l ≡ (ok (n % 2 ^ 32), l')
  unfolding Shots.get_shot_count Shots.shot_count_text at ◌>>=◌
  shot_count_answer echo n c l l' a h =
      ground (arith, a.sent, a.read, drop_last_line (show n) c, stoul-show_all n h)

  -- If no line comes at first, `get_shot_count` returns no count, whatever the second reading after
  -- the reset delivers: its lines are not used, and the empty text is no number.
  pub shot_count_retry_fails :
      (l l' : Laser sp.Port Float) (n : ℕ)
      → Answered (codes "SC") [] l l'
      → (Shots.get_shot_count l).0 ≢ ok n
  unfolding Shots.get_shot_count Shots.shot_count_text at ◌>>=◌ stoul
  shot_count_retry_fails l l' n a = ground (arith, a.sent, a.read)
