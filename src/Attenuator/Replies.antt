-- ===== src/Attenuator/Replies.antt =====
-- What the queries of the attenuator store for lines of a given form.
use laser_control.Common.{ℕ, ◌<◌, ◌≡◌, inr, List, ◌∷◌, ◌++◌, arith, Bytes, codes}
use laser_control.Common.Int.{ℤ, pos, IsI32, wrap_i32_id}
use laser_control.Effects.{ok, ◌>>=◌}
use laser_control.Std.Strings.{at, substr}
use laser_control.Std.Numbers.{show, show_ℤ}
use laser_control.Std.Numbers.RoundTrip.{stoul-show_all, stol-show_ℤ_all}
use laser_control.Std.Numbers.Width.{show_digit}
use laser_control.Std.Floating.{Floating}
use laser_control.Serial.{Serial}
use laser_control.Util.Tokens.{AllLack, tokenize_string}
use laser_control.Util.Tokens.RoundTrip.{line_of, tokenize_string-line_of}
use laser_control.Util.Tokens.Numbers.{find-show, find-show_ℤ}
use laser_control.Attenuator.{Attenuator}
use laser_control.Attenuator.Port.{ask}
use laser_control.Attenuator.Position.{poll, refresh_position}

-- `state;position` and further fields.
abbrev pub position_line : ℕ → ℤ → List Bytes → Bytes
position_line d p more = line_of b';' (show d ∷ show_ℤ p ∷ more)

position_tokens :
    (d : ℕ) (p : ℤ) (more : List Bytes)
    → AllLack (codes ";") more
    → tokenize_string (position_line d p more) (codes ";") ≡ show d ∷ show_ℤ p ∷ more
position_tokens d p more h =
    tokenize_string-line_of b';' (show d) (show_ℤ p ∷ more)
      (find-show b';' d (inr (omega arith)), (find-show_ℤ b';' p (inr (omega arith)), h))

module _ ⦃sp : Serial⦄ ⦃fl : Floating⦄ where
  -- The echo `o`, a one-digit state and a position that is an `int32_t`: both are stored.
  pub refresh_position_reply :
      (d : ℕ) (p : ℤ) (more : List Bytes) (a b : Attenuator sp.Port fl.Double)
      → ask (codes "o") "Failed to send get position command" "Failed to read position" a
        ≡ (ok (codes "o" ++ position_line d p more), b)
      → d < 10
      → IsI32 p
      → AllLack (codes ";") more
      → refresh_position a ≡ (ok tt, record b { position = p; motor_state = pos d })
  unfolding refresh_position poll at substr ◌>>=◌
  refresh_position_reply d p more a b e small fits lacks = ground (
    arith,
    e,
    position_tokens d p more lacks,
    stol-show_ℤ_all p fits,
    stoul-show_all d (omega arith),
    wrap_i32_id p fits,
    show_digit d small,
  )
