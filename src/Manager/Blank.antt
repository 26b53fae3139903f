-- ===== src/Manager/Blank.antt =====
-- A line of nothing but spaces is no empty line to the loop.
use laser_control.Common.{
  ℕ, zero, suc, ◌≡◌, refl, List, [], ◌∷◌, Bytes, replicate, arith, length, ◌==◌, false,
}
use laser_control.Effects.{◌>>=◌, ◌>>◌, pure}
use laser_control.Std.Floating.{Floating}
use laser_control.Serial.{Serial}
use laser_control.Manager.{Host, State}
use laser_control.Manager.Mapping.{unmap_devices}
use laser_control.Manager.Words.{count_words, skip_spaces, strtok, fill, command_words}
use laser_control.Manager.Commands.{run_command}
use laser_control.Manager.Session.{session, follow}

skip_spaces-replicate : (n : ℕ) → skip_spaces (replicate n b' ') ≡ []
unfolding skip_spaces
skip_spaces-replicate zero = refl
skip_spaces-replicate (suc n) = skip_spaces-replicate n

fill-replicate : (k n : ℕ) → fill k (replicate n b' ') ≡ []
unfolding fill strtok
fill-replicate zero n = refl
fill-replicate (suc k) n = ground (arith, skip_spaces-replicate n)

command_words-replicate : (n : ℕ) → command_words (replicate n b' ') ≡ []
unfolding command_words
command_words-replicate n = fill-replicate (count_words (replicate n b' ')) n

module _ ⦃sp : Serial⦄ ⦃fl : Floating⦄ (host : Host sp.Port) where
  pub session_line :
      (line : Bytes) (lines : List Bytes)
      → (length line == 0) ≡ false
      → session host (line ∷ lines)
        ≡ (run_command host (command_words line) >>= λ ret. follow ret (session host lines))
  unfolding session
  session_line line lines e = rw e refl

  -- A line of one space or more ends the session: the devices are unmapped, and the program returns
  -- 1 and does not look at the lines that follow. An empty line is passed over.
  pub session_blank :
      (n : ℕ) (lines : List Bytes) (m : State)
      → (session host (replicate (suc n) b' ' ∷ lines) m ≡ (unmap_devices >> pure 1) m)
        × (session host ([] ∷ lines) m ≡ session host lines m)
  unfolding session run_command follow pure ◌>>=◌
  session_blank n lines m = (
    rw (session_line (replicate (suc n) b' ') lines (ground arith), command_words-replicate (suc n))
        refl,
    refl,
  )
