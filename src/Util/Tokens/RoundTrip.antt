-- ===== src/Util/Tokens/RoundTrip.antt =====
-- Cutting a line that was put together with one-byte separators gives its fields back.
use laser_control.Common.{
  ℕ, zero, suc, ◌<◌, ◌≡◌, refl, some, none, List, [], ◌∷◌, ◌++◌, append_assoc, arith, Bytes, length,
  length-append, take_prefix, drop_prefix,
}
use laser_control.Std.Strings.{starts_with, find}
use laser_control.Std.Strings.Find.{drop-add}
use laser_control.Util.Tokens.{AllLack, tokenize_loop, tokenize_string}

-- The fields of a line, with the byte `p` between them.
abbrev pub line_of : ℕ → List Bytes → Bytes
line_of p [] = []
line_of p (t ∷ []) = t
line_of p (t ∷ u ∷ us) = t ++ p ∷ line_of p (u ∷ us)

module _ (p : ℕ) where
  find_after :
      (t rest : Bytes) → find (p ∷ []) t ≡ none → find (p ∷ []) (t ++ p ∷ rest) ≡ some (length t)
  unfolding find starts_with
  find_after [] rest h = ground arith
  find_after (c ∷ t) rest h = ground (arith, find_after t rest)

  tokenize_loop_fields :
      (fuel : ℕ) (t : Bytes) (ts tokens : List Bytes)
      → length (line_of p (t ∷ ts)) < fuel
      → AllLack (p ∷ []) (t ∷ ts)
      → tokenize_loop fuel (p ∷ []) (line_of p (t ∷ ts)) tokens ≡ some (tokens ++ t ∷ ts)
  unfolding tokenize_loop
  tokenize_loop_fields zero t ts tokens h lacks = absurd (omega arith)
  tokenize_loop_fields (suc fuel) t [] tokens h lacks = rw (lacks.0, tokenize_loop)
  tokenize_loop_fields (suc fuel) t (u ∷ us) tokens h lacks =
      let rest = line_of p (u ∷ us) in
      let len = length-append t (p ∷ rest) in
      let ih = tokenize_loop_fields fuel u us (tokens ++ t ∷ []) (omega arith) lacks.1 in
      rw (find_after t rest lacks.0, tokenize_loop)
        (rw (drop-add (length t) 1 (t ++ p ∷ rest), drop_prefix (length t) t (p ∷ rest) refl)
          (rw (take_prefix (length t) t (p ∷ rest) refl)
            (rw (append_assoc tokens (t ∷ []) (u ∷ us)) at ih)))

-- Fields that hold no separator come back as they were.
pub tokenize_string-line_of :
    (p : ℕ) (t : Bytes) (ts : List Bytes)
    → AllLack (p ∷ []) (t ∷ ts)
    → tokenize_string (line_of p (t ∷ ts)) (p ∷ []) ≡ t ∷ ts
unfolding tokenize_string
tokenize_string-line_of p t ts lacks =
    rw (tokenize_loop_fields p (suc (length (line_of p (t ∷ ts)))) t ts [] (omega arith) lacks)
