-- ===== src/Util/Tokens.antt =====
-- `tokenize_string`. The loop takes fuel, since an empty separator would keep it going for ever;
-- for the separators in use one round for each byte is enough (`tokenize_string_total`).
pub mod RoundTrip
pub mod Numbers
use mathlib.Core.Option.{get_or}
use laser_control.Common.{
  ℕ, zero, suc, ◌+◌, ◌<◌, ◌≡◌, refl, ap, ◌∙◌, inl, inr, Option, none, some, List, [], ◌∷◌, ◌++◌,
  append_assoc, arith, Bytes, append-nil, Option-cases, length, take, drop, All, All-append,
}
use laser_control.Std.Strings.{find}
use laser_control.Std.Strings.Find.{find_split, find-take, drop-add, length-drop-find}

-- Each round cuts the text before the first separator; what is left at the end is the last token.
pub tokenize_loop : ℕ → Bytes → Bytes → List Bytes → Option (List Bytes)
tokenize_loop zero sep str tokens = none
tokenize_loop (suc fuel) sep str tokens = elim (find sep str) [
  | none ↦ some (tokens ++ str ∷ [])
  | some p ↦ tokenize_loop fuel sep (drop (p + length sep) str) (tokens ++ take p str ∷ [])
]

-- The tokens that the call adds to an empty vector.
unfoldable pub tokenize_string : Bytes → Bytes → List Bytes
unfolding tokenize_loop find
tokenize_string str sep = get_or (tokenize_loop (suc (length str)) sep str []) []

-- Every part before a separator.
abbrev pub joined : Bytes → List Bytes → Bytes
joined sep [] = []
joined sep (t ∷ ts) = t ++ (sep ++ joined sep ts)

joined-append :
    (sep : Bytes) (ts us : List Bytes) → joined sep (ts ++ us) ≡ joined sep ts ++ joined sep us
joined-append sep [] us = refl
joined-append sep (t ∷ ts) us = simp (joined-append sep ts, append_assoc)

-- No part holds the separator.
abbrev pub AllLack : Bytes → List Bytes → Type 0
AllLack sep = All (λ t. find sep t ≡ none)

module _ (p : ℕ) (ps : Bytes) where
  abbrev sep : Bytes
  sep = p ∷ ps

  joined_last :
      (tokens : List Bytes) (str : Bytes)
      → joined sep (tokens ++ str ∷ []) ≡ joined sep tokens ++ (str ++ sep)
  joined_last tokens str = simp (joined-append sep tokens, append-nil)

  joined_round :
      (tokens : List Bytes) (str : Bytes) (i : ℕ)
      → find sep str ≡ some i
      → joined sep (tokens ++ take i str ∷ []) ++ (drop (i + length sep) str ++ sep)
        ≡ joined sep tokens ++ (str ++ sep)
  joined_round tokens str i e =
      let split = find_split sep str i e in
      let parts : str ++ sep ≡ take i str ++ (sep ++ (drop (length sep) (drop i str) ++ sep)) =
        ap (λ t. t ++ sep) split ∙ simp append_assoc in
      rw (joined_last tokens (take i str), drop-add i (length sep) str, parts) (simp append_assoc)

  tokenize_loop_lem :
      (fuel : ℕ) (str : Bytes) (tokens : List Bytes)
      → length str < fuel
      → AllLack sep tokens
      → (ts : List Bytes) × (tokenize_loop fuel sep str tokens ≡ some ts)
        × (joined sep ts ≡ joined sep tokens ++ (str ++ sep))
        × AllLack sep ts
  unfolding tokenize_loop
  tokenize_loop_lem zero str tokens h clean = absurd (omega arith)
  tokenize_loop_lem (suc fuel) str tokens h clean = elim (Option-cases (find sep str)) [
    | inl last ↦ (
      tokens ++ str ∷ [],
      rw (last, tokenize_loop),
      joined_last tokens str,
      All-append _ tokens (str ∷ []) clean (last, tt),
    )
    | inr (i, e) ↦
        let (ts, run, spells, lacks) =
          tokenize_loop_lem fuel (drop (i + length sep) str) (tokens ++ take i str ∷ [])
            (omega (arith, length-drop-find p ps str i e))
            (All-append _ tokens (take i str ∷ []) clean (find-take p ps str i e, tt)) in
        (ts, rw (e, tokenize_loop) run, spells ∙ joined_round tokens str i e, lacks)
  ]

  -- With a separator that is not empty the loop ends, whatever the text; put together again with
  -- a separator after each part, the tokens spell the text and a separator, and no token holds one.
  pub tokenize_string_total :
      (str : Bytes)
      → (tokenize_loop (suc (length str)) sep str [] ≡ some (tokenize_string str sep))
        × (joined sep (tokenize_string str sep) ≡ str ++ sep)
        × AllLack sep (tokenize_string str sep)
  unfolding tokenize_string
  tokenize_string_total str =
      let (ts, run, spells, lacks) = tokenize_loop_lem (suc (length str)) str [] (omega arith) tt in
      rw run (refl, spells, lacks)
