-- ===== src/Util/Escape.antt =====
-- `escape` and `char2int`. A `const char*` ends at its first zero byte.
use laser_control.Common.{
  ℕ, ◌≡◌, ◌≢◌, refl, Bool, true, false, ◌||◌, List, [], ◌∷◌, ◌++◌, arith, Bytes, ◌==◌,
  if◌then◌else◌, All,
}
use laser_control.Common.Int.{ℤ, pos, ◌-ℤ◌, to_signed}

-- `c - '0'`, of a signed `char`.
pub char2int : ℕ → ℤ
char2int c = to_signed 256 c -ℤ pos b'0'

abbrev is_in : List ℕ → ℕ → Bool
is_in [] c = false
is_in (e ∷ es) c = c == e || is_in es c

-- The map `specials`: '\n' to 'n', '\r' to 'r', '\t' to 't'.
special : ℕ → ℕ
special c = if c == 10 then b'n' else if c == 13 then b'r' else if c == 9 then b't' else c

-- `escape(src, escapee, marker)`.
pub escape_with : Bytes → List ℕ → ℕ → Bytes
unfolding special
escape_with [] escapee marker = []
escape_with (c ∷ s) escapee marker =
    if c == 0
    then []
    else (if is_in escapee c then marker ∷ [] else []) ++ special c ∷ escape_with s escapee marker

abbrev backslash : ℕ
backslash = 92

-- `escape(src)`: the marker is a backslash.
unfoldable pub escape : Bytes → Bytes
unfolding escape_with
escape s = escape_with s (10 ∷ 9 ∷ 13 ∷ []) backslash

-- The byte that a backslash and `c` stand for.
abbrev plain : ℕ → ℕ
plain c = if c == b'n' then 10 else if c == b'r' then 13 else if c == b't' then 9 else c

-- Reading back what was escaped.
abbrev pub unescape : Bool → Bytes → Bytes
unescape marked [] = []
unescape true (c ∷ s) = plain c ∷ unescape false s
unescape false (c ∷ s) = elim (c == backslash) [
  | true ↦ unescape true s
  | false ↦ c ∷ unescape false s
]

-- Nothing is lost: a text with no zero byte and no backslash is read back from its escaped form,
-- and that form has no newline, carriage return or tab.
pub escape_lem :
    (s : Bytes)
    → All (λ c. (c ≢ 0) × (c ≢ backslash)) s
    → (unescape false (escape s) ≡ s) × All (λ c. (c ≢ 10) × (c ≢ 13) × (c ≢ 9)) (escape s)
unfolding escape
escape_lem [] h = (refl, tt)
escape_lem (c ∷ s) h = ground (arith, escape_lem s h.1)
