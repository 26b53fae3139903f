-- ===== src/Manager/Words.antt =====
-- How `main` cuts a line of input into the words of a command. `strtok` is that of the C library.
pub mod Tokens
use laser_control.Common.{
  ℕ, zero, suc, Option, none, some, List, [], ◌∷◌, Bytes, ◌==◌, if◌then◌else◌,
}

-- `count`: one more than the spaces that the loop over `strchr` finds.
unfoldable pub count_words : Bytes → ℕ
count_words [] = 1
count_words (c ∷ s) = let rest = count_words s in if c == b' ' then suc rest else rest

unfoldable pub skip_spaces : Bytes → Bytes
skip_spaces [] = []
skip_spaces (c ∷ s) = if c == b' ' then skip_spaces s else c ∷ s

-- The bytes up to a space, and those behind it.
pub first_token : Bytes → Bytes × Bytes
first_token [] = ([], [])
first_token (c ∷ s) = if c == b' ' then ([], s) else (c ∷ (first_token s).0, (first_token s).1)

-- The next token and the text from which the following call goes on; `none` for a null pointer.
unfoldable pub strtok : Bytes → Option (Bytes × Bytes)
unfolding skip_spaces first_token
strtok s = elim (skip_spaces s) [ [] ↦ none | c ∷ s' ↦ some (first_token (c ∷ s')) ]

-- The array has room for `n` more words; the loop ends at a null pointer, which does not count.
unfoldable pub fill : ℕ → Bytes → List Bytes
unfolding strtok
fill zero s = []
fill (suc n) s = elim (strtok s) [ none ↦ [] | some (word, rest) ↦ word ∷ fill n rest ]

-- The words in `cmd`, as many as the argument `i` of `run_command` says.
unfoldable pub command_words : Bytes → List Bytes
unfolding fill count_words
command_words line = fill (count_words line) line
