-- ===== src/Shell/Words.antt =====
-- A reading of a word in one pass, the plain account of what the tokenizer makes of quotes and escapes
-- (`Tokenizer::next_str` of crates/user/ov6_utilities/src/bin/sh/tokenizer.rs).
use ov.Prelude.{ℕ, ◌≡◌, refl, ◌||◌, Option, some, [], ◌∷◌, ◌++◌, ◌==◌, if◌then◌else◌}
use ov.Shell.Tokenizer.{
  Bytes, Result, ok, err, incomplete_escape, unterminated_double_quote, unterminated_single_quote,
  backslash, double_quote, single_quote, symbols, contains_byte, is_ascii_whitespace,
}

-- Where a reader is in a word: outside quotes, within quotes, or after a backslash in one of the
-- two places where it is one.
pub data Mode : Type 0 where
  bare : Mode
  double : Mode
  single : Mode
  escaped : Mode
  double_escaped : Mode

pub data Move : Type 0 where
  push : Mode → Move
  skip : Mode → Move
  stop : Move

unfoldable pub move : Mode → ℕ → Move
move bare c =
    if c == backslash
    then skip escaped
    else if c == double_quote
    then skip double
    else if c == single_quote
    then skip single
    else if is_ascii_whitespace c || contains_byte symbols c
    then stop
    else push bare
move double c =
    if c == backslash
    then skip double_escaped
    else if c == double_quote
    then skip bare
    else push double
move single c = if c == single_quote then skip bare else push single
move escaped c = push bare
move double_escaped c = push double

unfoldable pub ended : Mode → Result Bytes
ended bare = ok []
ended double = err unterminated_double_quote
ended single = err unterminated_single_quote
ended escaped = err incomplete_escape
ended double_escaped = err incomplete_escape

abbrev pub prepend_word : Bytes → Result Bytes × Bytes → Result Bytes × Bytes
prepend_word r (ok w, rest) = (ok (r ++ w), rest)
prepend_word r (err e, rest) = (err e, rest)

-- The word at the front of the bytes, and the bytes after it.
unfoldable pub read_word : Mode → Bytes → Result Bytes × Bytes
unfolding ended
read_word m [] = (ended m, [])
read_word m (c ∷ cs) = elim (move m c) [
  | push m' ↦ prepend_word (c ∷ []) (read_word m' cs)
  | skip m' ↦ read_word m' cs
  | stop ↦ (ok [], c ∷ cs)
]

abbrev pub found : Result Bytes × Bytes → Result (Option Bytes) × Bytes
found (ok w, rest) = (ok (some w), rest)
found (err e, rest) = (err e, rest)

pub prepend_nil : (x : Result Bytes × Bytes) → prepend_word [] x ≡ x
prepend_nil (ok w, rest) = refl
prepend_nil (err e, rest) = refl
