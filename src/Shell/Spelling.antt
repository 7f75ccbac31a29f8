-- ===== src/Shell/Spelling.antt =====
-- What a word, and a whole command line, may look like, and that the tokenizer reads it
-- (`Tokenizer::next_token` and the iterator over it).
use ov.Prelude.{
  ℕ, ◌≡◌, refl, sym, ◌∙◌, ◌≢◌, Bool, true, false, ◌||◌, List, [], ◌∷◌, ◌++◌, arith, All, ==_ne,
}
use ov.Shell.Tokenizer.{
  Bytes, Result, ok, err, backslash, double_quote, single_quote, symbols, contains_byte,
  is_ascii_whitespace,
}
use mathlib.Core.List.{append_assoc}
use ov.Shell.Words.{bare, double, single, stop, move, read_word, ended, prepend_word, prepend_nil}

-- A character within double quotes: as it is, or after a backslash.
pub data Quoted : Type 0 where
  literal : ℕ → Quoted
  backslashed : ℕ → Quoted

-- A part of a word.
pub data Piece : Type 0 where
  plain : ℕ → Piece
  escape : ℕ → Piece
  in_double : List Quoted → Piece
  in_single : Bytes → Piece

abbrev pub spell_quoted : List Quoted → Bytes → Bytes
spell_quoted [] k = double_quote ∷ k
spell_quoted (literal c ∷ qs) k = c ∷ spell_quoted qs k
spell_quoted (backslashed c ∷ qs) k = backslash ∷ c ∷ spell_quoted qs k

-- The spelling of a word, before the bytes `k`.
abbrev pub spell : List Piece → Bytes → Bytes
spell [] k = k
spell (plain c ∷ ps) k = c ∷ spell ps k
spell (escape c ∷ ps) k = backslash ∷ c ∷ spell ps k
spell (in_double qs ∷ ps) k = double_quote ∷ spell_quoted qs (spell ps k)
spell (in_single cs ∷ ps) k = single_quote ∷ (cs ++ single_quote ∷ spell ps k)

abbrev pub quoted_value : List Quoted → Bytes
quoted_value [] = []
quoted_value (literal c ∷ qs) = c ∷ quoted_value qs
quoted_value (backslashed c ∷ qs) = c ∷ quoted_value qs

-- The word that is meant.
abbrev pub value : List Piece → Bytes
value [] = []
value (plain c ∷ ps) = c ∷ value ps
value (escape c ∷ ps) = c ∷ value ps
value (in_double qs ∷ ps) = quoted_value qs ++ value ps
value (in_single cs ∷ ps) = cs ++ value ps

abbrev pub ends_word : ℕ → Bool
ends_word c = is_ascii_whitespace c || contains_byte symbols c

-- A character may stand in double quotes as it is.
abbrev pub IsLiteral : Quoted → Type 0
IsLiteral (literal c) = (c ≢ backslash) × (c ≢ double_quote)
IsLiteral (backslashed c) = Unit

abbrev pub IsPiece : Piece → Type 0
IsPiece (plain c) =
    (c ≢ backslash) × (c ≢ double_quote) × (c ≢ single_quote) × (ends_word c ≡ false)
IsPiece (escape c) = Unit
IsPiece (in_double qs) = All IsLiteral qs
IsPiece (in_single cs) = All (λ c. c ≢ single_quote) cs

-- The bytes after a word do not go on with it.
abbrev pub Stops : Bytes → Type 0
Stops [] = Unit
Stops (c ∷ k) = ends_word c ≡ true

prepend_word-append :
    (r w : Bytes) (x : Result Bytes × Bytes)
    → prepend_word r (prepend_word w x) ≡ prepend_word (r ++ w) x
prepend_word-append r w (ok v, rest) = rw (append_assoc r w v)
prepend_word-append r w (err e, rest) = refl

pub read_quoted :
    (qs : List Quoted) (k : Bytes)
    → All IsLiteral qs
    → read_word double (spell_quoted qs k) ≡ prepend_word (quoted_value qs) (read_word bare k)
unfolding read_word move
read_quoted [] k h = sym (prepend_nil (read_word bare k))
read_quoted (literal c ∷ qs) k h =
    rw (read_word, move, ==_ne c backslash h.0.0, ==_ne c double_quote h.0.1, read_quoted qs k h.1)
      (prepend_word-append (c ∷ []) (quoted_value qs) (read_word bare k))
read_quoted (backslashed c ∷ qs) k h =
    rw (read_quoted qs k h.1) (prepend_word-append (c ∷ []) (quoted_value qs) (read_word bare k))

pub read_single :
    (cs k : Bytes)
    → All (λ c. c ≢ single_quote) cs
    → read_word single (cs ++ single_quote ∷ k) ≡ prepend_word cs (read_word bare k)
unfolding read_word move
read_single [] k h = sym (prepend_nil (read_word bare k))
read_single (c ∷ cs) k h =
    rw (read_word, move, ==_ne c single_quote h.0, read_single cs k h.1)
      (prepend_word-append (c ∷ []) cs (read_word bare k))

pub read_pieces :
    (ps : List Piece) (k : Bytes)
    → All IsPiece ps
    → read_word bare (spell ps k) ≡ prepend_word (value ps) (read_word bare k)
unfolding read_word move
read_pieces [] k h = sym (prepend_nil (read_word bare k))
read_pieces (plain c ∷ ps) k ((b, d, s, e), h) =
    rw
      (
        read_word,
        move,
        ==_ne c backslash b,
        ==_ne c double_quote d,
        ==_ne c single_quote s,
        e,
        read_pieces ps k h,
      )
      (prepend_word-append (c ∷ []) (value ps) (read_word bare k))
read_pieces (escape c ∷ ps) k h =
    rw (read_pieces ps k h.1) (prepend_word-append (c ∷ []) (value ps) (read_word bare k))
read_pieces (in_double qs ∷ ps) k h =
    read_quoted qs (spell ps k) h.0
    ∙ rw (read_pieces ps k h.1)
        (prepend_word-append (quoted_value qs) (value ps) (read_word bare k))
read_pieces (in_single cs ∷ ps) k h =
    read_single cs (spell ps k) h.0
    ∙ rw (read_pieces ps k h.1) (prepend_word-append cs (value ps) (read_word bare k))

pub move_stop : (c : ℕ) → ends_word c ≡ true → move bare c ≡ stop
unfolding move is_ascii_whitespace contains_byte
move_stop c h = ground (arith, h)

pub read_stop : (k : Bytes) → Stops k → read_word bare k ≡ (ok [], k)
unfolding read_word ended
read_stop [] h = refl
read_stop (c ∷ k) h = rw (read_word, move_stop c h)
