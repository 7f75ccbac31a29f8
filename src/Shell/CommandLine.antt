-- ===== src/Shell/CommandLine.antt =====
-- Command lines as they may be written, and the tokens that the tokenizer yields for them
-- (`Tokenizer::next_token` and the iterator over it).
use ov.Prelude.{
  ℕ, zero, suc, ◌+◌, ◌≤◌, ◌<◌, ◌≡◌, refl, subst, sym, ap, ◌∙◌, ◌≢◌, Bool, true, false, ◌||◌, some,
  List, [], ◌∷◌, ◌++◌, arith, length, length-append, All,
}
use ov.Shell.Tokenizer.{
  Bytes, Punct, Token, Tokens, ok, str, punct, end, token, as_str, pipe, and_and, or_or, l_paren,
  r_paren, semicolon, and, lt, gt, gt_gt, backslash, double_quote, single_quote, symbols,
  contains_byte, is_ascii_whitespace, next_str, skip_whitespace, token_at, next_token, lex, lex_all,
  next_if, next_if_eq, as_token,
}
use mathlib.Core.List.{append-nil}
use ov.Shell.Passes.{next_str-eq-read_word}
use ov.Shell.Words.{}
use ov.Shell.Spelling.{
  Piece, Quoted, plain, escape, in_double, in_single, literal, backslashed, spell, spell_quoted,
  value, IsPiece, Stops, read_pieces, read_stop,
}

abbrev pub IsBlank : Bytes → Type 0
IsBlank ws = All (λ c. is_ascii_whitespace c ≡ true) ws

-- The next byte does not make a longer sign of this one.
abbrev pub Apart : Punct → Bytes → Type 0
Apart p [] = Unit
Apart pipe (c ∷ k) = c ≢ b'|'
Apart and (c ∷ k) = c ≢ b'&'
Apart gt (c ∷ k) = c ≢ b'>'
Apart p (c ∷ k) = Unit

-- A command line and its tokens: signs and words, with blanks anywhere between them.
pub data Written : Bytes → List Token → Type 0 where
  ends : (ws : Bytes) → IsBlank ws → Written ws []
  sign :
      (ws : Bytes) (p : Punct) {rest : Bytes} {ts : List Token}
      → IsBlank ws
      → Apart p rest
      → Written rest ts
      → Written (ws ++ (as_str p ++ rest)) (punct p ∷ ts)
  word :
      (ws : Bytes) (x : Piece) (ps : List Piece) {rest : Bytes} {ts : List Token}
      → IsBlank ws
      → All IsPiece (x ∷ ps)
      → Stops rest
      → Written rest ts
      → Written (ws ++ spell (x ∷ ps) rest) (str (value (x ∷ ps)) ∷ ts)

abbrev pub tokens : List Token → Tokens
tokens [] = end
tokens (t ∷ ts) = token t (tokens ts)

-- The bytes do not start with a blank.
abbrev IsVisible : Bytes → Type 0
IsVisible [] = Unit
IsVisible (c ∷ k) = is_ascii_whitespace c ≡ false

skip_whitespace-blank : (ws k : Bytes) → IsBlank ws → IsVisible k → skip_whitespace (ws ++ k) ≡ k
unfolding skip_whitespace
skip_whitespace-blank [] [] b v = refl
skip_whitespace-blank [] (c ∷ k) b v = rw (skip_whitespace, v)
skip_whitespace-blank (c ∷ ws) k b v = rw (skip_whitespace, b.0) (skip_whitespace-blank ws k b.1 v)

skip_whitespace-all : (ws : Bytes) → IsBlank ws → skip_whitespace ws ≡ []
unfolding skip_whitespace
skip_whitespace-all [] b = refl
skip_whitespace-all (c ∷ ws) b = rw (skip_whitespace, b.0) (skip_whitespace-all ws b.1)

as_str-IsVisible : (p : Punct) (k : Bytes) → IsVisible (as_str p ++ k)
unfolding as_str is_ascii_whitespace
as_str-IsVisible pipe k = refl
as_str-IsVisible and_and k = refl
as_str-IsVisible or_or k = refl
as_str-IsVisible l_paren k = refl
as_str-IsVisible r_paren k = refl
as_str-IsVisible semicolon k = refl
as_str-IsVisible and k = refl
as_str-IsVisible lt k = refl
as_str-IsVisible gt k = refl
as_str-IsVisible gt_gt k = refl

token_at-punct :
    (p : Punct) (k : Bytes) → Apart p k → token_at (as_str p ++ k) ≡ (ok (some (punct p)), k)
unfolding as_str token_at next_if next_if_eq
token_at-punct pipe [] h = refl
token_at-punct pipe (c ∷ k) h = ground arith
token_at-punct and [] h = refl
token_at-punct and (c ∷ k) h = ground arith
token_at-punct gt [] h = refl
token_at-punct gt (c ∷ k) h = ground arith
token_at-punct and_and k h = refl
token_at-punct or_or k h = refl
token_at-punct l_paren k h = refl
token_at-punct r_paren k h = refl
token_at-punct semicolon k h = refl
token_at-punct lt k h = refl
token_at-punct gt_gt k h = refl

pub token_at-word :
    (c : ℕ) (k : Bytes)
    → contains_byte symbols c ≡ false
    → token_at (c ∷ k) ≡ as_token (next_str (c ∷ k))
unfolding token_at next_if next_if_eq contains_byte
token_at-word c k h = ground (arith, h)

next_str-pieces :
    (c : ℕ) (cs k : Bytes) (ps : List Piece)
    → c ∷ cs ≡ spell ps k
    → All IsPiece ps
    → Stops k
    → next_str (c ∷ cs) ≡ (ok (some (value ps)), k)
next_str-pieces c cs k ps e h s =
    next_str-eq-read_word c cs
    ∙ rw (e, read_pieces ps k h, read_stop k s, append-nil (value ps)) refl

-- How a word starts.
Starts : Bytes → Type 0
Starts s =
    (c : ℕ) × (cs : Bytes) × (c ∷ cs ≡ s)
    × (is_ascii_whitespace c ≡ false)
    × (contains_byte symbols c ≡ false)

or_false : (a b : Bool) → (a || b) ≡ false → (a ≡ false) × (b ≡ false)
or_false false b e = (refl, e)
or_false true b e = absurd (cc e)

spell-Starts : (x : Piece) (ps : List Piece) (k : Bytes) → IsPiece x → Starts (spell (x ∷ ps) k)
unfolding Starts is_ascii_whitespace contains_byte
spell-Starts (plain c) ps k (_, _, _, e) =
    let (w, y) = or_false _ _ e in (c, spell ps k, refl, w, y)
spell-Starts (escape c) ps k h = (backslash, c ∷ spell ps k, refl, refl, refl)
spell-Starts (in_double qs) ps k h = (double_quote, spell_quoted qs (spell ps k), refl, refl, refl)
spell-Starts (in_single cs) ps k h =
    (single_quote, cs ++ single_quote ∷ spell ps k, refl, refl, refl)

next_token-word :
    (ws : Bytes) (x : Piece) (ps : List Piece) (k : Bytes)
    → IsBlank ws
    → All IsPiece (x ∷ ps)
    → Stops k
    → next_token (ws ++ spell (x ∷ ps) k) ≡ (ok (some (str (value (x ∷ ps)))), k)
unfolding next_token Starts
next_token-word ws x ps k b h s =
    let (c, cs, e, w, y) = spell-Starts x ps k h.0 in
    let visible : IsVisible (spell (x ∷ ps) k) = subst IsVisible e w in
    ap token_at (skip_whitespace-blank ws (spell (x ∷ ps) k) b visible)
    ∙ ap token_at (sym e)
    ∙ token_at-word c cs y
    ∙ ap as_token (next_str-pieces c cs k (x ∷ ps) e h s)

next_token-punct :
    (ws : Bytes) (p : Punct) (k : Bytes)
    → IsBlank ws
    → Apart p k
    → next_token (ws ++ (as_str p ++ k)) ≡ (ok (some (punct p)), k)
unfolding next_token
next_token-punct ws p k b a =
    ap token_at (skip_whitespace-blank ws (as_str p ++ k) b (as_str-IsVisible p k))
    ∙ token_at-punct p k a

length-as_str : (p : Punct) (k : Bytes) → length k < length (as_str p ++ k)
unfolding as_str
length-as_str pipe k = omega arith
length-as_str and_and k = omega arith
length-as_str or_or k = omega arith
length-as_str l_paren k = omega arith
length-as_str r_paren k = omega arith
length-as_str semicolon k = omega arith
length-as_str and k = omega arith
length-as_str lt k = omega arith
length-as_str gt k = omega arith
length-as_str gt_gt k = omega arith

length-spell_quoted : (qs : List Quoted) (k : Bytes) → length k < length (spell_quoted qs k)
length-spell_quoted [] k = omega arith
length-spell_quoted (literal c ∷ qs) k = omega (arith, length-spell_quoted qs k)
length-spell_quoted (backslashed c ∷ qs) k = omega (arith, length-spell_quoted qs k)

length-spell : (ps : List Piece) (k : Bytes) → length k + length ps ≤ length (spell ps k)
length-spell [] k = omega arith
length-spell (plain c ∷ ps) k = omega (arith, length-spell ps k)
length-spell (escape c ∷ ps) k = omega (arith, length-spell ps k)
length-spell (in_double qs ∷ ps) k =
    omega (arith, length-spell ps k, length-spell_quoted qs (spell ps k))
length-spell (in_single cs ∷ ps) k =
    omega (arith, length-spell ps k, length-append cs (single_quote ∷ spell ps k))

lex-Written :
    (fuel : ℕ) {chars : Bytes} {ts : List Token}
    → Written chars ts
    → length chars < fuel
    → lex fuel chars ≡ some (tokens ts)
unfolding lex next_token token_at next_if next_if_eq next_str
lex-Written zero w h = absurd (omega arith)
lex-Written (suc fuel) (ends ws b) h = rw (skip_whitespace-all ws b)
lex-Written (suc fuel) (sign ws p b a w) h = rw (
  next_token-punct ws p _ b a,
  lex-Written fuel w (omega (arith, length-append ws (as_str p ++ _), length-as_str p _)),
)
lex-Written (suc fuel) (word ws x ps b i s w) h = rw (
  next_token-word ws x ps _ b i s,
  lex-Written fuel w (omega (arith, length-append ws (spell (x ∷ ps) _), length-spell (x ∷ ps) _)),
)

-- Every command line as it may be written, blanks between signs and words that are put together of
-- plain characters, escapes and quotes in any order, gives the tokens that it is written for.
pub lex_all-Written :
    {chars : Bytes} {ts : List Token} → Written chars ts → lex_all chars ≡ some (tokens ts)
unfolding lex_all
lex_all-Written w = lex-Written _ w (omega arith)
