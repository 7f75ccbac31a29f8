-- ===== src/Shell/Progress.antt =====
-- Every call of the tokenizer that yields a token takes a byte, so that the iteration ends on all
-- inputs (`Tokenizer::next_token`).
use ov.Prelude.{
  ℕ, zero, suc, ◌+◌, ◌≤◌, ◌<◌, ◌≡◌, refl, ◌≢◌, Bool, true, false, Option, none, some, [], ◌∷◌,
  arith, length,
}
use ov.Shell.Tokenizer.{
  Bytes, Token, Tokens, token, Result, ok, err, symbols, contains_byte, is_ascii_whitespace,
  next_str, skip_whitespace, token_at, next_token, lex, lex_all, next_if, next_if_eq, as_token,
  yielding,
}
use ov.Shell.Passes.{next_str-eq-read_word}
use ov.Shell.Words.{Mode, Move, push, skip, stop, move, read_word, bare, prepend_word, found}
use ov.Shell.Spelling.{ends_word}
use ov.Shell.CommandLine.{token_at-word}

-- The bytes that are left after a token, and one; nothing if there is no token.
abbrev left : Result (Option Token) × Bytes → ℕ
left (ok (some t), rest) = suc (length rest)
left (ok none, rest) = 0
left (err e, rest) = 0

prepend_word-rest : (r : Bytes) (x : Result Bytes × Bytes) → (prepend_word r x).1 ≡ x.1
prepend_word-rest r (ok w, rest) = refl
prepend_word-rest r (err e, rest) = refl

length-read_word : (m : Mode) (cs : Bytes) → length (read_word m cs).1 ≤ length cs
unfolding read_word
length-read_word m [] = omega arith
length-read_word m (c ∷ cs) = at_move (move m c) refl (λ m'. length-read_word m' cs)
  where
    at_move :
        (mv : Move)
        → move m c ≡ mv
        → ((m' : Mode) → length (read_word m' cs).1 ≤ length cs)
        → length (read_word m (c ∷ cs)).1 ≤ length (c ∷ cs)
    at_move (push m') e ih =
        rw (read_word, e, prepend_word-rest (c ∷ []) (read_word m' cs)) (omega (arith, ih m'))
    at_move (skip m') e ih = rw (read_word, e) (omega (arith, ih m'))
    at_move stop e ih = rw (read_word, e) (omega arith)

-- Outside quotes a byte that does not end a word is taken.
move-eq-stop : (c : ℕ) → ends_word c ≡ false → move bare c ≢ stop
unfolding move
move-eq-stop c h e = ground (arith, h, e)

length-read_word_bare :
    (c : ℕ) (cs : Bytes) → ends_word c ≡ false → length (read_word bare (c ∷ cs)).1 ≤ length cs
unfolding read_word
length-read_word_bare c cs h = at_move (move bare c) refl
  where
    at_move : (mv : Move) → move bare c ≡ mv → length (read_word bare (c ∷ cs)).1 ≤ length cs
    at_move (push m') e =
        rw (read_word, e, prepend_word-rest (c ∷ []) (read_word m' cs)) (length-read_word m' cs)
    at_move (skip m') e = rw (read_word, e) (length-read_word m' cs)
    at_move stop e = absurd (move-eq-stop c h e)

left-word : (x : Result Bytes × Bytes) → left (as_token (found x)) ≤ suc (length x.1)
left-word (ok w, rest) = omega arith
left-word (err e, rest) = omega arith

left-sign :
    (c : ℕ) (k : Bytes) → contains_byte symbols c ≡ true → left (token_at (c ∷ k)) ≤ length (c ∷ k)
unfolding token_at next_if next_if_eq contains_byte
left-sign c [] h = ground (arith, h)
left-sign c (d ∷ k) h = ground (arith, h)

left-token_at : (k : Bytes) → left (token_at (skip_whitespace k)) ≤ length k
unfolding skip_whitespace token_at next_if next_if_eq next_str
left-token_at [] = omega arith
left-token_at (c ∷ k) = at_byte _ refl _ refl (left-token_at k)
  where
    at_byte :
        (w : Bool)
        → is_ascii_whitespace c ≡ w
        → (y : Bool) → contains_byte symbols c ≡ y
        → left (token_at (skip_whitespace k)) ≤ length k
        → left (token_at (skip_whitespace (c ∷ k))) ≤ length (c ∷ k)
    at_byte true ew y ey ih = rw (skip_whitespace, ew) (omega (arith, ih))
    at_byte false ew true ey ih = rw (skip_whitespace, ew) (left-sign c k ey)
    at_byte false ew false ey ih =
        let visible : ends_word c ≡ false = rw (ew, ey) refl in
        rw (skip_whitespace, ew, token_at-word c k ey, next_str-eq-read_word c k)
          (omega (arith, left-word (read_word bare (c ∷ k)), length-read_word_bare c k visible))

lex_total :
    (fuel : ℕ) (chars : Bytes) → length chars < fuel → (ts : Tokens) × (lex fuel chars ≡ some ts)
unfolding lex next_token
lex_total zero chars h = absurd (omega arith)
lex_total (suc fuel) chars h =
    on_item (token_at (skip_whitespace chars)) (left-token_at chars) (λ rest. lex_total fuel rest)
  where
    on_item :
        (x : Result (Option Token) × Bytes)
        → left x ≤ length chars
        → ((rest : Bytes) → length rest < fuel → (ts : Tokens) × (lex fuel rest ≡ some ts))
        → (ts : Tokens) × (yielding x.0 (lex fuel x.1) ≡ some ts)
    on_item (ok (some t), rest) l ih =
        let (ts, e) = ih rest (omega (arith, l, h)) in (token t ts, rw e)
    on_item (ok none, rest) l ih = (_, refl)
    on_item (err e, rest) l ih = (_, refl)

-- On all inputs the iteration over the tokens ends, at the end of the input or at an error, after at
-- most as many tokens as there are bytes.
pub lex_all_total : (chars : Bytes) → (ts : Tokens) × (lex_all chars ≡ some ts)
unfolding lex_all
lex_all_total chars = lex_total (length chars + 1) chars (omega arith)
