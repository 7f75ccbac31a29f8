-- ===== src/Shell/Passes.antt =====
-- The two passes of the tokenizer over a word, counting and constructing, give what one pass gives
-- (`Tokenizer::next_str` of crates/user/ov6_utilities/src/bin/sh/tokenizer.rs).
use ov.Prelude.{
  ℕ, ◌-◌, ◌≡◌, refl, subst, sym, ap, ◌∙◌, Bool, true, false, not, Option, none, some, [], ◌∷◌, ◌++◌,
  arith, length, length-append, take, if◌then◌else◌,
}
use mathlib.Core.List.{append_assoc, append-nil}
use ov.Shell.Tokenizer.{
  Bytes, Scan, Result, ok, err, incomplete_escape, unterminated_double_quote,
  unterminated_single_quote, scan_round, scan, construct, finish_str, next_str, scan_start,
}
use ov.Shell.Words.{
  Mode, Move, move, ended, prepend_word, read_word, found, prepend_nil, bare, double, single,
  escaped, double_escaped, push, skip, stop,
}
use ov.Shell.Rounds.{flags_of, building, Follows, round_lem}

-- The bytes that the counting loop takes.
consumed : Scan → Bytes → Bytes
consumed s [] = []
consumed s (c ∷ cs) = elim (scan_round s c) [ none ↦ [] | some s' ↦ c ∷ consumed s' cs ]

scan-consumed : (s : Scan) (cs : Bytes) → consumed s cs ++ (scan s cs).1 ≡ cs
unfolding consumed scan
scan-consumed s [] = refl
scan-consumed s (c ∷ cs) = at_round (scan_round s c) refl (λ s'. scan-consumed s' cs)
  where
    at_round :
        (o : Option Scan)
        → scan_round s c ≡ o
        → ((s' : Scan) → consumed s' cs ++ (scan s' cs).1 ≡ cs)
        → consumed s (c ∷ cs) ++ (scan s (c ∷ cs)).1 ≡ c ∷ cs
    at_round none e ih = rw (consumed, scan, e)
    at_round (some s') e ih = rw (consumed, scan, e) (ap (λ xs. c ∷ xs) (ih s'))

-- `finish_str`, given the bytes that were counted and the word that is constructed of them.
abbrev outcome : Scan → Bytes → Bytes → Result Bytes
outcome s input built =
    if s.escaped
    then err incomplete_escape
    else if s.in_double_quotes
    then err unterminated_double_quote
    else if s.in_single_quotes
    then err unterminated_single_quote
    else if not s.needs_allocation
    then ok input
    else ok built

-- Both loops from the middle of a word on. Where nothing has needed an allocation, all bytes so far
-- were bare, and stand for themselves.
abbrev Passes : Mode → Bool → Bytes → Bytes → Bytes → Type 0
Passes m n p r cs =
    let f = flags_of m n in
    (
      outcome (scan f cs).0 (p ++ consumed f cs) (construct (building m r) (consumed f cs)).result,
      (scan f cs).1,
    )
    ≡ prepend_word r (read_word m cs)

Passes-end :
    (m : Mode) (n : Bool) (p r : Bytes) (rest : Bytes)
    → (n ≡ false → (m ≡ bare) × (r ≡ p))
    → (outcome (flags_of m n) (p ++ []) r, rest) ≡ prepend_word r (ended m, rest)
unfolding ended
Passes-end bare true p r rest h = rw (append-nil r)
Passes-end bare false p r rest h = rw (append-nil p, append-nil r, (h refl).1)
Passes-end double n p r rest h = refl
Passes-end single n p r rest h = refl
Passes-end escaped n p r rest h = refl
Passes-end double_escaped n p r rest h = refl

prepend_word-prepend_word :
    (r : Bytes) (c : ℕ) (x : Result Bytes × Bytes)
    → prepend_word (r ++ c ∷ []) x ≡ prepend_word r (prepend_word (c ∷ []) x)
prepend_word-prepend_word r c (ok w, rest) = rw (append_assoc r (c ∷ []) w)
prepend_word-prepend_word r c (err e, rest) = refl

Passes-all :
    (m : Mode) (n : Bool) (p r : Bytes) (cs : Bytes)
    → (n ≡ false → (m ≡ bare) × (r ≡ p))
    → Passes m n p r cs
unfolding scan construct read_word consumed ended
Passes-all m n p r [] h = Passes-end m n p r [] h
Passes-all m n p r (c ∷ cs) h =
    at_move (move m c) refl (round_lem m n c) (λ m' n' p' r' h'. Passes-all m' n' p' r' cs h')
  where
    at_move :
        (mv : Move)
        → move m c ≡ mv
        → Follows m n c mv
        → ((m' : Mode) (n' : Bool) (p' r' : Bytes)
            → (n' ≡ false → (m' ≡ bare) × (r' ≡ p'))
            → Passes m' n' p' r' cs)
        → Passes m n p r (c ∷ cs)
    at_move (push m') e (n', es, eb, en) ih =
        rw
          (
            scan,
            read_word,
            consumed,
            es,
            e,
            construct,
            eb r,
            sym (append_assoc p (c ∷ []) (consumed (flags_of m' n') cs)),
            sym (prepend_word-prepend_word r c (read_word m' cs)),
          )
          (ih m' n' (p ++ c ∷ []) (r ++ c ∷ []) (λ e'.
            let (old, bares) = en e' in
            let (mb, same) = h old in (bares mb, ap (λ xs. xs ++ c ∷ []) same)))
    at_move (skip m') e (es, eb) ih =
        rw
          (
            scan,
            read_word,
            consumed,
            es,
            e,
            construct,
            eb r,
            sym (append_assoc p (c ∷ []) (consumed (flags_of m' true) cs)),
          )
          (ih m' true (p ++ c ∷ []) r (λ e'. absurd (cc e')))
    at_move stop e (em, es) ih =
        rw (scan, read_word, consumed, es, e, construct)
          (subst (λ x. (outcome (flags_of m n) (p ++ []) r, c ∷ cs) ≡ prepend_word r (x, c ∷ cs))
            (ap ended em) (Passes-end m n p r (c ∷ cs) h))

abbrev some_of : Result Bytes → Result (Option Bytes)
some_of (ok w) = ok (some w)
some_of (err e) = err e

finish_str-outcome :
    (start : Bytes) (s : Scan) (chars input : Bytes)
    → take (length start - length chars) start ≡ input
    → finish_str start s chars
      ≡ some_of (outcome s input (construct (building bare []) input).result)
unfolding finish_str
finish_str-outcome start s chars input e =
    at_flags s.escaped s.in_double_quotes s.in_single_quotes s.needs_allocation
  where
    at_flags :
        (x d q n : Bool)
        → let s : Scan = record {
          in_double_quotes = d;
          in_single_quotes = q;
          escaped = x;
          needs_allocation = n;
        } in
          finish_str start s chars
          ≡ some_of (outcome s input (construct (building bare []) input).result)
    at_flags true d q n = refl
    at_flags false true q n = refl
    at_flags false false true n = refl
    at_flags false false false true = rw (e) refl
    at_flags false false false false = rw e refl

take-append_left : (xs ys : Bytes) → take (length (xs ++ ys) - length ys) (xs ++ ys) ≡ xs
take-append_left xs ys =
    subst (λ k. take k (xs ++ ys) ≡ xs) (omega (arith, length-append xs ys)) (take-length xs ys)
  where
    take-length : (xs ys : Bytes) → take (length xs) (xs ++ ys) ≡ xs
    take-length [] ys = refl
    take-length (x ∷ xs) ys = ap (λ zs. x ∷ zs) (take-length xs ys)

found_some_of :
    (y : Result Bytes) (rest : Bytes)
    → ◌≡◌ {A = Result (Option Bytes) × Bytes} (some_of y, rest) (found (y, rest))
found_some_of (ok w) rest = refl
found_some_of (err e) rest = refl

-- The two passes of the code, the first of which finds the end of the word and whether it needs a
-- copy and the second of which builds the copy, give on all bytes what one pass gives: the word with
-- its quotes and escapes resolved, or the error, and the same bytes left.
pub next_str-eq-read_word :
    (c : ℕ) (cs : Bytes) → next_str (c ∷ cs) ≡ found (read_word bare (c ∷ cs))
unfolding next_str
next_str-eq-read_word c cs =
    let start = c ∷ cs in
    let input = consumed scan_start start in
    let (s, chars) = scan scan_start start in
    let whole : input ++ chars ≡ start = scan-consumed scan_start start in
    let taken : take (length start - length chars) start ≡ input =
      subst (λ xs. take (length xs - length chars) xs ≡ input) whole
        (take-append_left input chars) in
    let passes : (outcome s input (construct (building bare []) input).result, chars)
        ≡ read_word bare start =
      Passes-all bare false [] [] start (λ _. (refl, refl)) ∙ prepend_nil (read_word bare start) in
    ap (λ r. (r, chars)) (finish_str-outcome start s chars input taken)
    ∙ found_some_of _ chars
    ∙ ap found passes
