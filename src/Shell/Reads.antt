-- ===== src/Shell/Reads.antt =====
-- The parser reads back what is printed of a command
-- (crates/user/ov6_utilities/src/bin/sh/parser.rs).
use ov.Prelude.{
  ℕ, zero, suc, ◌+◌, ◌<◌, ◌≡◌, refl, sym, false, Option, none, some, List, [], ◌∷◌, ◌++◌, arith,
}
use ov.Shell.Tokenizer.{
  Bytes, Punct, Tokens, str, punct, end, bad, token, and_and, or_or, l_paren, r_paren, semicolon,
  and,
}
use ov.Shell.Command.{Redirect, no_redirect, Command, CommandKind, logical_and, logical_or, new}
use ov.Shell.Parser.{
  Parser, parsed, next_is, next_if, same_punct, parse_args, count, is_exec_terminator, or_part,
  and_part, pipe_part, is_argument,
}
use ov.Shell.Rules.{starts}
use ov.Shell.Print.{show_words, show_redirect, IsEnd, parse_redirs-show_redirect, parse_redirs-str}
use mathlib.Core.List.{append_assoc}

next_if-IsEnd : (k : Tokens) → IsEnd k → next_if is_argument k ≡ parsed none k
unfolding next_if
next_if-IsEnd end e = refl
next_if-IsEnd (bad b) e = absurd e
next_if-IsEnd (token (str s) ts) e = absurd e
next_if-IsEnd (token (punct p) ts) e = rw (next_if, e)

pub parse_args-none :
    (fuel : ℕ) (argv : List Bytes) (r : Redirect) (k : Tokens)
    → IsEnd k
    → 0 < fuel
    → parse_args fuel argv r k ≡ parsed (argv, r) k
unfolding parse_args
parse_args-none zero argv r k e h = absurd (omega arith)
parse_args-none (suc fuel) argv r k e h = rw (parse_args, next_if-IsEnd k e)

pub parse_args-show :
    (fuel : ℕ) (argv : List Bytes) (a : Bytes) (more : List Bytes) (r : Redirect) (k : Tokens)
    → IsEnd k
    → count (show_words (a ∷ more) (show_redirect r k)) + 1 < fuel
    → parse_args fuel argv no_redirect (show_words (a ∷ more) (show_redirect r k))
      ≡ parsed (argv ++ a ∷ more, r) k
unfolding parse_args next_if
parse_args-show zero argv a more r k e h = absurd (omega arith)
parse_args-show (suc fuel) argv a [] r k e h =
    rw (parse_redirs-show_redirect fuel r k e (omega (arith, h)))
      (parse_args-none fuel (argv ++ a ∷ []) r k e (omega (arith, h)))
parse_args-show (suc fuel) argv a (b ∷ more) r k e h =
    rw
      (
        parse_redirs-str fuel no_redirect b (show_words more (show_redirect r k))
            (omega (arith, h)),
        sym (append_assoc argv (a ∷ []) (b ∷ more)),
      )
      (parse_args-show fuel (argv ++ a ∷ []) b more r k e (omega (arith, h)))

-- A chain ends here.
abbrev pub Closes : Tokens → Type 0
Closes k =
    IsEnd k × (starts Punct.pipe k ≡ false) × (starts and_and k ≡ false) × (starts or_or k ≡ false)

pub next_is-false :
    (p : Punct) (k : Tokens) → IsEnd k → starts p k ≡ false → next_is p k ≡ parsed false k
unfolding next_is next_if
next_is-false p end e h = refl
next_is-false p (bad b) e h = absurd e
next_is-false p (token t ts) e h = rw (next_is, next_if, h)

module _ (right : Parser (Option Command)) (c : Command) (k : Tokens) (h : Closes k) where
  or_part-Closes : or_part right c k ≡ parsed (some c) k
  or_part-Closes = rw (next_is-false or_or k h.0 h.3)

  and_part-Closes : and_part right c k ≡ parsed (some c) k
  and_part-Closes = rw (next_is-false and_and k h.0 h.2, next_is-false or_or k h.0 h.3)

  pub pipe_part-Closes : pipe_part right c k ≡ parsed (some c) k
  pipe_part-Closes = rw (
    next_is-false Punct.pipe k h.0 h.1,
    next_is-false and_and k h.0 h.2,
    next_is-false or_or k h.0 h.3,
  )

-- The parser at an operator, whose right side it reads as `r`.
module _ (right : Parser (Option Command)) (c r : Command) (ts k : Tokens) (h : Closes k)
    (reads : right ts ≡ parsed (some r) k) where
  pub pipe_part-pipe :
      pipe_part right c (token (punct Punct.pipe) ts) ≡ parsed (some (new (CommandKind.pipe c r))) k
  unfolding next_is next_if same_punct
  pipe_part-pipe = rw reads (and_part-Closes right (new (CommandKind.pipe c r)) k h)

  pub pipe_part-and :
      pipe_part right c (token (punct and_and) ts) ≡ parsed (some (new (logical_and c r))) k
  unfolding next_is next_if same_punct
  pipe_part-and = rw reads (or_part-Closes right (new (logical_and c r)) k h)

  pub pipe_part-or :
      pipe_part right c (token (punct or_or) ts) ≡ parsed (some (new (logical_or c r))) k
  unfolding next_is next_if same_punct
  pipe_part-or = rw reads

-- A list ends here.
abbrev pub IsListEnd : Tokens → Type 0
IsListEnd end = Unit
IsListEnd (token (punct r_paren) ts) = Unit
IsListEnd k = ⊥

pub IsListEnd-Closes : (k : Tokens) → IsListEnd k → Closes k
unfolding is_exec_terminator same_punct
IsListEnd-Closes end h = (tt, refl, refl, refl)
IsListEnd-Closes (token (punct r_paren) ts) h = (refl, refl, refl, refl)
IsListEnd-Closes k h = absurd h

pub IsListEnd-starts :
    (k : Tokens)
    → IsListEnd k
    → (starts and k ≡ false) × (starts semicolon k ≡ false) × (starts l_paren k ≡ false)
unfolding same_punct
IsListEnd-starts end h = (refl, refl, refl)
IsListEnd-starts (token (punct r_paren) ts) h = (refl, refl, refl)
IsListEnd-starts k h = absurd h
