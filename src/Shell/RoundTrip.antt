-- ===== src/Shell/RoundTrip.antt =====
-- Printing and parsing: all commands of the form that the grammar has are read back
-- (crates/user/ov6_utilities/src/bin/sh/parser.rs).
use ov.Prelude.{
  ℕ, zero, suc, ◌+◌, ◌*◌, ◌≤◌, ◌<◌, ◌≡◌, refl, ◌∙◌, ◌≢◌, Bool, true, false, none, some, List, [],
  ◌∷◌, arith,
}
use ov.Shell.Tokenizer.{
  Bytes, Punct, Tokens, punct, end, token, and_and, or_or, l_paren, r_paren, semicolon, and,
}
use ov.Shell.Command.{
  Redirect, no_redirect, Command, CommandKind, Commands, command, subshell, exec, logical_and,
  logical_or, nothing, first, new,
}
use ov.Shell.Parser.{
  parsed, next_is, next_if, same_punct, parse_line, parse_pipe, parse_subshell, parse_exec, next,
  count, is_exec_terminator, finish_parse, parse, parse_all, pipe_part,
}
use ov.Shell.Shape.{IsSimple, IsChain, IsChainKind, IsList}
use ov.Shell.Print.{
  show, show_kind, show_list, show_words, show_redirect, show_and, show_semicolon, count-show,
  count-show_words, count-show_list, count-show_redirect, IsEnd, redir-IsEnd, parse_redirs-none,
  count-show_and, count-show_semicolon, parse_redirs-show_redirect, parse_redirs-str,
}
use ov.Shell.Reads.{
  parse_args-show, parse_args-none, IsListEnd-starts, Closes, next_is-false, pipe_part-Closes,
  pipe_part-pipe, pipe_part-and, pipe_part-or, IsListEnd, IsListEnd-Closes,
}

pub parse_exec-words :
    (fuel : ℕ) (argv : List Bytes) (r : Redirect) (k : Tokens)
    → argv ≢ []
    → IsEnd k
    → count (show_words argv (show_redirect r k)) + 3 ≤ fuel
    → parse_exec fuel (show_words argv (show_redirect r k)) ≡ parsed (some (new (exec argv r))) k
unfolding parse_exec next_is next_if
parse_exec-words zero argv r k ne e h = absurd (omega arith)
parse_exec-words (suc fuel) [] r k ne e h = absurd (ne refl)
parse_exec-words (suc fuel) (a ∷ more) r k ne e h = rw (
  parse_redirs-str fuel no_redirect a (show_words more (show_redirect r k)) (omega (arith, h)),
  parse_args-show fuel [] a more r k e (omega (arith, h)),
)

-- The parser at a group, whose list it reads.
pub parse_exec-group :
    (fuel : ℕ) (cmds : Commands) (r : Redirect) (k : Tokens)
    → IsEnd k
    → 4 * count (show_kind (subshell cmds r) k) + 3 ≤ fuel
    → (let after = token (punct r_paren) (show_redirect r k) in
        (f : ℕ)
        → 4 * count (show_list cmds after) + 5 ≤ f
        → parse_line f (show_list cmds after) ≡ parsed cmds after)
    → parse_exec fuel (show_kind (subshell cmds r) k) ≡ parsed (some (new (subshell cmds r))) k
unfolding parse_exec parse_subshell next_is next_if same_punct show_kind
parse_exec-group zero cmds r k e h reads = absurd (omega (arith, h))
parse_exec-group (suc zero) cmds r k e h reads = absurd (omega (arith, h))
parse_exec-group (suc (suc fuel)) cmds r k e h reads =
    let after = token (punct r_paren) (show_redirect r k) in
    rw (
      reads fuel (omega (arith, h)),
      parse_redirs-show_redirect fuel r k e (omega (arith, h, count-show_list cmds after)),
    )

-- The parser at a chain, whose first command it reads.
pub parse_pipe-exec :
    (fuel : ℕ) (c : Command) (ts k : Tokens)
    → parse_exec fuel ts ≡ parsed (some c) k
    → parse_pipe (suc fuel) ts ≡ pipe_part (parse_pipe fuel) c k
unfolding parse_pipe
parse_pipe-exec fuel c ts k reads = rw (parse_pipe, reads)

pub parse_exec-none :
    (fuel : ℕ) (k : Tokens) → IsListEnd k → 2 ≤ fuel → parse_exec fuel k ≡ parsed none k
unfolding parse_exec
parse_exec-none zero k e h = absurd (omega arith)
parse_exec-none (suc fuel) k e h = rw (
  parse_exec,
  next_is-false l_paren k (IsListEnd-Closes k e).0 (IsListEnd-starts k e).2,
  parse_redirs-none fuel no_redirect k (redir-IsEnd k (IsListEnd-Closes k e).0) (omega (arith, h)),
  parse_args-none fuel [] no_redirect k (IsListEnd-Closes k e).0 (omega (arith, h)),
)

pub parse_line-nothing :
    (fuel : ℕ) (k : Tokens) → IsListEnd k → 3 ≤ fuel → parse_line (suc fuel) k ≡ parsed nothing k
unfolding parse_line parse_pipe
parse_line-nothing zero k e h = absurd (omega arith)
parse_line-nothing (suc fuel) k e h =
    rw (parse_line, parse_pipe, parse_exec-none fuel k e (omega (arith, h)))

-- The parser at an item of a list, which it reads; and the items after it.
pub parse_line-item :
    (fuel : ℕ) (kind : CommandKind) (b : Bool) (rest : Commands) (ts k : Tokens)
    → IsListEnd k
    → parse_pipe fuel ts
      ≡ parsed (some (new kind)) (show_and b (show_semicolon rest (show_list rest k)))
    → parse_line fuel (show_list rest k) ≡ parsed rest k
    → parse_line (suc fuel) ts ≡ parsed (first (command kind b) rest) k
unfolding parse_line next_is next_if same_punct show_list
parse_line-item fuel kind true nothing ts k e item items =
    rw (
      parse_line,
      item,
      next_is-false semicolon k (IsListEnd-Closes k e).0 (IsListEnd-starts k e).1,
    )
parse_line-item fuel kind true (first c rest) ts k e item items = rw (parse_line, item, items)
parse_line-item fuel kind false nothing ts k e item items = rw (
  parse_line,
  item,
  next_is-false and k (IsListEnd-Closes k e).0 (IsListEnd-starts k e).0,
  next_is-false semicolon k (IsListEnd-Closes k e).0 (IsListEnd-starts k e).1,
)
parse_line-item fuel kind false (first c rest) ts k e item items = rw (parse_line, item, items)

pub show_and-Closes :
    (b : Bool) (rest : Commands) (k : Tokens)
    → IsListEnd k
    → Closes (show_and b (show_semicolon rest (show_list rest k)))
unfolding show_list same_punct is_exec_terminator
show_and-Closes true rest k e = (refl, refl, refl, refl)
show_and-Closes false (first c rest) k e = (refl, refl, refl, refl)
show_and-Closes false nothing k e = IsListEnd-Closes k e

-- A command has a token.
pub count-lt-show_kind :
    (kind : CommandKind) (k : Tokens) → IsChainKind kind → count k < count (show_kind kind k)
unfolding IsChainKind show_kind
count-lt-show_kind (subshell cmds r) k s = omega (
  arith,
  count-show_list cmds (token (punct r_paren) (show_redirect r k)),
  count-show_redirect r k,
)
count-lt-show_kind (exec [] r) k s = absurd (s refl)
count-lt-show_kind (exec (a ∷ argv) r) k s =
    omega (arith, count-show_words argv (show_redirect r k), count-show_redirect r k)
count-lt-show_kind (CommandKind.pipe a b) k s =
    omega (arith, count-show a (token (punct Punct.pipe) (show b k)), count-show b k)
count-lt-show_kind (logical_and a b) k s =
    omega (arith, count-show a (token (punct and_and) (show b k)), count-show b k)
count-lt-show_kind (logical_or a b) k s =
    omega (arith, count-show a (token (punct or_or) (show b k)), count-show b k)

mutual
  unfolding is_exec_terminator IsSimple IsChain IsChainKind IsList show show_kind show_list

  pub parse_exec-show :
      (c : Command) (fuel : ℕ) (k : Tokens)
      → IsSimple c
      → IsEnd k
      → 4 * count (show c k) + 3 ≤ fuel
      → parse_exec fuel (show c k) ≡ parsed (some c) k
  parse_exec-show (command kind true) fuel k s e h = absurd s
  parse_exec-show (command (exec argv r) false) fuel k s e h =
      parse_exec-words fuel argv r k s e (omega (arith, h))
  parse_exec-show (command (subshell cmds r) false) fuel k s e h =
      parse_exec-group fuel cmds r k e (omega (arith, h))
        λ f h'. parse_line-show cmds f (token (punct r_paren) (show_redirect r k)) s tt h'
  parse_exec-show (command (CommandKind.pipe a b) false) fuel k s e h = absurd s
  parse_exec-show (command (logical_and a b) false) fuel k s e h = absurd s
  parse_exec-show (command (logical_or a b) false) fuel k s e h = absurd s

  parse_pipe-show :
      (c : Command) (fuel : ℕ) (k : Tokens)
      → IsChain c
      → Closes k
      → 4 * count (show c k) + 4 ≤ fuel
      → parse_pipe fuel (show c k) ≡ parsed (some c) k
  parse_pipe-show (command kind true) fuel k s e h = absurd s
  parse_pipe-show (command kind false) fuel k s e h = parse_pipe-show_kind kind fuel k s e h

  parse_pipe-show_kind :
      (kind : CommandKind) (fuel : ℕ) (k : Tokens)
      → IsChainKind kind
      → Closes k
      → 4 * count (show_kind kind k) + 4 ≤ fuel
      → parse_pipe fuel (show_kind kind k) ≡ parsed (some (new kind)) k
  parse_pipe-show_kind kind zero k s e h = absurd (omega (arith, h))
  parse_pipe-show_kind (exec argv r) (suc fuel) k s e h =
      parse_pipe-exec fuel _ _ k (parse_exec-words fuel argv r k s e.0 (omega (arith, h)))
      ∙ pipe_part-Closes (parse_pipe fuel) _ k e
  parse_pipe-show_kind (subshell cmds r) (suc fuel) k s e h =
      parse_pipe-exec fuel _ _ k (
        parse_exec-group fuel cmds r k e.0 (omega (arith, h))
          λ f h'. parse_line-show cmds f (token (punct r_paren) (show_redirect r k)) s tt h')
      ∙ pipe_part-Closes (parse_pipe fuel) _ k e
  parse_pipe-show_kind (CommandKind.pipe a b) (suc fuel) k s e h =
      parse_pipe-exec fuel a _ _
        (parse_exec-show a fuel (token (punct Punct.pipe) (show b k)) s.0 refl (omega (arith, h)))
      ∙ pipe_part-pipe (parse_pipe fuel) a b (show b k) k e (
          parse_pipe-show b fuel k s.1 e
            (omega (arith, h, count-show a (token (punct Punct.pipe) (show b k)))))
  parse_pipe-show_kind (logical_and a b) (suc fuel) k s e h =
      parse_pipe-exec fuel a _ _
        (parse_exec-show a fuel (token (punct and_and) (show b k)) s.0 refl (omega (arith, h)))
      ∙ pipe_part-and (parse_pipe fuel) a b (show b k) k e (
          parse_pipe-show b fuel k s.1 e
            (omega (arith, h, count-show a (token (punct and_and) (show b k)))))
  parse_pipe-show_kind (logical_or a b) (suc fuel) k s e h =
      parse_pipe-exec fuel a _ _
        (parse_exec-show a fuel (token (punct or_or) (show b k)) s.0 refl (omega (arith, h)))
      ∙ pipe_part-or (parse_pipe fuel) a b (show b k) k e (
          parse_pipe-show b fuel k s.1 e
            (omega (arith, h, count-show a (token (punct or_or) (show b k)))))

  parse_line-show :
      (cmds : Commands) (fuel : ℕ) (k : Tokens)
      → IsList cmds
      → IsListEnd k
      → 4 * count (show_list cmds k) + 5 ≤ fuel
      → parse_line fuel (show_list cmds k) ≡ parsed cmds k
  parse_line-show cmds zero k s e h = absurd (omega (arith, h))
  parse_line-show nothing (suc fuel) k s e h = parse_line-nothing fuel k e (omega (arith, h))
  parse_line-show (first (command kind b) rest) (suc fuel) k s e h =
      let after = show_and b (show_semicolon rest (show_list rest k)) in
      parse_line-item fuel kind b rest (show_kind kind after) k e
        (parse_pipe-show_kind kind fuel after s.0 (show_and-Closes b rest k e) (omega (arith, h)))
        (parse_line-show rest fuel k s.1 e (
          omega (
            arith,
            h,
            count-lt-show_kind kind after s.0,
            count-show_and b (show_semicolon rest (show_list rest k)),
            count-show_semicolon rest (show_list rest k),
          )))

-- Every list of commands that has the form of the grammar, printed as tokens, is parsed back as it
-- was: the arguments, the redirections, the operators, the groups and the background signs.
pub parse_all-show_list :
    (cmds : Commands) → IsList cmds → parse_all (show_list cmds end) ≡ parsed cmds end
unfolding parse_all parse finish_parse next
parse_all-show_list cmds s =
    rw (parse_all, parse_line-show cmds (4 * count (show_list cmds end) + 5) end s tt (omega arith))
