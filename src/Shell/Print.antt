-- ===== src/Shell/Print.antt =====
-- Printing commands as tokens, which the parser reads back
-- (crates/user/ov6_utilities/src/bin/sh/parser.rs).
use ov.Prelude.{
  ℕ, zero, suc, ◌≤◌, ◌<◌, ◌≡◌, refl, ap, ◌∙◌, Bool, true, false, Option, none, some, List, [], ◌∷◌,
  arith,
}
use ov.Shell.Tokenizer.{
  Bytes, Punct, Tokens, str, punct, end, bad, token, and_and, or_or, l_paren, r_paren, semicolon,
  and, lt, gt, gt_gt,
}
use ov.Shell.Command.{
  OutputMode, truncate, append, Redirect, no_redirect, Command, CommandKind, Commands, command,
  subshell, exec, logical_and, logical_or, nothing, first,
}
use ov.Shell.Parser.{
  parsed, next_is, next_if, same_punct, redir, file_name, parse_redirs, next, count,
  is_exec_terminator,
}

abbrev pub show_words : List Bytes → Tokens → Tokens
show_words [] k = k
show_words (a ∷ argv) k = token (str a) (show_words argv k)

abbrev pub show_stdin : Option Bytes → Tokens → Tokens
show_stdin none k = k
show_stdin (some file) k = token (punct lt) (token (str file) k)

abbrev pub show_stdout : Option (Bytes × OutputMode) → Tokens → Tokens
show_stdout none k = k
show_stdout (some (file, truncate)) k = token (punct gt) (token (str file) k)
show_stdout (some (file, append)) k = token (punct gt_gt) (token (str file) k)

abbrev pub show_redirect : Redirect → Tokens → Tokens
show_redirect r k = show_stdin r.stdin (show_stdout r.stdout k)

abbrev pub show_and : Bool → Tokens → Tokens
show_and true k = token (punct and) k
show_and false k = k

abbrev pub show_semicolon : Commands → Tokens → Tokens
show_semicolon nothing k = k
show_semicolon (first c cmds) k = token (punct semicolon) k

-- The tokens of a command, before the tokens `k`.
unfoldable mutual
  pub show : Command → Tokens → Tokens
  show (command kind b) k = show_kind kind k

  pub show_kind : CommandKind → Tokens → Tokens
  show_kind (subshell cmds r) k =
      token (punct l_paren) (show_list cmds (token (punct r_paren) (show_redirect r k)))
  show_kind (exec argv r) k = show_words argv (show_redirect r k)
  show_kind (CommandKind.pipe left right) k = show left (token (punct Punct.pipe) (show right k))
  show_kind (logical_and left right) k = show left (token (punct and_and) (show right k))
  show_kind (logical_or left right) k = show left (token (punct or_or) (show right k))

  -- A semicolon stands between two items, after the sign of a background item.
  pub show_list : Commands → Tokens → Tokens
  show_list nothing k = k
  show_list (first (command kind b) rest) k =
      show_kind kind (show_and b (show_semicolon rest (show_list rest k)))

pub count-show_words : (argv : List Bytes) (k : Tokens) → count k ≤ count (show_words argv k)
count-show_words [] k = omega arith
count-show_words (a ∷ argv) k = omega (arith, count-show_words argv k)

count-show_stdin : (i : Option Bytes) (k : Tokens) → count k ≤ count (show_stdin i k)
count-show_stdin none k = omega arith
count-show_stdin (some file) k = omega arith

count-show_stdout :
    (o : Option (Bytes × OutputMode)) (k : Tokens) → count k ≤ count (show_stdout o k)
count-show_stdout none k = omega arith
count-show_stdout (some (file, truncate)) k = omega arith
count-show_stdout (some (file, append)) k = omega arith

pub count-show_redirect : (r : Redirect) (k : Tokens) → count k ≤ count (show_redirect r k)
count-show_redirect r k =
    omega (arith, count-show_stdout r.stdout k, count-show_stdin r.stdin (show_stdout r.stdout k))

pub count-show_and : (b : Bool) (k : Tokens) → count k ≤ count (show_and b k)
count-show_and true k = omega arith
count-show_and false k = omega arith

pub count-show_semicolon : (cmds : Commands) (k : Tokens) → count k ≤ count (show_semicolon cmds k)
count-show_semicolon nothing k = omega arith
count-show_semicolon (first c cmds) k = omega arith

mutual
  unfolding show show_kind show_list

  pub count-show : (c : Command) (k : Tokens) → count k ≤ count (show c k)
  count-show (command kind b) k = count-show_kind kind k

  pub count-show_kind : (kind : CommandKind) (k : Tokens) → count k ≤ count (show_kind kind k)
  count-show_kind (subshell cmds r) k = omega (
    arith,
    count-show_list cmds (token (punct r_paren) (show_redirect r k)),
    count-show_redirect r k,
  )
  count-show_kind (exec argv r) k =
      omega (arith, count-show_words argv (show_redirect r k), count-show_redirect r k)
  count-show_kind (CommandKind.pipe left right) k =
      omega (arith, count-show left (token (punct Punct.pipe) (show right k)), count-show right k)
  count-show_kind (logical_and left right) k =
      omega (arith, count-show left (token (punct and_and) (show right k)), count-show right k)
  count-show_kind (logical_or left right) k =
      omega (arith, count-show left (token (punct or_or) (show right k)), count-show right k)

  pub count-show_list : (cmds : Commands) (k : Tokens) → count k ≤ count (show_list cmds k)
  count-show_list nothing k = omega arith
  count-show_list (first (command kind b) rest) k = omega (
    arith,
    count-show_kind kind (show_and b (show_semicolon rest (show_list rest k))),
    count-show_and b (show_semicolon rest (show_list rest k)),
    count-show_semicolon rest (show_list rest k),
    count-show_list rest k,
  )

-- A word list ends here.
abbrev pub IsEnd : Tokens → Type 0
IsEnd end = Unit
IsEnd (bad e) = ⊥
IsEnd (token (str s) ts) = ⊥
IsEnd (token (punct p) ts) = is_exec_terminator p ≡ true

pub redir-IsEnd : (k : Tokens) → IsEnd k → redir k ≡ parsed none k
unfolding redir next_is next_if same_punct is_exec_terminator
redir-IsEnd end h = refl
redir-IsEnd (bad e) h = absurd h
redir-IsEnd (token (str s) ts) h = absurd h
redir-IsEnd (token (punct lt) ts) h = absurd (cc h)
redir-IsEnd (token (punct gt) ts) h = absurd (cc h)
redir-IsEnd (token (punct gt_gt) ts) h = absurd (cc h)
redir-IsEnd (token (punct p) ts) h = refl

-- With no sign of redirection the loop ends at once.
pub parse_redirs-none :
    (fuel : ℕ) (r : Redirect) (k : Tokens)
    → redir k ≡ parsed none k
    → 0 < fuel
    → parse_redirs fuel r k ≡ parsed r k
unfolding parse_redirs
parse_redirs-none zero r k e h = absurd (omega arith)
parse_redirs-none (suc fuel) r k e h = rw (parse_redirs, e)

pub parse_redirs-str :
    (fuel : ℕ) (r : Redirect) (s : Bytes) (ts : Tokens)
    → 0 < fuel
    → parse_redirs fuel r (token (str s) ts) ≡ parsed r (token (str s) ts)
unfolding redir next_is next_if
parse_redirs-str fuel r s ts h = parse_redirs-none fuel r (token (str s) ts) refl h

parse_redirs-show_stdout :
    (fuel : ℕ) (r : Redirect) (o : Option (Bytes × OutputMode)) (k : Tokens)
    → r.stdout ≡ none
    → IsEnd k
    → count (show_stdout o k) < fuel
    → parse_redirs fuel r (show_stdout o k) ≡ parsed (record r { stdout = o }) k
unfolding parse_redirs redir next_is next_if same_punct file_name next
parse_redirs-show_stdout zero r o k n e h = absurd (omega arith)
parse_redirs-show_stdout (suc fuel) r none k n e h =
    parse_redirs-none (suc fuel) r k (redir-IsEnd k e) (omega arith)
    ∙ ap (λ o. parsed (record r { stdout = o }) k) n
parse_redirs-show_stdout (suc fuel) r (some (file, truncate)) k n e h =
    parse_redirs-none fuel _ k (redir-IsEnd k e) (omega (arith, h))
parse_redirs-show_stdout (suc fuel) r (some (file, append)) k n e h =
    parse_redirs-none fuel _ k (redir-IsEnd k e) (omega (arith, h))

pub parse_redirs-show_redirect :
    (fuel : ℕ) (r : Redirect) (k : Tokens)
    → IsEnd k
    → count (show_redirect r k) < fuel
    → parse_redirs fuel no_redirect (show_redirect r k) ≡ parsed r k
unfolding parse_redirs redir next_is next_if same_punct file_name next
parse_redirs-show_redirect fuel r k e h = by_stdin fuel r.stdin r.stdout h
  where
    by_stdin :
        (fuel : ℕ) (i : Option Bytes) (o : Option (Bytes × OutputMode))
        → count (show_stdin i (show_stdout o k)) < fuel
        → parse_redirs fuel no_redirect (show_stdin i (show_stdout o k))
          ≡ parsed (record { stdin = i; stdout = o }) k
    by_stdin fuel none o h = parse_redirs-show_stdout fuel no_redirect o k refl e h
    by_stdin zero (some file) o h = absurd (omega arith)
    by_stdin (suc fuel) (some file) o h =
        parse_redirs-show_stdout fuel (record no_redirect { stdin = some file }) o k refl e
          (omega (arith, h))
