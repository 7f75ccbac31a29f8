-- ===== src/Shell/Parser.antt =====
-- The parser of the shell (crates/user/ov6_utilities/src/bin/sh/parser.rs), over the tokens that the
-- tokenizer yields.
use ov.Prelude.{
  ℕ, zero, suc, ◌+◌, ◌*◌, Bool, true, false, not, Option, none, some, List, [], ◌∷◌, ◌++◌,
  if◌then◌else◌,
}
use ov.Shell.Tokenizer.{
  lex_all, Bytes, Punct, Token, TokenizeError, Tokens, str, punct, end, bad, token, and_and, or_or,
  l_paren, r_paren, semicolon, and, lt, gt, gt_gt,
}
use ov.Shell.Utf8.{Str}
use ov.Shell.Command.{
  OutputMode, truncate, append, Redirect, no_redirect, Command, CommandKind, Commands, command,
  subshell, exec, logical_and, logical_or, nothing, first, new,
}

pub data ParseError : Type 0 where
  tokenize : TokenizeError → ParseError
  leftovers : Token → ParseError
  missing_file : ParseError
  missing_punct : Punct → ParseError
  unexpected_punct : Punct → ParseError

-- What is parsed, with the tokens that are left; an error; or no fuel.
pub data Parsed {ℓ} (A : Type ℓ) : Type ℓ where
  parsed : A → Tokens → Parsed A
  failed : ParseError → Parsed A
  starved : Parsed A

abbrev pub Parser {ℓ} : Type ℓ → Type ℓ
Parser A = Tokens → Parsed A

abbrev pub pure {ℓ} : {A : Type ℓ} → A → Parser A
pure a ts = parsed a ts

abbrev pub continue {ℓ κ} : {A : Type ℓ} {B : Type κ} → Parsed A → (A → Parser B) → Parsed B
continue (parsed a ts) f = f a ts
continue (failed e) f = failed e
continue starved f = starved

infixl 1 ◌>>=◌ ◌>>◌
abbrev pub ◌>>=◌ {ℓ κ} : {A : Type ℓ} {B : Type κ} → Parser A → (A → Parser B) → Parser B
p >>= f = λ ts. continue (p ts) f

abbrev pub ◌>>◌ {ℓ κ} : {A : Type ℓ} {B : Type κ} → Parser A → Parser B → Parser B
p >> q = p >>= λ _. q

abbrev pub fail {ℓ} : {A : Type ℓ} → ParseError → Parser A
fail e ts = failed e

unfoldable pub same_punct : Punct → Punct → Bool
same_punct Punct.pipe Punct.pipe = true
same_punct and_and and_and = true
same_punct or_or or_or = true
same_punct l_paren l_paren = true
same_punct r_paren r_paren = true
same_punct semicolon semicolon = true
same_punct and and = true
same_punct lt lt = true
same_punct gt gt = true
same_punct gt_gt gt_gt = true
same_punct p q = false

-- `Token == Punct`
abbrev pub is_punct : Punct → Token → Bool
is_punct p (str s) = false
is_punct p (punct q) = same_punct q p

-- `PeekTokenizer::next_if`: an error of the tokenizer is taken, whatever the test.
unfoldable pub next_if : (Token → Bool) → Parser (Option Token)
next_if f end = parsed none end
next_if f (bad e) = failed (tokenize e)
next_if f (token t ts) = if f t then parsed (some t) ts else parsed none (token t ts)

abbrev pub on_option {ℓ κ} : {A : Type ℓ} {B : Type κ} → Option A → B → (A → B) → B
on_option none n s = n
on_option (some a) n s = s a

abbrev pub on_token {ℓ} : {B : Type ℓ} → Token → (Bytes → B) → (Punct → B) → B
on_token (str w) s p = s w
on_token (punct q) s p = p q

-- Whether `next_if_eq` takes a token.
unfoldable pub next_is : Punct → Parser Bool
unfolding next_if
next_is p ts = continue (next_if (is_punct p) ts) λ o. pure (on_option o false λ t. true)

unfoldable pub next : Parser (Option Token)
next end = parsed none end
next (bad e) = failed (tokenize e)
next (token t ts) = parsed (some t) ts

unfoldable pub is_exec_terminator : Punct → Bool
is_exec_terminator Punct.pipe = true
is_exec_terminator and_and = true
is_exec_terminator or_or = true
is_exec_terminator r_paren = true
is_exec_terminator and = true
is_exec_terminator semicolon = true
is_exec_terminator p = false

pub data Redir : Type 0 where
  stdin : Redir
  stdout : OutputMode → Redir

abbrev pub apply : Redir → Bytes → Redirect → Redirect
apply stdin file r = record r { stdin = some file }
apply (stdout mode) file r = record r { stdout = some (file, mode) }

-- The chain of tests for a sign of redirection; `none` is the `break`.
unfoldable pub redir : Parser (Option Redir)
unfolding next_is
redir = do
  input ← next_is lt
  if input then pure (some stdin) else (do
    output ← next_is gt
    if output then pure (some (stdout truncate)) else (do
      appended ← next_is gt_gt
      if appended then pure (some (stdout append)) else pure none))

unfoldable pub file_name : Parser Bytes
unfolding next
file_name = do
  t ← next
  on_option t (fail missing_file) λ t'. on_token t' pure λ p. fail missing_file

-- The loop of `parse_redirs`: one unit of fuel for each round.
unfoldable pub parse_redirs : ℕ → Redirect → Parser Redirect
unfolding redir file_name
parse_redirs zero r ts = starved
parse_redirs (suc fuel) r ts =
    continue (redir ts)
      λ mode. on_option mode (pure r) λ m. file_name >>= λ file. parse_redirs fuel (apply m file r)

abbrev pub run {ℓ} : {A : Type ℓ} → Tokens → Parser A → Parsed A
run ts p = p ts

-- `try_opt!`: nothing parsed is nothing returned.
abbrev pub try_opt :
    Parser (Option Command) → (Command → Parser (Option Command)) → Parser (Option Command)
try_opt p f = p >>= λ o. on_option o (pure none) f

-- `if self.tokens.next_if_eq(p)?.is_some() { cmd = join(cmd, try_opt!(operand)) }`
abbrev pub operand :
    Punct
    → (Command → Command → CommandKind)
    → Parser (Option Command)
    → Command
    → (Command → Parser (Option Command))
    → Parser (Option Command)
operand p join right cmd next_step = do
  found ← next_is p
  if found then try_opt right (λ r. next_step (new (join cmd r))) else next_step cmd

-- The three tests of `parse_pipe`, the last one first.
abbrev pub or_part : Parser (Option Command) → Command → Parser (Option Command)
or_part right cmd = operand or_or logical_or right cmd λ c. pure (some c)

abbrev pub and_part : Parser (Option Command) → Command → Parser (Option Command)
and_part right cmd = operand and_and logical_and right cmd (or_part right)

abbrev pub pipe_part : Parser (Option Command) → Command → Parser (Option Command)
pipe_part right cmd = operand Punct.pipe CommandKind.pipe right cmd (and_part right)

abbrev pub set_background : Bool → Command → Command
set_background true (command kind b) = command kind true
set_background false cmd = cmd

abbrev pub exec_unless_empty : List Bytes → Redirect → Option Command
exec_unless_empty [] redirect = none
exec_unless_empty (arg ∷ args) redirect = some (new (exec (arg ∷ args) redirect))

abbrev pub is_argument : Token → Bool
is_argument t = on_token t (λ s. true) λ p. not (is_exec_terminator p)

-- An operand, a list or a group takes a unit of fuel for each call on the way to it. `none` stands
-- for `Ok(None)`.
unfoldable mutual
  unfolding next_is next_if is_exec_terminator parse_redirs

  pub parse_line : ℕ → Parser Commands
  parse_line zero ts = starved
  parse_line (suc fuel) ts = run ts do
    o ← parse_pipe fuel
    on_option o (pure nothing) λ cmd. do
      background ← next_is and
      more ← next_is semicolon
      if more
          then (do rest ← parse_line fuel; pure (first (set_background background cmd) rest))
          else pure (first (set_background background cmd) nothing)

  pub parse_pipe : ℕ → Parser (Option Command)
  parse_pipe zero ts = starved
  parse_pipe (suc fuel) ts = run ts (try_opt (parse_exec fuel) (pipe_part (parse_pipe fuel)))

  pub parse_subshell : ℕ → Parser (Option Command)
  parse_subshell zero ts = starved
  parse_subshell (suc fuel) ts = run ts do
    cmds ← parse_line fuel
    closed ← next_is r_paren
    if closed
        then (do
          redirect ← parse_redirs fuel no_redirect
          pure (some (new (subshell cmds redirect))))
        else fail (missing_punct r_paren)

  -- The loop over the arguments.
  pub parse_args : ℕ → List Bytes → Redirect → Parser (List Bytes × Redirect)
  parse_args zero argv redirect ts = starved
  parse_args (suc fuel) argv redirect ts = run ts do
    tok ← next_if is_argument
    on_option tok (pure (argv, redirect)) λ t.
        on_token t
          (λ arg. do
            redirect' ← parse_redirs fuel redirect
            parse_args fuel (argv ++ arg ∷ []) redirect')
          λ p. fail (unexpected_punct p)

  pub parse_exec : ℕ → Parser (Option Command)
  parse_exec zero ts = starved
  parse_exec (suc fuel) ts = run ts do
    open_paren ← next_is l_paren
    if open_paren then parse_subshell fuel else (do
      redirect ← parse_redirs fuel no_redirect
      (argv, redirect') ← parse_args fuel [] redirect
      pure (exec_unless_empty argv redirect'))

unfoldable pub finish_parse : Commands → Tokens → Parsed Commands
unfolding next
finish_parse cmds ts = run ts do t ← next; on_option t (pure cmds) λ t'. fail (leftovers t')

-- `Parser::parse` on at most `fuel` nested calls.
unfoldable pub parse : ℕ → Parser Commands
unfolding parse_line finish_parse
parse fuel ts = run ts (parse_line fuel >>= finish_parse)

abbrev pub count : Tokens → ℕ
count end = 0
count (bad e) = 0
count (token t ts) = suc (count ts)

-- `Parser::parse`, with calls enough for any tokens.
unfoldable pub parse_all : Parser Commands
unfolding parse
parse_all ts = parse (4 * count ts + 5) ts

-- `Parser::new(input).parse()`
unfoldable pub parse_input : Str → Parsed Commands
unfolding lex_all parse_all
parse_input input = on_option (lex_all input.bytes) starved parse_all
