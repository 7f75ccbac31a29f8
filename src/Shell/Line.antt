-- ===== src/Shell/Line.antt =====
-- A command line for any commands: printed as bytes, read by the tokenizer and the parser
-- (crates/user/ov6_utilities/src/bin/sh/{tokenizer,parser}.rs).
use ov.Prelude.{
  ◌≡◌, refl, subst, ap, ◌∙◌, ◌⊎◌, Bool, true, false, Option, none, some, List, [], ◌∷◌, ◌++◌, arith,
}
use ov.Shell.Tokenizer.{
  Bytes, Punct, Token, Tokens, str, punct, end, bad, token, and_and, or_or, l_paren, r_paren,
  semicolon, and, lt, gt, gt_gt,
}
use ov.Shell.Command.{
  OutputMode, truncate, append, Command, CommandKind, Commands, command, subshell, exec,
  logical_and, logical_or, nothing, first,
}
use ov.Shell.Parser.{parsed, failed}
use ov.Shell.Tokenizer.{as_str, is_ascii_whitespace}
use ov.Shell.Utf8.{Str, boundary, is_utf8, completes}
use ov.Shell.Spelling.{in_double, spell, quoted_value, Stops}
use ov.Shell.Quoting.{quoted, quoted_value-quoted, quoted-IsLiteral, quoted-completes}
use ov.Shell.CommandLine.{Written, ends, sign, word, tokens, Apart, lex_all-Written}
use ov.Shell.Progress.{lex_all_total}
use ov.Shell.Shape.{IsList}
use ov.Shell.Print.{
  show, show_kind, show_list, show_words, show_and, show_semicolon, show_stdin, show_stdout,
}
use ov.Shell.Total.{parse_all_total}
use ov.Shell.RoundTrip.{parse_all-show_list}
use ov.Shell.Parser.{parse_input, ParseError}
use mathlib.Core.List.{append-nil}

-- A blank before each token, and words in double quotes.

abbrev pub write : Tokens → Bytes
write end = []
write (bad e) = []
write (token (str w) ts) = 32 ∷ spell (in_double (quoted w) ∷ []) (write ts)
write (token (punct p) ts) = 32 ∷ (as_str p ++ write ts)

abbrev list_of : Tokens → List Token
list_of end = []
list_of (bad e) = []
list_of (token t ts) = t ∷ list_of ts

-- No error of the tokenizer is among the tokens.
abbrev IsGood : Tokens → Type 0
IsGood end = Unit
IsGood (bad e) = ⊥
IsGood (token t ts) = IsGood ts

tokens-list_of : (ts : Tokens) → IsGood ts → tokens (list_of ts) ≡ ts
tokens-list_of end g = refl
tokens-list_of (bad e) g = absurd g
tokens-list_of (token t ts) g = ap (token t) (tokens-list_of ts g)

write-Stops : (ts : Tokens) → Stops (write ts)
unfolding is_ascii_whitespace
write-Stops end = tt
write-Stops (bad e) = tt
write-Stops (token (str w) ts) = refl
write-Stops (token (punct p) ts) = refl

Apart-blank : (p : Punct) (k : Bytes) → Apart p (32 ∷ k)
Apart-blank Punct.pipe k = λ e. omega (arith, e)
Apart-blank and k = λ e. omega (arith, e)
Apart-blank gt k = λ e. omega (arith, e)
Apart-blank p k = tt

write-Apart : (p : Punct) (ts : Tokens) → Apart p (write ts)
write-Apart p end = tt
write-Apart p (bad e) = tt
write-Apart p (token (str w) ts) = Apart-blank p _
write-Apart p (token (punct q) ts) = Apart-blank p _

write-Written : (ts : Tokens) → IsGood ts → Written (write ts) (list_of ts)
unfolding is_ascii_whitespace
write-Written end g = ends [] tt
write-Written (bad e) g = absurd g
write-Written (token (punct p) ts) g =
    sign (32 ∷ []) p (refl, tt) (write-Apart p ts) (write-Written ts g)
write-Written (token (str w) ts) g =
    subst (λ v. Written (32 ∷ spell (in_double (quoted w) ∷ []) (write ts)) (str v ∷ list_of ts))
      (append-nil (quoted_value (quoted w)) ∙ quoted_value-quoted w)
      (word (32 ∷ []) (in_double (quoted w)) [] (refl, tt) (quoted-IsLiteral w, tt) (write-Stops ts)
        (write-Written ts g))

show_words-IsGood : (argv : List Bytes) (k : Tokens) → IsGood k → IsGood (show_words argv k)
show_words-IsGood [] k g = g
show_words-IsGood (a ∷ argv) k g = show_words-IsGood argv k g

show_redirect-IsGood :
    (i : Option Bytes) (o : Option (Bytes × OutputMode)) (k : Tokens)
    → IsGood k
    → IsGood (show_stdin i (show_stdout o k))
show_redirect-IsGood none none k g = g
show_redirect-IsGood none (some (file, truncate)) k g = g
show_redirect-IsGood none (some (file, append)) k g = g
show_redirect-IsGood (some f) none k g = g
show_redirect-IsGood (some f) (some (file, truncate)) k g = g
show_redirect-IsGood (some f) (some (file, append)) k g = g

signs-IsGood :
    (b : Bool) (rest : Commands) (k : Tokens)
    → IsGood k
    → IsGood (show_and b (show_semicolon rest k))
signs-IsGood true nothing k g = g
signs-IsGood true (first c rest) k g = g
signs-IsGood false nothing k g = g
signs-IsGood false (first c rest) k g = g

mutual
  unfolding show show_kind show_list

  show-IsGood : (c : Command) (k : Tokens) → IsGood k → IsGood (show c k)
  show-IsGood (command kind b) k g = show_kind-IsGood kind k g

  show_kind-IsGood : (kind : CommandKind) (k : Tokens) → IsGood k → IsGood (show_kind kind k)
  show_kind-IsGood (subshell cmds r) k g =
      show_list-IsGood cmds _ (show_redirect-IsGood r.stdin r.stdout k g)
  show_kind-IsGood (exec argv r) k g =
      show_words-IsGood argv _ (show_redirect-IsGood r.stdin r.stdout k g)
  show_kind-IsGood (CommandKind.pipe a b) k g = show-IsGood a _ (show-IsGood b k g)
  show_kind-IsGood (logical_and a b) k g = show-IsGood a _ (show-IsGood b k g)
  show_kind-IsGood (logical_or a b) k g = show-IsGood a _ (show-IsGood b k g)

  show_list-IsGood : (cmds : Commands) (k : Tokens) → IsGood k → IsGood (show_list cmds k)
  show_list-IsGood nothing k g = g
  show_list-IsGood (first (command kind b) rest) k g =
      show_kind-IsGood kind _ (signs-IsGood b rest _ (show_list-IsGood rest k g))

-- The words among the tokens are UTF-8.
abbrev pub IsText : Tokens → Type 0
IsText end = Unit
IsText (bad e) = Unit
IsText (token (str w) ts) = (is_utf8 w ≡ true) × IsText ts
IsText (token (punct p) ts) = IsText ts

as_str-utf8 : (p : Punct) (k : Bytes) → is_utf8 k ≡ true → is_utf8 (as_str p ++ k) ≡ true
unfolding completes as_str
as_str-utf8 Punct.pipe k h = h
as_str-utf8 and_and k h = h
as_str-utf8 or_or k h = h
as_str-utf8 l_paren k h = h
as_str-utf8 r_paren k h = h
as_str-utf8 semicolon k h = h
as_str-utf8 and k h = h
as_str-utf8 lt k h = h
as_str-utf8 gt k h = h
as_str-utf8 gt_gt k h = h

write-utf8 : (ts : Tokens) → IsText ts → is_utf8 (write ts) ≡ true
unfolding completes
write-utf8 end h = refl
write-utf8 (bad e) h = refl
write-utf8 (token (str w) ts) (h, hs) = quoted-completes boundary w (write ts) h (write-utf8 ts hs)
write-utf8 (token (punct p) ts) hs = as_str-utf8 p (write ts) (write-utf8 ts hs)

-- Every list of commands that has the form of the grammar, and whose words are UTF-8, can be written
-- down: printed as bytes, with its words in double quotes and each quote and backslash in them
-- escaped, it is a `str`, and the tokenizer and the parser together read it back as it was.
pub parse_input-write :
    (cmds : Commands)
    → IsList cmds
    → IsText (show_list cmds end)
    → (line : Str) × (line.bytes ≡ write (show_list cmds end))
      × (parse_input line ≡ parsed cmds end)
unfolding parse_input
parse_input-write cmds s text =
    let ts = show_list cmds end in
    let good : IsGood ts = show_list-IsGood cmds end tt in
    (
      record { bytes = write ts; utf8 = write-utf8 ts text },
      refl,
      rw (parse_input, lex_all-Written (write-Written ts good), tokens-list_of ts good)
          (parse_all-show_list cmds s),
    )

-- Every `str` is answered: the tokenizer and the parser together give commands, with no token left
-- over, or an error.
pub parse_input_total :
    (input : Str)
    → ((cmds : Commands) × (parse_input input ≡ parsed cmds end))
      ⊎ ((e : ParseError) × (parse_input input ≡ failed e))
unfolding parse_input
parse_input_total input =
    let (ts, lexed) = lex_all_total input.bytes in rw (parse_input, lexed) (parse_all_total ts)
