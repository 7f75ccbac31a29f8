-- ===== src/Shell/Tests.antt =====
-- Command lines through the tokenizer and the parser.
use ov.Prelude.{arith, ◌≡◌, ◌⊎◌, refl, some, none, true, false, [], ◌∷◌, inl}
use ov.Shell.Tokenizer.{
  Bytes, lex_all, is_ascii_whitespace, scan_round, contains_byte, construct_round, end, bad, token,
  str, punct, pipe, or_or, gt_gt, unterminated_single_quote, l_paren, r_paren, gt, and, semicolon,
  next_str, as_str,
}
use ov.Shell.Command.{
  Command, Commands, first, nothing, new, command, exec, subshell, logical_or, no_redirect,
  truncate,
}
use ov.Shell.Parser.{
  ParseError, parse, parse_all, parse_input, parsed, failed, parse_line, finish_parse, parse_redirs,
  same_punct, is_exec_terminator,
}
use ov.Shell.Passes.{next_str-eq-read_word}
use ov.Shell.Words.{bare, read_word, found}
use ov.Shell.Spelling.{plain, escape, in_single}
use ov.Shell.CommandLine.{Written, ends, sign, word, tokens, lex_all-Written}
use ov.Shell.Shape.{IsSimple, IsChain, IsChainKind, IsList}
use ov.Shell.Total.{parse_all-IsList}
use ov.Shell.Print.{show, show_kind, show_list}
use ov.Shell.Operand.{parse_all-operator}
use ov.Shell.Utf8.{Str, completes}
use ov.Shell.Line.{IsText, write, parse_input-write, parse_input_total}

lex_test :
    lex_all (b'a' ∷ 92 ∷ 32 ∷ 34 ∷ b'b' ∷ 39 ∷ 34 ∷ b'|' ∷ b'|' ∷ 32 ∷ b'>' ∷ b'>' ∷ b'c' ∷ [])
    ≡ some (
        token
          (str (b'a' ∷ 32 ∷ b'b' ∷ 39 ∷ []))
          (token (punct or_or) (token (punct gt_gt) (token (str (b'c' ∷ [])) end))))
unfolding lex_all is_ascii_whitespace scan_round contains_byte construct_round
lex_test = refl

lex_bad :
    lex_all (b'a' ∷ 32 ∷ 39 ∷ b'b' ∷ [])
    ≡ some (token (str (b'a' ∷ [])) (bad unterminated_single_quote))
unfolding lex_all is_ascii_whitespace scan_round contains_byte construct_round
lex_bad = refl

parse_test :
    parse 20 (
      token (punct l_paren) (
        token (str (1 ∷ [])) (
          token (punct gt) (
            token (str (2 ∷ [])) (
              token (punct and) (
                token
                  (punct semicolon)
                  (token (punct r_paren) (token (punct or_or) (token (str (3 ∷ [])) end)))))))))
    ≡ parsed
        (first
          (new (
            logical_or
              (new (
                subshell
                  (first
                    (command
                      (exec
                        ((1 ∷ []) ∷ [])
                        (record { stdin = none; stdout = some (2 ∷ [], truncate) }))
                      true)
                    nothing)
                  no_redirect))
              (new (exec ((3 ∷ []) ∷ []) no_redirect))))
          nothing)
        end
unfolding parse parse_line finish_parse parse_redirs same_punct is_exec_terminator
parse_test = refl

-- `a"b "` and what follows it.
next_str-eq-read_word_example :
    next_str (b'a' ∷ 34 ∷ b'b' ∷ 32 ∷ 34 ∷ b';' ∷ [])
    ≡ found (read_word bare (b'a' ∷ 34 ∷ b'b' ∷ 32 ∷ 34 ∷ b';' ∷ []))
next_str-eq-read_word_example = next_str-eq-read_word b'a' (34 ∷ b'b' ∷ 32 ∷ 34 ∷ b';' ∷ [])

abbrev line_bytes : Bytes
line_bytes = b'l' ∷ 92 ∷ 32 ∷ 39 ∷ b';' ∷ 39 ∷ 32 ∷ b'|' ∷ 32 ∷ []

-- `l\ ';' | `
line_Written : Written line_bytes (str (b'l' ∷ 32 ∷ b';' ∷ []) ∷ punct pipe ∷ [])
unfolding is_ascii_whitespace contains_byte as_str
line_Written =
    word [] (plain b'l') (escape 32 ∷ in_single (b';' ∷ []) ∷ []) tt
      ((omega arith, omega arith, omega arith, refl), (tt, ((omega arith, tt), tt))) refl
      (sign (32 ∷ []) pipe (refl, tt) (omega arith) (ends (32 ∷ []) (refl, tt)))

lex_all-Written_example :
    lex_all line_bytes ≡ some (tokens (str (b'l' ∷ 32 ∷ b';' ∷ []) ∷ punct pipe ∷ []))
lex_all-Written_example = lex_all-Written line_Written

abbrev sample : Commands
sample =
    first
      (command
        (logical_or
          (new (
            subshell
              (first
                (command
                  (exec ((b'a' ∷ []) ∷ [])
                    (record { stdin = none; stdout = some (b'f' ∷ [], truncate) }))
                  true)
                nothing)
              no_redirect))
          (new (exec ((b'c' ∷ []) ∷ (195 ∷ 169 ∷ 34 ∷ []) ∷ [] ∷ []) no_redirect)))
        false)
      nothing

sample-IsList : IsList sample
unfolding IsList IsChain IsChainKind IsSimple
sample-IsList = ((((λ e. cc e), tt), λ e. cc e), tt)

sample-IsText : IsText (show_list sample end)
unfolding completes show_list show_kind show
sample-IsText = (refl, (refl, (refl, (refl, (refl, tt)))))

parse_input-write_example :
    (line : Str) × (line.bytes ≡ write (show_list sample end))
    × (parse_input line ≡ parsed sample end)
parse_input-write_example = parse_input-write sample sample-IsList sample-IsText

abbrev ascii_line : Str
unfolding completes
ascii_line = record { bytes = b'a' ∷ b'|' ∷ b')' ∷ []; utf8 = refl }

parse_input_total_example :
    ((cmds : Commands) × (parse_input ascii_line ≡ parsed cmds end))
    ⊎ ((e : ParseError) × (parse_input ascii_line ≡ failed e))
parse_input_total_example = parse_input_total ascii_line

abbrev one : Commands
one = first (new (exec ((b'a' ∷ []) ∷ []) no_redirect)) nothing

parse_one : parse_all (token (str (b'a' ∷ [])) end) ≡ parsed one end
unfolding parse_all parse parse_line finish_parse parse_redirs same_punct is_exec_terminator
parse_one = refl

parse_all-IsList_example : IsList one
parse_all-IsList_example = parse_all-IsList (token (str (b'a' ∷ [])) end) end one parse_one

abbrev echo : Command
echo = new (exec ((b'e' ∷ []) ∷ []) no_redirect)

echo-IsSimple : IsSimple echo
unfolding IsSimple
echo-IsSimple = λ e. cc e

parse_all-operator_example : parse_all (show echo (token (punct pipe) end)) ≡ parsed nothing end
parse_all-operator_example = parse_all-operator echo pipe echo-IsSimple (inl refl)
