-- ===== src/Shell/Operand.antt =====
-- A line that ends in an operator (`Parser::parse_pipe` of
-- crates/user/ov6_utilities/src/bin/sh/parser.rs).
use ov.Prelude.{ℕ, zero, suc, ◌+◌, ◌*◌, ◌≤◌, ◌≡◌, refl, ◌∙◌, ◌⊎◌, inl, inr, none, arith}
use ov.Shell.Tokenizer.{Punct, punct, end, token, and_and, or_or}
use ov.Shell.Command.{Command, nothing}
use ov.Shell.Parser.{
  parsed, next_is, next_if, same_punct, parse_line, parse_pipe, parse_exec, next, count,
  is_exec_terminator, finish_parse, parse, parse_all, pipe_part,
}
use ov.Shell.Shape.{IsSimple}
use ov.Shell.Print.{show, count-show, IsEnd}
use ov.Shell.RoundTrip.{parse_exec-show, parse_pipe-exec, parse_exec-none}

-- The operators that take a command on their right.
abbrev pub IsOperator : Punct → Type 0
IsOperator p = (p ≡ Punct.pipe) ⊎ (p ≡ and_and) ⊎ (p ≡ or_or)

parse_exec-end : (fuel : ℕ) → 2 ≤ fuel → parse_exec fuel end ≡ parsed none end
parse_exec-end fuel h = parse_exec-none fuel end tt h

parse_pipe-operator :
    (fuel : ℕ) (c : Command) (p : Punct)
    → IsOperator p
    → IsSimple c
    → 4 * count (show c (token (punct p) end)) + 4 ≤ fuel
    → parse_pipe fuel (show c (token (punct p) end)) ≡ parsed none end
unfolding parse_pipe next_is next_if same_punct is_exec_terminator
parse_pipe-operator zero c p o s h = absurd (omega (arith, h))
parse_pipe-operator (suc zero) c p o s h = absurd (omega (arith, h))
parse_pipe-operator (suc (suc fuel)) c p o s h =
    parse_pipe-exec (suc fuel) c _ _
      (parse_exec-show c (suc fuel) (token (punct p) end) s (ends p o) (omega (arith, h)))
    ∙ dropped p o
  where
    none_right : parse_pipe (suc fuel) end ≡ parsed none end
    none_right =
        rw (parse_pipe, parse_exec-end fuel (omega (arith, h, count-show c (token (punct p) end))))

    ends : (p : Punct) → IsOperator p → IsEnd (token (punct p) end)
    ends p (inl e) = rw e refl
    ends p (inr (inl e)) = rw e refl
    ends p (inr (inr e)) = rw e refl

    dropped :
        (p : Punct)
        → IsOperator p
        → pipe_part (parse_pipe (suc fuel)) c (token (punct p) end) ≡ parsed none end
    dropped p (inl e) = rw (e, none_right)
    dropped p (inr (inl e)) = rw (e, none_right)
    dropped p (inr (inr e)) = rw (e, none_right)

parse_line-operator :
    (fuel : ℕ) (c : Command) (p : Punct)
    → IsOperator p
    → IsSimple c
    → 4 * count (show c (token (punct p) end)) + 5 ≤ fuel
    → parse_line fuel (show c (token (punct p) end)) ≡ parsed nothing end
unfolding parse_line
parse_line-operator zero c p o s h = absurd (omega (arith, h))
parse_line-operator (suc fuel) c p o s h =
    rw (parse_line, parse_pipe-operator fuel c p o s (omega (arith, h)))

-- A word list or a group, and an operator with nothing on its right, is no error: the line is read
-- as having no commands at all, so the left side is dropped as well.
pub parse_all-operator :
    (c : Command) (p : Punct)
    → IsSimple c
    → IsOperator p
    → parse_all (show c (token (punct p) end)) ≡ parsed nothing end
unfolding parse_all parse finish_parse next
parse_all-operator c p s o =
    let ts = show c (token (punct p) end) in
    rw (parse_all, parse_line-operator (4 * count ts + 5) c p o s (omega arith))
