-- ===== src/Shell/Total.antt =====
-- The parser ends on all tokens, and builds only commands of the form that the grammar has
-- (crates/user/ov6_utilities/src/bin/sh/parser.rs).
use ov.Prelude.{
  ℕ, zero, suc, ◌+◌, ◌*◌, ◌≤◌, ◌≡◌, refl, subst, ◌⊎◌, inl, inr, Option, none, some, List, [], ◌∷◌,
  arith, length, Bool-cases, Option-cases,
}
use ov.Shell.Tokenizer.{Bytes, Tokens, end, bad, token, l_paren, r_paren, semicolon, and}
use ov.Shell.Command.{Redirect, no_redirect, Command, Commands, subshell, nothing, new}
use ov.Shell.Parser.{
  Parsed, ParseError, parsed, failed, starved, next_is, parse_redirs, parse_line, parse_pipe,
  parse_subshell, parse_args, parse_exec, next, count, exec_unless_empty, finish_parse, parse,
  parse_all,
}
use ov.Shell.Rules.{Post, Post-continue, Post-imp, next_is-Post, parse_redirs-Post}
use ov.Shell.Shape.{
  IsSimple, IsList, Execd, Piped, Listed, set_background-IsList, pipe-Post, parse_args-Post,
}

exec_unless_empty-Execd :
    (argv : List Bytes) (r : Redirect) (ts rest : Tokens)
    → count rest + length argv ≤ count ts
    → Execd ts (exec_unless_empty argv r) rest
unfolding IsSimple
exec_unless_empty-Execd [] r ts rest h = omega (arith, h)
exec_unless_empty-Execd (a ∷ argv) r ts rest h = (omega (arith, h), λ e. absurd (cc e))

grouped :
    (cmds : Commands) (r : Redirect) (c : Command)
    → some (new (subshell cmds r)) ≡ some c
    → new (subshell cmds r) ≡ c
grouped cmds r c e = cc e

opened :
    (ts rest last : Tokens) (o : Option Command)
    → count rest + 1 ≤ count ts
    → count last ≤ count rest
    → ((c : Command) → o ≡ some c → IsSimple c)
    → Execd ts o last
opened ts rest last none n l s = omega (arith, n, l)
opened ts rest last (some c) n l s = (omega (arith, n, l), s c refl)

mutual
  unfolding parse_line parse_pipe parse_subshell parse_exec IsSimple IsList

  parse_line-Post :
      (fuel : ℕ) (ts : Tokens) → 4 * count ts + 5 ≤ fuel → Post (Listed ts) (parse_line fuel ts)
  parse_line-Post zero ts h = absurd (omega arith)
  parse_line-Post (suc fuel) ts h =
      Post-continue (Listed ts) (parse_pipe fuel ts) _ (parse_pipe-Post fuel ts (omega (arith, h)))
        λ o rest p. elim (Option-cases o) [
          | inl e ↦ let p' : Piped ts none rest = rw e at p in rw e (omega (arith, p'), tt)
          | inr (c, e) ↦
              let p' : Piped ts (some c) rest = rw e at p in
              rw e (
                Post-continue (Listed ts) (next_is and rest) _ (next_is-Post and rest) λ b rest1 n1.
                  Post-continue (Listed ts) (next_is semicolon rest1) _
                    (next_is-Post semicolon rest1)
                    λ more rest2 n2. elim (Bool-cases more) [
                      | inl em ↦ rw em (
                          Post-continue (Listed ts) (parse_line fuel rest2) _
                            (parse_line-Post fuel rest2 (omega (arith, h, p'.0, n1.0, n2.0)))
                            λ cmds last l. (
                              omega (arith, p'.0, n1.0, n2.0, l.0),
                              set_background-IsList b c cmds p'.1 l.1,
                            ))
                      | inr em ↦ rw em (
                        omega (arith, p'.0, n1.0, n2.0),
                        set_background-IsList b c nothing p'.1 tt,
                      )
                    ])
        ]

  parse_pipe-Post :
      (fuel : ℕ) (ts : Tokens) → 4 * count ts + 4 ≤ fuel → Post (Piped ts) (parse_pipe fuel ts)
  parse_pipe-Post zero ts h = absurd (omega arith)
  parse_pipe-Post (suc fuel) ts h =
      Post-continue (Piped ts) (parse_exec fuel ts) _ (parse_exec-Post fuel ts (omega (arith, h)))
        λ o rest p. elim (Option-cases o) [
          | inl e ↦ let p' : Execd ts none rest = rw e at p in rw e (omega (arith, p'))
          | inr (c, e) ↦
              let p' : Execd ts (some c) rest = rw e at p in
              rw e (
                pipe-Post (parse_pipe fuel) c ts rest p'.0
                  (λ ts' less. parse_pipe-Post fuel ts' (omega (arith, h, p'.0, less))) p'.1)
        ]

  parse_subshell-Post :
      (fuel : ℕ) (ts : Tokens)
      → 4 * count ts + 6 ≤ fuel
      → Post
          (λ o rest. (count rest ≤ count ts) × ((c : Command) → o ≡ some c → IsSimple c))
          (parse_subshell fuel ts)
  parse_subshell-Post zero ts h = absurd (omega arith)
  parse_subshell-Post (suc fuel) ts h =
      let R : Option Command → Tokens → Type 0 =
        λ o rest. (count rest ≤ count ts) × ((c : Command) → o ≡ some c → IsSimple c) in
      Post-continue R (parse_line fuel ts) _ (parse_line-Post fuel ts (omega (arith, h)))
        λ cmds rest l.
          Post-continue R (next_is r_paren rest) _ (next_is-Post r_paren rest) λ b rest1 n.
            elim (Bool-cases b) [
              | inl e ↦ rw e (
                  Post-continue R (parse_redirs fuel no_redirect rest1) _
                    (parse_redirs-Post fuel no_redirect rest1 (omega (arith, h, l.0, n.0)))
                    λ r last l2. (
                      omega (arith, l.0, n.0, l2),
                      λ c ec. subst IsSimple (grouped cmds r c ec) l.1,
                    ))
              | inr e ↦ rw e tt
            ]

  parse_exec-Post :
      (fuel : ℕ) (ts : Tokens) → 4 * count ts + 3 ≤ fuel → Post (Execd ts) (parse_exec fuel ts)
  parse_exec-Post zero ts h = absurd (omega arith)
  parse_exec-Post (suc fuel) ts h =
      Post-continue (Execd ts) (next_is l_paren ts) _ (next_is-Post l_paren ts) λ b rest n.
        elim (Bool-cases b) [
          | inl e ↦
              let n' : count rest + 1 ≤ count ts = rw e at n.0 in
              rw e (
                Post-imp (Execd ts) _ (parse_subshell-Post fuel rest (omega (arith, h, n')))
                  λ o last (l, s). opened ts rest last o n' l s)
          | inr e ↦ rw e (
              Post-continue (Execd ts) (parse_redirs fuel no_redirect rest) _
                (parse_redirs-Post fuel no_redirect rest (omega (arith, h, n.0)))
                λ r rest1 l1.
                  Post-continue (Execd ts) (parse_args fuel [] r rest1) _
                    (parse_args-Post fuel [] r rest1 (omega (arith, h, n.0, l1)))
                    λ (argv, r') last l2.
                      exec_unless_empty-Execd argv r' ts last (omega (arith, n.0, l1, l2)))
        ]

-- What a finished parse promises.
abbrev Finished : Commands → Tokens → Type 0
Finished cmds rest = (rest ≡ end) × IsList cmds

finish_parse-Post :
    (cmds : Commands) (ts : Tokens) → IsList cmds → Post Finished (finish_parse cmds ts)
unfolding finish_parse next
finish_parse-Post cmds end h = (refl, h)
finish_parse-Post cmds (bad e) h = tt
finish_parse-Post cmds (token t ts) h = tt

parse_all-Post : (ts : Tokens) → Post Finished (parse_all ts)
unfolding parse_all parse
parse_all-Post ts =
    let fuel = 4 * count ts + 5 in
    Post-continue Finished (parse_line fuel ts) _ (parse_line-Post fuel ts (omega arith))
      λ cmds rest l. finish_parse-Post cmds rest l.1

-- On all tokens, also those that end in an error of the tokenizer, the parser returns: either
-- commands, with no token left over, or an error. The nesting of its calls is at most 4 n + 5 for n
-- tokens.
pub parse_all_total :
    (ts : Tokens)
    → ((cmds : Commands) × (parse_all ts ≡ parsed cmds end))
      ⊎ ((e : ParseError) × (parse_all ts ≡ failed e))
parse_all_total ts = by_result (parse_all ts) refl (parse_all-Post ts)
  where
    by_result :
        (p : Parsed Commands)
        → parse_all ts ≡ p
        → Post Finished p
        → ((cmds : Commands) × (parse_all ts ≡ parsed cmds end))
          ⊎ ((e : ParseError) × (parse_all ts ≡ failed e))
    by_result (parsed cmds rest) e h = inl (cmds, rw h.0 at e)
    by_result (failed err) e h = inr (err, e)
    by_result starved e h = absurd h

-- All that the parser returns has the form of the grammar: no word list is empty, the left side of
-- an operator is a word list or a group and never a chain, and only the items of a list, of the line
-- or of a group, run in the background.
pub parse_all-IsList :
    (ts rest : Tokens) (cmds : Commands) → parse_all ts ≡ parsed cmds rest → IsList cmds
parse_all-IsList ts rest cmds e = (subst (Post Finished) e (parse_all-Post ts)).1
