-- ===== src/Shell/Shape.antt =====
-- What the parser can build: words and groups joined to chains to the right, in lists; and that it
-- always ends (crates/user/ov6_utilities/src/bin/sh/parser.rs).
use ov.Prelude.{
  ℕ, zero, suc, ◌+◌, ◌≤◌, ◌<◌, ◌≡◌, refl, subst, sym, ◌∙◌, ◌≢◌, ◌⊎◌, inl, inr, Bool, true, false,
  Option, none, some, List, [], ◌∷◌, ◌++◌, arith, length, length-append, All, if◌then◌else◌,
  Option-cases,
}
use ov.Shell.Tokenizer.{Bytes, Punct, Token, Tokens, str, punct, end, bad, token, and_and, or_or}
use ov.Shell.Command.{
  Redirect, Command, CommandKind, Commands, command, subshell, exec, logical_and, logical_or,
  nothing, first, new,
}
use ov.Shell.Parser.{
  Parser, pure, next_is, next_if, parse_redirs, parse_args, count, operand, set_background, or_part,
  and_part, pipe_part, is_argument, try_opt,
}
use ov.Shell.Rules.{
  Post, Post-continue, Post-imp, starts, one_if, one_of, next_is-Post, parse_redirs-Post,
}

-- Commands of the form that the grammar has. Only an item of a list runs in the background.
unfoldable mutual
  -- A word list or a group.
  pub IsSimple : Command → Type 0
  IsSimple (command kind true) = ⊥
  IsSimple (command (subshell cmds r) false) = IsList cmds
  IsSimple (command (exec argv r) false) = argv ≢ []
  IsSimple (command kind false) = ⊥

  -- A simple command, or one that an operator joins to a chain on its right.
  pub IsChain : Command → Type 0
  IsChain (command kind true) = ⊥
  IsChain (command kind false) = IsChainKind kind

  pub IsChainKind : CommandKind → Type 0
  IsChainKind (subshell cmds r) = IsList cmds
  IsChainKind (exec argv r) = argv ≢ []
  IsChainKind (CommandKind.pipe left right) = IsSimple left × IsChain right
  IsChainKind (logical_and left right) = IsSimple left × IsChain right
  IsChainKind (logical_or left right) = IsSimple left × IsChain right

  pub IsList : Commands → Type 0
  IsList nothing = Unit
  IsList (first (command kind b) rest) = IsChainKind kind × IsList rest

pub IsSimple-IsChain : (c : Command) → IsSimple c → IsChain c
unfolding IsSimple IsChain IsChainKind
IsSimple-IsChain (command kind true) h = absurd h
IsSimple-IsChain (command (subshell cmds r) false) h = h
IsSimple-IsChain (command (exec argv r) false) h = h
IsSimple-IsChain (command (CommandKind.pipe l r) false) h = absurd h
IsSimple-IsChain (command (logical_and l r) false) h = absurd h
IsSimple-IsChain (command (logical_or l r) false) h = absurd h

pub set_background-IsList :
    (b : Bool) (c : Command) (rest : Commands)
    → IsChain c
    → IsList rest
    → IsList (first (set_background b c) rest)
unfolding IsList IsChain
set_background-IsList b (command kind true) rest h hs = absurd h
set_background-IsList true (command kind false) rest h hs = (h, hs)
set_background-IsList false (command kind false) rest h hs = (h, hs)

-- No operator comes next.
unfoldable pub Quiet : Tokens → Type 0
Quiet ts = All (λ p. starts p ts ≡ false) (or_or ∷ and_and ∷ Punct.pipe ∷ [])

-- What `parse_exec`, `parse_pipe` and `parse_line` promise.
abbrev pub Execd : Tokens → Option Command → Tokens → Type 0
Execd ts none rest = count rest ≤ count ts
Execd ts (some c) rest = (count rest < count ts) × IsSimple c

abbrev pub Piped : Tokens → Option Command → Tokens → Type 0
Piped ts none rest = count rest ≤ count ts
Piped ts (some c) rest = (count rest < count ts) × IsChain c × Quiet rest

abbrev pub Listed : Tokens → Commands → Tokens → Type 0
Listed ts cmds rest = (count rest ≤ count ts) × IsList cmds

-- Between the operators of a chain: those in `ps` have been looked for.
abbrev Stage : List Punct → Command → Tokens → Type 0
Stage ps c ts = (IsSimple c × All (λ p. starts p ts ≡ false) ps) ⊎ (IsChain c × Quiet ts)

operand-Post :
    (p : Punct) (join : Command → Command → CommandKind) (right : Parser (Option Command))
    (c : Command) (next_step : Command → Parser (Option Command)) (ps : List Punct)
    (ts ts1 : Tokens)
    → count ts1 < count ts
    → ((ts' : Tokens) → Quiet ts' → starts p ts' ≡ false)
    → ((l r : Command) → IsSimple l → IsChain r → IsChain (new (join l r)))
    → ((ts' : Tokens) → count ts' < count ts1 → Post (Piped ts') (right ts'))
    → Stage ps c ts1
    → ((c' : Command) (ts2 : Tokens)
        → count ts2 < count ts
        → count ts2 ≤ count ts1
        → Stage (p ∷ ps) c' ts2
        → Post (Piped ts) (next_step c' ts2))
    → Post (Piped ts) (operand p join right c next_step ts1)
operand-Post p join right c next_step ps ts ts1 lt1 quiet joined operands stage more =
    Post-continue (Piped ts) (next_is p ts1) _ (next_is-Post p ts1)
      λ b rest (l, e, same). found b rest l e same stage
  where
    found :
        (b : Bool) (rest : Tokens)
        → count rest + one_if b ≤ count ts1
        → starts p ts1 ≡ b
        → (b ≡ false → rest ≡ ts1)
        → Stage ps c ts1
        → Post
            (Piped ts)
            ((if b then try_opt right (λ r. next_step (new (join c r))) else next_step c) rest)
    found true rest l e same (inr (chain, q)) = absurd (cc (sym e ∙ quiet ts1 q))
    found true rest l e same (inl (simple, _)) =
        Post-continue (Piped ts) (right rest) _ (operands rest (omega (arith, l))) λ o last h.
          elim (Option-cases o) [
            | inl eo ↦
                let h' : Piped rest none last = rw eo at h in rw eo (omega (arith, h', l, lt1))
            | inr (r, eo) ↦
                let h' : Piped rest (some r) last = rw eo at h in
                rw eo (
                  more (new (join c r)) last (omega (arith, h'.0, l, lt1)) (omega (arith, h'.0, l))
                    (inr (joined c r simple h'.1, h'.2)))
          ]
    found false rest l e same (inl (simple, before)) =
        subst (λ x. Post (Piped ts) (next_step c x)) (sym (same refl))
          (more c ts1 lt1 (omega arith) (inl (simple, (e, before))))
    found false rest l e same (inr (chain, q)) =
        subst (λ x. Post (Piped ts) (next_step c x)) (sym (same refl))
          (more c ts1 lt1 (omega arith) (inr (chain, q)))

pub pipe-Post :
    (right : Parser (Option Command)) (c : Command) (ts ts1 : Tokens)
    → count ts1 < count ts
    → ((ts' : Tokens) → count ts' < count ts1 → Post (Piped ts') (right ts'))
    → IsSimple c
    → Post (Piped ts) (pipe_part right c ts1)
unfolding Quiet IsChain IsChainKind
pipe-Post right c ts ts1 lt1 operands simple =
    operand-Post Punct.pipe CommandKind.pipe right c (and_part right) [] ts ts1 lt1
      (λ ts' q. q.1.1.0) (λ l r sl cr. (sl, cr)) operands (inl (simple, tt))
      λ c1 ts2 lt2 le2 s1.
        operand-Post and_and logical_and right c1 (or_part right) (Punct.pipe ∷ []) ts ts2 lt2
          (λ ts' q. q.1.0) (λ l r sl cr. (sl, cr))
          (λ ts' less. operands ts' (omega (arith, less, le2))) s1
          λ c2 ts3 lt3 le3 s2.
            operand-Post or_or logical_or right c2 (λ c. pure (some c)) (and_and ∷ Punct.pipe ∷ [])
              ts ts3 lt3 (λ ts' q. q.0) (λ l r sl cr. (sl, cr))
              (λ ts' less. operands ts' (omega (arith, less, le2, le3))) s2
              λ c3 ts4 lt4 le4 s3. settled c3 ts4 lt4 s3
  where
    settled :
        (c3 : Command) (ts4 : Tokens)
        → count ts4 < count ts
        → Stage (or_or ∷ and_and ∷ Punct.pipe ∷ []) c3 ts4
        → Piped ts (some c3) ts4
    settled c3 ts4 l (inl (s, q)) = (l, IsSimple-IsChain c3 s, q)
    settled c3 ts4 l (inr (s, q)) = (l, s, q)

next_if-Post :
    (f : Token → Bool) (ts : Tokens)
    → Post (λ o rest. count rest + one_of o ≤ count ts) (next_if f ts)
unfolding next_if
next_if-Post f end = omega arith
next_if-Post f (bad e) = tt
next_if-Post f (token t ts) = at_test (f t) refl
  where
    at_test :
        (b : Bool)
        → f t ≡ b
        → Post (λ o rest. count rest + one_of o ≤ suc (count ts)) (next_if f (token t ts))
    at_test true e = rw (next_if, e) (omega arith)
    at_test false e = rw (next_if, e) (omega arith)

pub parse_args-Post :
    (fuel : ℕ) (argv : List Bytes) (r : Redirect) (ts : Tokens)
    → count ts + 1 < fuel
    → Post
        (λ (argv', r') rest. (count rest + length argv' ≤ count ts + length argv))
        (parse_args fuel argv r ts)
unfolding parse_args
parse_args-Post zero argv r ts h = absurd (omega arith)
parse_args-Post (suc fuel) argv r ts h =
    let R : List Bytes × Redirect → Tokens → Type 0 =
      λ (argv', r') rest. (count rest + length argv' ≤ count ts + length argv) in
    Post-continue R (next_if is_argument ts) _ (next_if-Post is_argument ts) λ o rest l.
      elim (Option-cases o) [
        | inl e ↦ rw e (omega (arith, l))
        | inr (str s, e) ↦
            let l' : count rest + 1 ≤ count ts = rw e at l in
            rw e (
              Post-continue R (parse_redirs fuel r rest) _
                (parse_redirs-Post fuel r rest (omega (arith, l', h)))
                λ r' rest' l2.
                  Post-imp R _
                    (parse_args-Post fuel (argv ++ s ∷ []) r' rest' (omega (arith, l', l2, h)))
                    λ (argv', r2) last l3. omega (arith, l', l2, l3, length-append argv (s ∷ [])))
        | inr (punct p, e) ↦ rw e tt
      ]
