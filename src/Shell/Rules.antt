-- ===== src/Shell/Rules.antt =====
-- What the parser can build, and that it always ends (crates/user/ov6_utilities/src/bin/sh/parser.rs).
-- A result is judged by a condition on what is parsed and on the tokens that are left.
use ov.Prelude.{
  ℕ, zero, suc, ◌+◌, ◌≤◌, ◌<◌, ◌≡◌, refl, inl, inr, Bool, true, false, Option, none, some, arith,
  Option-cases,
}
use ov.Shell.Tokenizer.{Punct, Tokens, str, punct, end, bad, token, lt, gt, gt_gt}
use ov.Shell.Command.{Redirect}
use ov.Shell.Parser.{
  Parsed, Parser, parsed, failed, starved, continue, next_is, next_if, is_punct, same_punct, redir,
  apply, file_name, parse_redirs, next, count,
}

-- The fuel was enough, and what is parsed meets the condition.
abbrev pub Post {ℓ} : {A : Type ℓ} → (A → Tokens → Type 0) → Parsed A → Type 0
Post Q (parsed a ts) = Q a ts
Post Q (failed e) = Unit
Post Q starved = ⊥

pub Post-continue {ℓ κ} :
    {A : Type ℓ} {B : Type κ} {Q : A → Tokens → Type 0} (R : B → Tokens → Type 0) (p : Parsed A)
    (f : A → Parser B)
    → Post Q p
    → ((a : A) (ts : Tokens) → Q a ts → Post R (f a ts))
    → Post R (continue p f)
Post-continue R (parsed a ts) f h k = k a ts h
Post-continue R (failed e) f h k = tt
Post-continue R starved f h k = h

abbrev pub starts : Punct → Tokens → Bool
starts p (token t ts) = is_punct p t
starts p end = false
starts p (bad e) = false

abbrev pub one_if : Bool → ℕ
one_if true = 1
one_if false = 0

abbrev pub one_of {ℓ} : {A : Type ℓ} → Option A → ℕ
one_of none = 0
one_of (some a) = 1

pub next_is-Post :
    (p : Punct) (ts : Tokens)
    → Post
        (λ b rest. (count rest + one_if b ≤ count ts) × (starts p ts ≡ b) × (b ≡ false → rest ≡ ts))
        (next_is p ts)
unfolding next_is next_if
next_is-Post p end = (omega arith, refl, λ e. refl)
next_is-Post p (bad e) = tt
next_is-Post p (token t ts) = at_test (is_punct p t) refl
  where
    at_test :
        (b : Bool)
        → is_punct p t ≡ b
        → Post
            (λ b rest.
              (count rest + one_if b ≤ suc (count ts))
              × (is_punct p t ≡ b)
              × (b ≡ false → rest ≡ token t ts))
            (next_is p (token t ts))
    at_test true e = rw (next_is, next_if, e) (omega arith, refl, λ h. absurd (cc h))
    at_test false e = rw (next_is, next_if, e) (omega arith, refl, λ h. refl)

-- Tokens are only taken.
abbrev pub Shrinks {ℓ} : {A : Type ℓ} → Tokens → A → Tokens → Type 0
Shrinks ts a rest = count rest ≤ count ts

pub Post-imp {ℓ} :
    {A : Type ℓ} {Q : A → Tokens → Type 0} (R : A → Tokens → Type 0) (p : Parsed A)
    → Post Q p
    → ((a : A) (ts : Tokens) → Q a ts → R a ts)
    → Post R p
Post-imp R (parsed a ts) h k = k a ts h
Post-imp R (failed e) h k = tt
Post-imp R starved h k = h

-- A sign of redirection takes a token.
redir-Post : (ts : Tokens) → Post (λ o rest. count rest + one_of o ≤ count ts) (redir ts)
unfolding redir next_is next_if same_punct
redir-Post end = omega arith
redir-Post (bad e) = tt
redir-Post (token (str s) ts) = omega arith
redir-Post (token (punct lt) ts) = omega arith
redir-Post (token (punct gt) ts) = omega arith
redir-Post (token (punct gt_gt) ts) = omega arith
redir-Post (token (punct p) ts) = omega arith

file_name-Post : (ts : Tokens) → Post (Shrinks ts) (file_name ts)
unfolding file_name next
file_name-Post end = tt
file_name-Post (bad e) = tt
file_name-Post (token (str s) ts) = omega arith
file_name-Post (token (punct p) ts) = tt

pub parse_redirs-Post :
    (fuel : ℕ) (r : Redirect) (ts : Tokens)
    → count ts < fuel
    → Post (Shrinks ts) (parse_redirs fuel r ts)
unfolding parse_redirs
parse_redirs-Post zero r ts h = absurd (omega arith)
parse_redirs-Post (suc fuel) r ts h =
    Post-continue (Shrinks ts) (redir ts) _ (redir-Post ts) λ o rest l. elim (Option-cases o) [
      | inl e ↦ rw e (omega (arith, l))
      | inr (m, e) ↦
          let l' : count rest + 1 ≤ count ts = rw e at l in
          rw e (
            Post-continue (Shrinks ts) (file_name rest) _ (file_name-Post rest) λ file rest' l2.
              Post-imp (Shrinks ts) _
                (parse_redirs-Post fuel (apply m file r) rest' (omega (arith, l', l2, h)))
                λ r' last l3. omega (arith, l', l2, l3))
    ]
