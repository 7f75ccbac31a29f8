-- ===== src/Shell/Tokenizer.antt =====
-- The tokenizer of the shell (crates/user/ov6_utilities/src/bin/sh/tokenizer.rs). A cursor over the
-- bytes is the list of the bytes that are left.
use ov.Prelude.{
  ℕ, zero, suc, ◌+◌, ◌-◌, Bool, true, false, ◌&&◌, ◌||◌, not, Option, none, some, List, [], ◌∷◌,
  ◌++◌, length, take, ◌==◌, if◌then◌else◌,
}

abbrev pub Bytes : Type 0
Bytes = List ℕ

pub data Punct : Type 0 where
  pipe : Punct
  and_and : Punct
  or_or : Punct
  l_paren : Punct
  r_paren : Punct
  semicolon : Punct
  and : Punct
  lt : Punct
  gt : Punct
  gt_gt : Punct

pub data Token : Type 0 where
  str : Bytes → Token
  punct : Punct → Token

pub data TokenizeError : Type 0 where
  incomplete_escape : TokenizeError
  unterminated_double_quote : TokenizeError
  unterminated_single_quote : TokenizeError

pub data Result {ℓ} (A : Type ℓ) : Type ℓ where
  ok : A → Result A
  err : TokenizeError → Result A

unfoldable pub as_str : Punct → Bytes
as_str pipe = b'|' ∷ []
as_str l_paren = b'(' ∷ []
as_str r_paren = b')' ∷ []
as_str semicolon = b';' ∷ []
as_str and = b'&' ∷ []
as_str and_and = b'&' ∷ b'&' ∷ []
as_str or_or = b'|' ∷ b'|' ∷ []
as_str lt = b'<' ∷ []
as_str gt = b'>' ∷ []
as_str gt_gt = b'>' ∷ b'>' ∷ []

abbrev pub symbols : Bytes
symbols = b'<' ∷ b'|' ∷ b'>' ∷ b'&' ∷ b';' ∷ b'(' ∷ b')' ∷ []

unfoldable pub contains_byte : Bytes → ℕ → Bool
contains_byte [] c = false
contains_byte (s ∷ ss) c = s == c || contains_byte ss c

-- Space, tab, line feed, form feed and carriage return.
unfoldable pub is_ascii_whitespace : ℕ → Bool
is_ascii_whitespace c = c == 32 || c == 9 || c == 10 || c == 12 || c == 13

unfoldable pub next_if : (ℕ → Bool) → Bytes → Option (ℕ × Bytes)
next_if f [] = none
next_if f (c ∷ chars) = if f c then some (c, chars) else none

unfoldable pub next_if_eq : ℕ → Bytes → Option (ℕ × Bytes)
unfolding next_if
next_if_eq c chars = next_if (λ x. c == x) chars

-- The variables of the counting loop.
pub record Scan : Type 0 where
  pub in_double_quotes : Bool
  pub in_single_quotes : Bool
  pub escaped : Bool
  pub needs_allocation : Bool

abbrev pub backslash : ℕ
backslash = 92

abbrev pub double_quote : ℕ
double_quote = 34

abbrev pub single_quote : ℕ
single_quote = 39

-- One round of the counting loop at the byte `c`, which it takes; `none` is the `break`, which
-- leaves it.
unfoldable pub scan_round : Scan → ℕ → Option Scan
scan_round s c =
    if s.escaped
    then some (record s { escaped = false; needs_allocation = true })
    else if not s.in_single_quotes && c == backslash
    then some (record s { escaped = true; needs_allocation = true })
    else if not s.in_single_quotes && c == double_quote
    then some (record s { in_double_quotes = not s.in_double_quotes; needs_allocation = true })
    else if not s.in_double_quotes && c == single_quote
    then some (record s { in_single_quotes = not s.in_single_quotes; needs_allocation = true })
    else if s.in_double_quotes
        || s.in_single_quotes
        || (not (is_ascii_whitespace c) && not (contains_byte symbols c))
    then some s
    else none

-- The counting loop: its variables at the end, and the bytes that are left.
unfoldable pub scan : Scan → Bytes → Scan × Bytes
scan s [] = (s, [])
scan s (c ∷ chars) = elim (scan_round s c) [ none ↦ (s, c ∷ chars) | some s' ↦ scan s' chars ]

-- The variables of the constructing loop.
pub record Building : Type 0 where
  pub in_double_quotes : Bool
  pub in_single_quotes : Bool
  pub escaped : Bool
  pub result : Bytes

unfoldable pub construct_round : Building → ℕ → Building
construct_round b ch =
    if b.escaped
    then record b { result = b.result ++ ch ∷ []; escaped = false }
    else if ch == backslash && not b.in_single_quotes
    then record b { escaped = true }
    else if ch == double_quote && not b.in_single_quotes
    then record b { in_double_quotes = not b.in_double_quotes }
    else if ch == single_quote && not b.in_double_quotes
    then record b { in_single_quotes = not b.in_single_quotes }
    else record b { result = b.result ++ ch ∷ [] }

unfoldable pub construct : Building → Bytes → Building
construct b [] = b
construct b (ch ∷ input) = construct (construct_round b ch) input

abbrev pub scan_start : Scan
scan_start = record {
  in_double_quotes = false;
  in_single_quotes = false;
  escaped = false;
  needs_allocation = false;
}

-- After the counting loop has left `chars` of `start`.
unfoldable pub finish_str : Bytes → Scan → Bytes → Result (Option Bytes)
unfolding construct
finish_str start s chars =
    if s.escaped
    then err incomplete_escape
    else if s.in_double_quotes
    then err unterminated_double_quote
    else if s.in_single_quotes
    then err unterminated_single_quote
    else let input = take (length start - length chars) start in
      if not s.needs_allocation
      then ok (some input)
      else ok (
          some
            (construct
              (record {
                in_double_quotes = s.in_double_quotes;
                in_single_quotes = s.in_single_quotes;
                escaped = false;
                result = [];
              })
              input).result)

-- The result, and the cursor after the call.
unfoldable pub next_str : Bytes → Result (Option Bytes) × Bytes
unfolding scan finish_str
next_str [] = (ok none, [])
next_str (c ∷ cs) =
    let (s, chars) = scan scan_start (c ∷ cs) in (finish_str (c ∷ cs) s chars, chars)

unfoldable pub skip_whitespace : Bytes → Bytes
skip_whitespace [] = []
skip_whitespace (c ∷ chars) =
    let rest = skip_whitespace chars in if is_ascii_whitespace c then rest else c ∷ chars

-- `if self.chars.next_if_eq(c).is_some() { taken } else { other }`
abbrev pub if_next {ℓ} : {A : Type ℓ} → ℕ → Bytes → (Bytes → A) → A → A
unfolding next_if_eq
if_next c chars taken other = elim (next_if_eq c chars) [
  | some (_, rest) ↦ taken rest
  | none ↦ other
]

abbrev pub got : Punct → Bytes → Result (Option Token) × Bytes
got p chars = (ok (some (punct p)), chars)

abbrev pub as_token : Result (Option Bytes) × Bytes → Result (Option Token) × Bytes
as_token (ok (some s), chars) = (ok (some (str s)), chars)
as_token (ok none, chars) = (ok none, chars)
as_token (err e, chars) = (err e, chars)

unfoldable pub token_at : Bytes → Result (Option Token) × Bytes
unfolding next_str next_if_eq
token_at chars =
    if_next b'|' chars (λ cs. if_next b'|' cs (got or_or) (got pipe cs))
      (if_next b'(' chars (got l_paren) (
        if_next b')' chars (got r_paren) (
          if_next b';' chars (got semicolon) (
            if_next b'&' chars (λ cs. if_next b'&' cs (got and_and) (got and cs))
              (if_next b'<' chars (got lt) (
                if_next b'>' chars (λ cs. if_next b'>' cs (got gt_gt) (got gt cs))
                  (as_token (next_str chars))))))))

unfoldable pub next_token : Bytes → Result (Option Token) × Bytes
unfolding skip_whitespace token_at
next_token chars = token_at (skip_whitespace chars)

-- What the iterator yields, up to the first error: the parser reads no further than that.
pub data Tokens : Type 0 where
  end : Tokens
  bad : TokenizeError → Tokens
  token : Token → Tokens → Tokens

-- What the iterator yields first, followed by the tokens that are left.
abbrev pub yielding : Result (Option Token) → Option Tokens → Option Tokens
yielding (ok (some t)) (some ts) = some (token t ts)
yielding (ok (some t)) none = none
yielding (ok none) ts = some end
yielding (err e) ts = some (bad e)

-- All tokens of the input; `none` if the fuel runs out.
unfoldable pub lex : ℕ → Bytes → Option Tokens
unfolding next_token
lex zero chars = none
lex (suc fuel) chars =
    let (item, chars') = next_token chars in let rest = lex fuel chars' in yielding item rest

-- One unit of fuel for each byte and one for the end.
unfoldable pub lex_all : Bytes → Option Tokens
unfolding lex
lex_all chars = lex (length chars + 1) chars
