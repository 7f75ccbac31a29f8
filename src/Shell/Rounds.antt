-- ===== src/Shell/Rounds.antt =====
-- A round of each of the two loops of the tokenizer over a word, against a move of the reading in one
-- pass (`Tokenizer::next_str` of crates/user/ov6_utilities/src/bin/sh/tokenizer.rs).
use ov.Prelude.{ℕ, ◌≡◌, refl, Bool, true, false, none, some, [], ◌∷◌, ◌++◌, arith, ◌==◌}
use ov.Shell.Tokenizer.{
  Bytes, Scan, Building, backslash, double_quote, single_quote, symbols, contains_byte,
  is_ascii_whitespace, scan_round, construct_round,
}
use ov.Shell.Words.{
  Mode, Move, move, bare, double, single, escaped, double_escaped, push, skip, stop,
}

abbrev pub flags_of : Mode → Bool → Scan
flags_of bare n = record {
  in_double_quotes = false;
  in_single_quotes = false;
  escaped = false;
  needs_allocation = n;
}
flags_of double n = record {
  in_double_quotes = true;
  in_single_quotes = false;
  escaped = false;
  needs_allocation = n;
}
flags_of single n = record {
  in_double_quotes = false;
  in_single_quotes = true;
  escaped = false;
  needs_allocation = n;
}
flags_of escaped n = record {
  in_double_quotes = false;
  in_single_quotes = false;
  escaped = true;
  needs_allocation = n;
}
flags_of double_escaped n = record {
  in_double_quotes = true;
  in_single_quotes = false;
  escaped = true;
  needs_allocation = n;
}

abbrev pub building : Mode → Bytes → Building
building m r =
    let f = flags_of m false in
    record {
      in_double_quotes = f.in_double_quotes;
      in_single_quotes = f.in_single_quotes;
      escaped = f.escaped;
      result = r;
    }

-- What a round of each of the two loops does, where the one pass makes the given move.
abbrev pub Follows : Mode → Bool → ℕ → Move → Type 0
Follows m n c (push m') =
    (n' : Bool) × (scan_round (flags_of m n) c ≡ some (flags_of m' n'))
    × ((r : Bytes) → construct_round (building m r) c ≡ building m' (r ++ c ∷ []))
    × (n' ≡ false → (n ≡ false) × (m ≡ bare → m' ≡ bare))
Follows m n c (skip m') =
    (scan_round (flags_of m n) c ≡ some (flags_of m' true))
    × ((r : Bytes) → construct_round (building m r) c ≡ building m' r)
Follows m n c stop = (m ≡ bare) × (scan_round (flags_of m n) c ≡ none)

-- The tests of a round outside quotes, as values.
pub round_bare :
    (n : Bool) (c : ℕ) (b d s w y : Bool)
    → (c == backslash) ≡ b
    → (c == double_quote) ≡ d
    → (c == single_quote) ≡ s
    → is_ascii_whitespace c ≡ w
    → contains_byte symbols c ≡ y
    → Follows bare n c (move bare c)
unfolding move scan_round construct_round
round_bare n c true d s w y eb ed es ew ey = rw eb (ground arith, λ r. ground arith)
round_bare n c false true s w y eb ed es ew ey = rw (eb, ed) (ground arith, λ r. ground arith)
round_bare n c false false true w y eb ed es ew ey =
    rw (eb, ed, es) (ground arith, λ r. ground arith)
round_bare n c false false false true y eb ed es ew ey = rw (eb, ed, es, ew) (refl, ground arith)
round_bare n c false false false false true eb ed es ew ey =
    rw (eb, ed, es, ew, ey) (refl, ground arith)
round_bare n c false false false false false eb ed es ew ey =
    rw (eb, ed, es, ew, ey) (n, ground arith, (λ r. ground arith), λ e. (e, λ _. refl))

pub round_double :
    (n : Bool) (c : ℕ) (b d : Bool)
    → (c == backslash) ≡ b
    → (c == double_quote) ≡ d
    → Follows double n c (move double c)
unfolding move scan_round construct_round
round_double n c true d eb ed = rw eb (ground arith, λ r. ground arith)
round_double n c false true eb ed = rw (eb, ed) (ground arith, λ r. ground arith)
round_double n c false false eb ed =
    rw (eb, ed) (n, ground arith, (λ r. ground arith), λ e. (e, λ h. absurd (cc h)))

pub round_single :
    (n : Bool) (c : ℕ) (s : Bool) → (c == single_quote) ≡ s → Follows single n c (move single c)
unfolding move scan_round construct_round
round_single n c true es = rw es (ground arith, λ r. ground arith)
round_single n c false es =
    rw es (n, ground arith, (λ r. ground arith), λ e. (e, λ h. absurd (cc h)))

pub round_lem : (m : Mode) (n : Bool) (c : ℕ) → Follows m n c (move m c)
unfolding move scan_round construct_round
round_lem bare n c = round_bare n c _ _ _ _ _ refl refl refl refl refl
round_lem double n c = round_double n c _ _ refl refl
round_lem single n c = round_single n c _ refl
round_lem escaped n c = (true, refl, (λ r. refl), λ e. cc)
round_lem double_escaped n c = (true, refl, (λ r. refl), λ e. cc)
