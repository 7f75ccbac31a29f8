-- ===== src/Shell/Quoting.antt =====
-- Words in double quotes, and that they are `str` where the words are.
use ov.Prelude.{
  ℕ, ◌≡◌, refl, subst, sym, ap, ◌∙◌, ◌⊎◌, inl, inr, true, false, ◌||◌, none, some, List, [], ◌∷◌,
  map, arith, All, ◌==◌, if◌then◌else◌, ℕ_discrete, Option-cases,
}
use ov.Shell.Tokenizer.{Bytes, backslash, double_quote}
use ov.Shell.Utf8.{
  State, boundary, more, after_e0, after_ed, after_f0, after_f4, next_byte, completes, is_utf8,
}
use ov.Shell.Spelling.{Quoted, literal, backslashed, IsLiteral, spell_quoted, quoted_value}

-- A byte of a word in double quotes: the quote and the backslash get a backslash before them.
abbrev pub quote : ℕ → Quoted
quote c = if c == double_quote || c == backslash then backslashed c else literal c

abbrev pub quoted : Bytes → List Quoted
quoted w = map quote w

quote_cases :
    (c : ℕ)
    → ((quote c ≡ backslashed c) × ((c ≡ double_quote) ⊎ (c ≡ backslash)))
      ⊎ ((quote c ≡ literal c) × IsLiteral (literal c))
quote_cases c = elim (ℕ_discrete c double_quote) [
  | yes e ↦ inl (ground (arith, e), inl e)
  | no ne ↦ elim (ℕ_discrete c backslash) [
    | yes e ↦ inl (ground (arith, e), inr e)
    | no ne' ↦ inr (ground (arith, ne, ne'), (ne', ne))
  ]
]

pub quoted_value-quoted : (w : Bytes) → quoted_value (quoted w) ≡ w
quoted_value-quoted [] = refl
quoted_value-quoted (c ∷ w) = elim (quote_cases c) [
  | inl (e, _) ↦ rw e (ap (λ xs. c ∷ xs) (quoted_value-quoted w))
  | inr (e, _) ↦ rw e (ap (λ xs. c ∷ xs) (quoted_value-quoted w))
]

pub quoted-IsLiteral : (w : Bytes) → All IsLiteral (quoted w)
quoted-IsLiteral [] = tt
quoted-IsLiteral (c ∷ w) = elim (quote_cases c) [
  | inl (e, _) ↦ rw e (tt, quoted-IsLiteral w)
  | inr (e, lit) ↦ rw e (lit, quoted-IsLiteral w)
]

completes-stop :
    (s : State) (c : ℕ) (w : Bytes) → next_byte s c ≡ none → completes s (c ∷ w) ≡ false
unfolding completes
completes-stop s c w e = rw (completes, e) refl

completes-go :
    (s s' : State) (c : ℕ) (w : Bytes)
    → next_byte s c ≡ some s'
    → completes s (c ∷ w) ≡ completes s' w
unfolding completes
completes-go s s' c w e = rw (completes, e) refl

in_character :
    (s : State) (c : ℕ) (w : Bytes)
    → (c ≡ double_quote) ⊎ (c ≡ backslash)
    → next_byte s double_quote ≡ none
    → next_byte s backslash ≡ none
    → completes s (c ∷ w) ≡ true
    → ⊥
in_character s c w (inl e) d b h =
    let h' = subst (λ x. completes s (x ∷ w) ≡ true) e h in
    absurd (cc (completes-stop s double_quote w d, h'))
in_character s c w (inr e) d b h =
    let h' = subst (λ x. completes s (x ∷ w) ≡ true) e h in
    absurd (cc (completes-stop s backslash w b, h'))

-- A quote or a backslash stands between two characters only, and so may a backslash before it.
completes-ascii :
    (s : State) (c : ℕ) (w k : Bytes)
    → (c ≡ double_quote) ⊎ (c ≡ backslash)
    → completes s (c ∷ w) ≡ true
    → (completes boundary w ≡ true → completes boundary k ≡ true)
    → completes s (backslash ∷ c ∷ k) ≡ true
unfolding completes
completes-ascii boundary c w k (inl e) h f =
    rw e (f (subst (λ x. completes boundary (x ∷ w) ≡ true) e h))
completes-ascii boundary c w k (inr e) h f =
    rw e (f (subst (λ x. completes boundary (x ∷ w) ≡ true) e h))
completes-ascii (more n) c w k e h f = absurd (in_character (more n) c w e refl refl h)
completes-ascii after_e0 c w k e h f = absurd (in_character after_e0 c w e refl refl h)
completes-ascii after_ed c w k e h f = absurd (in_character after_ed c w e refl refl h)
completes-ascii after_f0 c w k e h f = absurd (in_character after_f0 c w e refl refl h)
completes-ascii after_f4 c w k e h f = absurd (in_character after_f4 c w e refl refl h)

-- A word keeps its form as UTF-8 where it is quoted, before bytes that are UTF-8.
pub quoted-completes :
    (s : State) (w k : Bytes)
    → completes s w ≡ true
    → is_utf8 k ≡ true
    → completes s (spell_quoted (quoted w) k) ≡ true
unfolding completes
quoted-completes boundary [] k h hk = hk
quoted-completes (more n) [] k h hk = absurd (cc h)
quoted-completes after_e0 [] k h hk = absurd (cc h)
quoted-completes after_ed [] k h hk = absurd (cc h)
quoted-completes after_f0 [] k h hk = absurd (cc h)
quoted-completes after_f4 [] k h hk = absurd (cc h)
quoted-completes s (c ∷ w) k h hk = elim (quote_cases c) [
  | inr (e, _) ↦ rw e (elim (Option-cases (next_byte s c)) [
    | inl stop ↦ absurd (cc (completes-stop s c w stop, h))
    | inr (s', go) ↦
        completes-go s s' c (spell_quoted (quoted w) k) go
        ∙ quoted-completes s' w k (sym (completes-go s s' c w go) ∙ h) hk
  ])
  | inl (e, special) ↦ rw e (
      completes-ascii s c w (spell_quoted (quoted w) k) special h
        (λ h'. quoted-completes boundary w k h' hk))
]
