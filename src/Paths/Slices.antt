-- ===== src/Paths/Slices.antt =====
-- What the paths use of byte slices: the first and the last separator, and the separator at an end.
use ov.Prelude.{
  ℕ_discrete, ℕ, ◌≡◌, refl, ap, ◌≢◌, ◌⊎◌, inl, inr, Bool, true, false, ◌&&◌, Option, none, some,
  List, [], ◌∷◌, ◌++◌, All, ◌==◌, if◌then◌else◌, ==_ne, ==_refl,
}

abbrev pub Bytes : Type 0
Bytes = List ℕ

abbrev pub slash : ℕ
slash = 47

-- `starts_with(b"/")`
unfoldable pub starts_slash : Bytes → Bool
starts_slash [] = false
starts_slash (c ∷ p) = c == slash

-- `strip_suffix(b"/")`; `ends_with(b"/")` is that it is not `none`.
unfoldable pub strip_suffix : Bytes → Option Bytes
strip_suffix [] = none
strip_suffix (c ∷ p) = elim (strip_suffix p) [
  | some q ↦ some (c ∷ q)
  | none ↦ elim p [ [] ↦ if c == slash then some [] else none | d ∷ p' ↦ none ]
]

-- `split_once(|b| *b == sep)`
unfoldable pub split_once : ℕ → Bytes → Option (Bytes × Bytes)
split_once sep [] = none
split_once sep (c ∷ p) =
    let rest = split_once sep p in
    if c == sep then some ([], p) else elim rest [ some (a, b) ↦ some (c ∷ a, b) | none ↦ none ]

-- `rsplit_once(|b| *b == sep)`, and `rsplitn(2, _)`, whose second part comes first.
unfoldable pub rsplit_once : ℕ → Bytes → Option (Bytes × Bytes)
rsplit_once sep [] = none
rsplit_once sep (c ∷ p) = elim (rsplit_once sep p) [
  | some (a, b) ↦ some (c ∷ a, b)
  | none ↦ if c == sep then some ([], p) else none
]

unfoldable pub bytes_eq : Bytes → Bytes → Bool
bytes_eq [] [] = true
bytes_eq [] (d ∷ q) = false
bytes_eq (c ∷ p) [] = false
bytes_eq (c ∷ p) (d ∷ q) = c == d && bytes_eq p q

abbrev pub is_empty : Bytes → Bool
is_empty [] = true
is_empty (c ∷ p) = false

abbrev pub Lacks : ℕ → Bytes → Type 0
Lacks sep p = All (λ c. c ≢ sep) p

abbrev pub NoSlash : Bytes → Type 0
NoSlash p = All (λ c. c ≢ slash) p

pub split_once_lem :
    (sep : ℕ) (p : Bytes)
    → ((a : Bytes) × (b : Bytes) × (split_once sep p ≡ some (a, b))
        × (p ≡ a ++ sep ∷ b)
        × Lacks sep a)
      ⊎ ((split_once sep p ≡ none) × Lacks sep p)
unfolding split_once
split_once_lem sep [] = inr (refl, tt)
split_once_lem sep (c ∷ p) = elim (ℕ_discrete c sep) [
  | yes e ↦ inl ([], p, rw (split_once, e, ==_refl sep), ap (λ d. d ∷ p) e, tt)
  | no ne ↦ elim (split_once_lem sep p) [
    | inl (a, b, s, e, n) ↦
        inl (c ∷ a, b, rw (split_once, ==_ne c sep ne, s), ap (λ q. c ∷ q) e, (ne, n))
    | inr (s, n) ↦ inr (rw (split_once, ==_ne c sep ne, s), (ne, n))
  ]
]

pub rsplit_once_lem :
    (sep : ℕ) (p : Bytes)
    → ((a : Bytes) × (b : Bytes) × (rsplit_once sep p ≡ some (a, b))
        × (p ≡ a ++ sep ∷ b)
        × Lacks sep b)
      ⊎ ((rsplit_once sep p ≡ none) × Lacks sep p)
unfolding rsplit_once
rsplit_once_lem sep [] = inr (refl, tt)
rsplit_once_lem sep (c ∷ p) = elim (rsplit_once_lem sep p) [
  | inl (a, b, s, e, n) ↦ inl (c ∷ a, b, rw (rsplit_once, s), ap (λ q. c ∷ q) e, n)
  | inr (s, n) ↦ elim (ℕ_discrete c sep) [
    | yes e ↦ inl ([], p, rw (rsplit_once, s, e, ==_refl sep), ap (λ d. d ∷ p) e, n)
    | no ne ↦ inr (rw (rsplit_once, s, ==_ne c sep ne), (ne, n))
  ]
]

pub strip_suffix_lem :
    (p : Bytes)
    → ((q : Bytes) × (strip_suffix p ≡ some q) × (p ≡ q ++ slash ∷ []))
      ⊎ ((strip_suffix p ≡ none) × ((q : Bytes) → p ≢ q ++ slash ∷ []))
unfolding strip_suffix
strip_suffix_lem [] = inr (refl, λ q. λ e. not_snoc q e)
  where
    not_snoc : (q : Bytes) → [] ≡ q ++ slash ∷ [] → ⊥
    not_snoc [] e = absurd (cc e)
    not_snoc (c ∷ q) e = absurd (cc e)
strip_suffix_lem (c ∷ []) = elim (ℕ_discrete c slash) [
  | yes e ↦ inl ([], rw (strip_suffix, e), ap (λ d. d ∷ []) e)
  | no ne ↦ inr (rw (strip_suffix, ==_ne c slash ne), λ q. λ e. other c ne q e)
]
  where
    other : (c : ℕ) → c ≢ slash → (q : Bytes) → c ∷ [] ≡ q ++ slash ∷ [] → ⊥
    other c ne [] e = ne (cc e)
    other c ne (d ∷ []) e = absurd (cc e)
    other c ne (d ∷ d' ∷ q) e = absurd (cc e)
strip_suffix_lem (c ∷ d ∷ p) = elim (strip_suffix_lem (d ∷ p)) [
  | inl (q, s, e) ↦ inl (c ∷ q, rw (strip_suffix, s), ap (λ r. c ∷ r) e)
  | inr (s, n) ↦ inr (rw (strip_suffix, s), λ q. λ e. longer c d p n q e)
]
  where
    longer :
        (c d : ℕ) (p : Bytes)
        → ((q : Bytes) → d ∷ p ≢ q ++ slash ∷ [])
        → (q : Bytes) → c ∷ d ∷ p ≡ q ++ slash ∷ []
        → ⊥
    longer c d p n [] e = absurd (cc e)
    longer c d p n (c' ∷ q) e = n q (cc e)
