-- ===== src/Lru/Entries.antt =====
-- Where in the list `find`, `recycle` and `extract` work.
use ov.Prelude.{
  ℕ, ◌≡◌, refl, ap, ◌≢◌, ◌⊎◌, inl, inr, true, false, none, some, List, [], ◌∷◌, ◌++◌, arith, All,
  ◌==◌, ==→eq, Bool-cases,
}
use ov.Lru.{Entry, has_key, cloned, find, recycled, recycle, extract}

abbrev pub KeyFresh : ℕ → List Entry → Type 0
KeyFresh k es = All (λ e. e.key ≢ some k) es

pub has_key-true : (k : ℕ) (e : Entry) → has_key k e ≡ true → e.key ≡ some k
has_key-true k e h = ground (arith, h)

pub has_key-false : (k : ℕ) (e : Entry) → has_key k e ≡ false → e.key ≢ some k
has_key-false k e h = ground (arith, h)

-- The place of an entry with the key, if there is one.
pub find_lem :
    (k : ℕ) (es : List Entry)
    → (KeyFresh k es × (find k es ≡ none))
      ⊎ ((xs ys : List Entry) × (e : Entry) × (es ≡ xs ++ (e ∷ ys))
          × (e.key ≡ some k)
          × (find k es ≡ some (e.slot, xs ++ (cloned e ∷ ys))))
unfolding find
find_lem k [] = inl (tt, refl)
find_lem k (e ∷ es) = elim (Bool-cases (has_key k e)) [
  | inl h ↦ inr ([], es, e, refl, has_key-true k e h, rw h)
  | inr h ↦ elim (find_lem k es) [
    | inl (f, run) ↦ inl ((has_key-false k e h, f), rw (h, run))
    | inr (xs, ys, x, split, key, run) ↦ inr (e ∷ xs, ys, x, ap (◌∷◌ e) split, key, rw (h, run))
  ]
]

pub extract_lem :
    (k : ℕ) (es : List Entry)
    → (KeyFresh k es × (extract k es ≡ none))
      ⊎ ((xs ys : List Entry) × (e : Entry) × (es ≡ xs ++ (e ∷ ys))
          × (e.key ≡ some k)
          × (extract k es ≡ some (e, xs ++ ys)))
unfolding extract
extract_lem k [] = inl (tt, refl)
extract_lem k (e ∷ es) = elim (Bool-cases (has_key k e)) [
  | inl h ↦ inr ([], es, e, refl, has_key-true k e h, rw h)
  | inr h ↦ elim (extract_lem k es) [
    | inl (f, run) ↦ inl ((has_key-false k e h, f), rw (h, run))
    | inr (xs, ys, x, split, key, run) ↦ inr (e ∷ xs, ys, x, ap (◌∷◌ e) split, key, rw (h, run))
  ]
]

pub recycle_lem :
    (k : ℕ) (es : List Entry)
    → (All (λ e. e.count ≢ 1) es × (recycle k es ≡ none))
      ⊎ ((xs ys : List Entry) × (e : Entry) × (es ≡ xs ++ (e ∷ ys))
          × (e.count ≡ 1)
          × All (λ y. y.count ≢ 1) ys
          × (recycle k es ≡ some (e.slot, xs ++ (recycled k e ∷ ys))))
unfolding recycle
recycle_lem k [] = inl (tt, refl)
recycle_lem k (e ∷ es) = elim (recycle_lem k es) [
  | inr (xs, ys, x, split, free, later, run) ↦
      inr (e ∷ xs, ys, x, ap (◌∷◌ e) split, free, later, rw run)
  | inl (busy, run) ↦ elim (Bool-cases (e.count == 1)) [
    | inl h ↦ inr ([], es, e, refl, ==→eq e.count 1 h, busy, rw (run, h))
    | inr h ↦ inl ((ground arith, busy), rw (run, h))
  ]
]
