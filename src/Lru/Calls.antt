-- ===== src/Lru/Calls.antt =====
-- `get` and `promote`.
use ov.Prelude.{ℕ, ◌≡◌, refl, subst, ◌≢◌, ◌⊎◌, inl, inr, none, some, List, ◌∷◌, ◌++◌, All}
use ov.Lru.{Entry, LruValue, cloned, recycled, get, promote}
use ov.Lru.Entries.{KeyFresh, find_lem, extract_lem, recycle_lem}
use ov.Lru.Sharing.{IsCoherent, All-pull, IsCoherent-pull, IsCoherent-push, hit_lem, miss_lem}

-- `get` fails only if the key is not cached and every value is in use. A value that it returns is
-- under the key asked for, and everything in use stays where it was.
pub get_lem :
    (k : ℕ) (es : List Entry) (held : List LruValue)
    → IsCoherent es held
    → ((get k es ≡ none) × KeyFresh k es × All (λ e. e.count ≢ 1) es)
      ⊎ ((v : LruValue) × (es' : List Entry) × (get k es ≡ some (v, es'))
          × (v.key ≡ k)
          × IsCoherent es' (v ∷ held))
unfolding get
get_lem k es held c = elim (find_lem k es) [
  | inr (xs, ys, e, split, key, run) ↦
      let here : IsCoherent (e ∷ (xs ++ ys)) held =
        IsCoherent-pull e xs ys held (subst (λ x. IsCoherent x held) split c) in
      let v : LruValue = record { key = k; slot = e.slot } in
      inr (
        v,
        xs ++ (cloned e ∷ ys),
        rw (get, run),
        refl,
        IsCoherent-push (cloned e) xs ys (v ∷ held) (hit_lem e (xs ++ ys) k held key here),
      )
  | inl (fresh, missed) ↦ elim (recycle_lem k es) [
    | inl (busy, none_free) ↦ inl (rw (get, missed, none_free), fresh, busy)
    | inr (xs, ys, e, split, free, later, run) ↦
        let here : IsCoherent (e ∷ (xs ++ ys)) held =
          IsCoherent-pull e xs ys held (subst (λ x. IsCoherent x held) split c) in
        let f : KeyFresh k (e ∷ (xs ++ ys)) =
          All-pull (λ (x : Entry). x.key ≢ some k) e xs ys
            (subst (λ x. KeyFresh k x) split fresh) in
        let v : LruValue = record { key = k; slot = e.slot } in
        inr (
          v,
          xs ++ (recycled k e ∷ ys),
          rw (get, missed, run),
          refl,
          IsCoherent-push (recycled k e) xs ys (v ∷ held)
              (miss_lem e (xs ++ ys) k held f free here),
        )
  ]
]

-- `promote` moves an entry, and changes no other.
pub promote_lem :
    (k : ℕ) (es : List Entry) (held : List LruValue)
    → IsCoherent es held
    → IsCoherent (promote k es) held
unfolding promote
promote_lem k es held c = elim (extract_lem k es) [
  | inl (_, run) ↦ rw (promote, run) c
  | inr (xs, ys, e, split, key, run) ↦
      rw (promote, run) (IsCoherent-pull e xs ys held (subst (λ x. IsCoherent x held) split c))
]
