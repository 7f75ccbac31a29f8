-- ===== src/Paths/Ends.antt =====
-- The iteration over a path against a queue with two ends (`Components` of
-- crates/common/ov6_types/src/path/mod.rs): `next_back`, and any calls of both.
use ov.Prelude.{
  ℕ, ◌≡◌, refl, subst, sym, ap, ◌∙◌, ◌⊎◌, inl, inr, Bool, true, false, none, some, [], ◌∷◌, ◌++◌,
  map, arith, done, ==→eq,
}
use ov.Paths.Slices.{Bytes, slash, starts_slash, rsplit_once, bytes_eq, NoSlash, rsplit_once_lem}
use ov.Paths.Components.{root_dir, trim_trailing_slashes, trim_rounds, next_back}
use ov.Paths.Segments.{
  segments, as_component, segments-NoSlash, segments-nil, segments-slash_first,
  component-as_component,
}
use ov.Paths.Front.{IsTrimmed, view, state, not_snoc}
use ov.Paths.Back.{pop_back, before_last, Backs, short_trimmed}

root_IsTrimmed : IsTrimmed (state (slash ∷ []) true)
unfolding starts_slash
root_IsTrimmed = record {
  root = refl;
  trimmed = λ q e. short_trimmed (slash ∷ []) q (omega arith) e;
}

empty_IsTrimmed : IsTrimmed (state [] false)
unfolding starts_slash
empty_IsTrimmed = record { root = refl; trimmed = λ q e. absurd (not_snoc q slash e) }

view_empty : view (state [] false) ≡ []
unfolding view
view_empty = ap (map as_component) segments-nil

view_root : view (state (slash ∷ []) true) ≡ root_dir ∷ []
unfolding view
view_root = ap (λ ss. root_dir ∷ map as_component ss) (segments-slash_first [] ∙ segments-nil)

back_empty : Backs (next_back (state [] false)) (pop_back (view (state [] false)))
unfolding next_back
back_empty = rw view_empty (state [] false, refl, view_empty, empty_IsTrimmed)

back_root : Backs (next_back (state (slash ∷ []) true)) (pop_back (view (state (slash ∷ []) true)))
unfolding next_back bytes_eq
back_root = rw view_root (state [] false, refl, view_empty, empty_IsTrimmed)

-- The one component after the root.
back_under_root :
    (d : ℕ) (p : Bytes)
    → NoSlash (d ∷ p)
    → rsplit_once slash (slash ∷ d ∷ p) ≡ some ([], d ∷ p)
    → Backs (next_back (state (slash ∷ d ∷ p) true)) (pop_back (view (state (slash ∷ d ∷ p) true)))
unfolding next_back bytes_eq starts_slash view trim_trailing_slashes trim_rounds
back_under_root d p n s =
    let segs : segments (slash ∷ d ∷ p) ≡ (d ∷ p) ∷ [] =
      segments-slash_first (d ∷ p) ∙ segments-NoSlash d p n in
    rw (segs, next_back, s)
      (
        state (slash ∷ []) true,
        ap (λ o. done (o, state (slash ∷ []) true)) (component-as_component d p),
        view_root,
        root_IsTrimmed,
      )

back_slash :
    (d : ℕ) (p : Bytes)
    → IsTrimmed (state (slash ∷ d ∷ p) true)
    → Backs (next_back (state (slash ∷ d ∷ p) true)) (pop_back (view (state (slash ∷ d ∷ p) true)))
unfolding next_back bytes_eq
back_slash d p v = by_last (rsplit_once_lem slash (slash ∷ d ∷ p))
  where
    at_part :
        (a b : Bytes)
        → rsplit_once slash (slash ∷ d ∷ p) ≡ some (a, b)
        → slash ∷ d ∷ p ≡ a ++ slash ∷ b
        → NoSlash b
        → Backs
            (next_back (state (slash ∷ d ∷ p) true))
            (pop_back (view (state (slash ∷ d ∷ p) true)))
    at_part [] b s e n =
        let same : b ≡ d ∷ p = cc e in
        back_under_root d p (subst NoSlash same n) (s ∙ ap (λ x. some ([], x)) same)
    at_part (x ∷ a) b s e n =
        let (o, vw, t) = before_last (slash ∷ d ∷ p) x a b true e n v in
        (
          trim_trailing_slashes (state (x ∷ a) true),
          rw (next_back, s) (ap (λ o. done (o, trim_trailing_slashes (state (x ∷ a) true))) o),
          vw,
          t,
        )

    by_last :
        ((a : Bytes) × (b : Bytes) × (rsplit_once slash (slash ∷ d ∷ p) ≡ some (a, b))
            × (slash ∷ d ∷ p ≡ a ++ slash ∷ b)
            × NoSlash b)
          ⊎ ((rsplit_once slash (slash ∷ d ∷ p) ≡ none) × NoSlash (slash ∷ d ∷ p))
        → Backs
            (next_back (state (slash ∷ d ∷ p) true))
            (pop_back (view (state (slash ∷ d ∷ p) true)))
    by_last (inl (a, b, s, e, n)) = at_part a b s e n
    by_last (inr (s, n)) = absurd (n.0 refl)

back_relative :
    (c : ℕ) (p : Bytes)
    → IsTrimmed (state (c ∷ p) false)
    → Backs (next_back (state (c ∷ p) false)) (pop_back (view (state (c ∷ p) false)))
unfolding next_back view starts_slash trim_trailing_slashes trim_rounds
back_relative c p v = by_last (rsplit_once_lem slash (c ∷ p))
  where
    at_part :
        (a b : Bytes)
        → rsplit_once slash (c ∷ p) ≡ some (a, b)
        → c ∷ p ≡ a ++ slash ∷ b
        → NoSlash b
        → Backs (next_back (state (c ∷ p) false)) (pop_back (view (state (c ∷ p) false)))
    at_part [] b s e n = absurd (cc (sym v.root ∙ ap starts_slash e))
    at_part (x ∷ a) b s e n =
        let (o, vw, t) = before_last (c ∷ p) x a b false e n v in
        (
          trim_trailing_slashes (state (x ∷ a) false),
          rw (next_back, s) (ap (λ o. done (o, trim_trailing_slashes (state (x ∷ a) false))) o),
          vw,
          t,
        )

    by_last :
        ((a : Bytes) × (b : Bytes) × (rsplit_once slash (c ∷ p) ≡ some (a, b))
            × (c ∷ p ≡ a ++ slash ∷ b)
            × NoSlash b)
          ⊎ ((rsplit_once slash (c ∷ p) ≡ none) × NoSlash (c ∷ p))
        → Backs (next_back (state (c ∷ p) false)) (pop_back (view (state (c ∷ p) false)))
    by_last (inl (a, b, s, e, n)) = at_part a b s e n
    by_last (inr (s, n)) = rw (segments-NoSlash c p n) (
      state [] false,
      rw (next_back, s) (ap (λ o. done (o, state [] false)) (component-as_component c p)),
      view_empty,
      empty_IsTrimmed,
    )

pub next_back-Backs :
    (p : Bytes) (r : Bool)
    → IsTrimmed (state p r)
    → Backs (next_back (state p r)) (pop_back (view (state p r)))
unfolding starts_slash
next_back-Backs [] true v = absurd (cc v.root)
next_back-Backs [] false v = back_empty
next_back-Backs (c ∷ p) false v = back_relative c p v
next_back-Backs (c ∷ p) true v =
    subst
      (λ d.
        IsTrimmed (state (d ∷ p) true)
        → Backs (next_back (state (d ∷ p) true)) (pop_back (view (state (d ∷ p) true))))
      (sym (==→eq c slash v.root)) (at_root p) v
  where
    at_root :
        (p : Bytes)
        → IsTrimmed (state (slash ∷ p) true)
        → Backs (next_back (state (slash ∷ p) true)) (pop_back (view (state (slash ∷ p) true)))
    at_root [] v = back_root
    at_root (d ∷ p) v = back_slash d p v
