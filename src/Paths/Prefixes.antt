-- ===== src/Paths/Prefixes.antt =====
-- What a path starts and ends with (`Path::strip_prefix`, `Path::starts_with` and `Path::ends_with`
-- of crates/common/ov6_types/src/path/mod.rs).
use ov.Prelude.{
  ◌<◌, ◌≡◌, refl, subst, sym, ap, ◌∙◌, ◌≢◌, ◌⊎◌, inl, inr, true, false, Option, List, [], ◌∷◌, ◌++◌,
  arith, length, length-append, Run, done,
}
use mathlib.Core.List.{reverse, reverse-append, reverse-reverse}
use ov.Paths.Slices.{Bytes}
use ov.Paths.Components.{Component, Components, components, next_back}
use ov.Paths.Segments.{components_of}
use ov.Paths.Front.{IsTrimmed, view, pop_front}
use ov.Paths.Back.{pop_back, pop_back-snoc, components-view}
use ov.Paths.Ends.{next_back-Backs}
use ov.Paths.Path.{iter_after, rounds, ends_with}
use ov.Paths.Prefix.{After, iter_after-After, length-components_of}

abbrev Steps :
    (Components → Run (Option Component × Components)) → (Components → List Component) → Type 0
Steps step items =
    (c : Components)
    → IsTrimmed c
    → (c' : Components) × (step c ≡ done ((pop_front (items c)).0, c'))
      × (items c' ≡ (pop_front (items c)).1)
      × IsTrimmed c'

-- The items of the reversed iterator.
abbrev backward_view : Components → List Component
backward_view c = reverse (view c)

pop_back-reverse :
    (xs : List Component)
    → ((pop_front (reverse xs)).0 ≡ (pop_back xs).0)
      × ((pop_front (reverse xs)).1 ≡ reverse (pop_back xs).1)
pop_back-reverse xs =
    subst
      (λ ys.
        ((pop_front (reverse ys)).0 ≡ (pop_back ys).0)
        × ((pop_front (reverse ys)).1 ≡ reverse (pop_back ys).1))
      (reverse-reverse xs) (of_reverse (reverse xs))
  where
    of_reverse :
        (zs : List Component)
        → ((pop_front (reverse (reverse zs))).0 ≡ (pop_back (reverse zs)).0)
          × ((pop_front (reverse (reverse zs))).1 ≡ reverse (pop_back (reverse zs)).1)
    of_reverse [] = (refl, refl)
    of_reverse (z ∷ zs) =
        rw
          (
            reverse-append (z ∷ []) zs,
            pop_back-snoc (reverse zs) z,
            reverse-append (reverse zs) (z ∷ []),
          )
          (refl, refl)

next_back-Steps : Steps next_back backward_view
next_back-Steps c t =
    let (c', run, vw, t') = next_back-Backs c.path c.has_root_dir t in
    let (first, rest) = pop_back-reverse (view c) in
    (c', run ∙ ap (λ x. done (x, c')) (sym first), ap reverse vw ∙ sym rest, t')

length-reverse : (xs : List Component) → length (reverse xs) ≡ length xs
length-reverse [] = refl
length-reverse (x ∷ xs) =
    ap length (reverse-append (x ∷ []) xs)
    ∙ omega (arith, length-append (reverse xs) (x ∷ []), length-reverse xs)

reverse-prefix : (xs ys zs : List Component) → reverse xs ≡ reverse ys ++ zs → xs ≡ reverse zs ++ ys
reverse-prefix xs ys zs e =
    sym (reverse-reverse xs)
    ∙ ap reverse e
    ∙ reverse-append (reverse ys) zs
    ∙ ap (λ r. reverse zs ++ r) (reverse-reverse ys)

-- `ends_with` is true exactly where the components of the child are the last ones of the path, and
-- false where they are not. No call panics.
pub ends_with_lem :
    (p child : Bytes)
    → ((ends_with p child ≡ done true)
        × (zs : List Component) × (components_of p ≡ zs ++ components_of child))
      ⊎ ((ends_with p child ≡ done false)
          × ((zs : List Component) → components_of p ≢ zs ++ components_of child))
unfolding ends_with
ends_with_lem p child =
    let (tp, vp) = components-view p in
    let (tb, vb) = components-view child in
    let (result, run, a) =
      iter_after-After next_back backward_view IsTrimmed next_back-Steps (rounds child)
        (components p) (components child) tp tb
        (subst (λ n. n < rounds child) (sym (length-reverse (view (components child))))
          (subst (λ xs. length xs < rounds child) (sym vb) (length-components_of child))) in
    at_result result run (
      subst
        (λ xs.
          After next_back backward_view IsTrimmed next_back-Steps (reverse xs)
            (reverse (components_of child)) result)
        vp
        (subst
          (λ ys.
            After next_back backward_view IsTrimmed next_back-Steps (reverse (view (components p)))
              (reverse ys) result)
          vb a))
  where
    at_result :
        (result : Option (Option Components))
        → iter_after (rounds child) next_back (components p) (components child) ≡ done result
        → After next_back backward_view IsTrimmed next_back-Steps
            (reverse (components_of p))
            (reverse (components_of child))
            result
        → ((ends_with p child ≡ done true)
            × (zs : List Component) × (components_of p ≡ zs ++ components_of child))
          ⊎ ((ends_with p child ≡ done false)
              × ((zs : List Component) → components_of p ≢ zs ++ components_of child))
    at_result result run (inl (c, er, t, e)) = inl (
      rw (ends_with, run, er),
      view c,
      reverse-prefix (components_of p) (components_of child) (reverse (view c)) e
          ∙ ap (λ r. r ++ components_of child) (reverse-reverse (view c)),
    )
    at_result result run (inr (er, n)) = inr (
      rw (ends_with, run, er),
      λ zs. λ e. n (reverse zs) (ap reverse e ∙ reverse-append zs (components_of child)),
    )
