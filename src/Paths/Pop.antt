-- ===== src/Paths/Pop.antt =====
-- Taking the last component away (`PathBuf::pop` of
-- crates/common/ov6_types/src/path/path_buf.rs).
use ov.Prelude.{
  ℕ, ◌≡◌, refl, subst, ap, ◌∙◌, ◌≢◌, Bool, true, false, Option, none, some, List, [], ◌∷◌, ◌++◌,
  map, length, take, done, if◌then◌else◌, ==_ne,
}
use ov.Paths.Slices.{Bytes, slash, starts_slash, bytes_eq, NoSlash}
use ov.Paths.Components.{Component, root_dir, cur_dir, parent_dir, normal}
use ov.Paths.Segments.{components_of, segments-NoSlash, as_component}
use ov.Paths.Back.{pop_back, pop_back-snoc}
use ov.Paths.Buf.{push_lem, components_of-relative}
use ov.Paths.Path.{push, is_absolute, pop, truncate_at}
use ov.Paths.Leaves.{ParentOf, parent_lem, take-append}

-- What `pop` leaves of a path whose last component and other components are given.
abbrev pub Popped : Bytes → Option Component × List Component → Bool × Bytes → Type 0
Popped p (none, xs) result = result ≡ (false, p)
Popped p (some root_dir, xs) result = result ≡ (false, p)
Popped p (some c, xs) result = (result.0 ≡ true) × (components_of result.1 ≡ xs)

-- `pop` takes the last component away and returns `true`, and leaves a path with no component but
-- the root as it is and returns `false`; it does not panic.
pub pop_lem :
    (p : Bytes)
    → (result : Bool × Bytes) × (pop p ≡ done result) × Popped p (pop_back (components_of p)) result
unfolding pop
pop_lem p =
    let (r, run, h) = parent_lem p in
    (
      truncate_at p r,
      rw (pop, run),
      at_last (pop_back (components_of p)).0 (pop_back (components_of p)).1 r h,
    )
  where
    shorter :
        (r : Option Bytes) (xs : List Component)
        → (q : Bytes) × (r ≡ some q) × (components_of q ≡ xs) × (x : Bytes) × (p ≡ q ++ x)
        → ((truncate_at p r).0 ≡ true) × (components_of (truncate_at p r).1 ≡ xs)
    shorter r xs (q, er, ec, x, ex) =
        rw er (refl, ap components_of (ap (take (length q)) ex ∙ take-append q x) ∙ ec)

    at_last :
        (o : Option Component) (xs : List Component) (r : Option Bytes)
        → ParentOf p (o, xs) r
        → Popped p (o, xs) (truncate_at p r)
    at_last none xs r h = rw h
    at_last (some root_dir) xs r h = rw h
    at_last (some cur_dir) xs r h = shorter r xs h
    at_last (some parent_dir) xs r h = shorter r xs h
    at_last (some (normal s)) xs r h = shorter r xs h

-- A component that `as_component` gives is never the root.
Popped-snoc :
    (p s : Bytes) (xs : List Component) (result : Bool × Bytes)
    → Popped p (some (as_component s), xs) result
    → (result.0 ≡ true) × (components_of result.1 ≡ xs)
Popped-snoc p s xs result h = by_tests (bytes_eq s (46 ∷ 46 ∷ [])) (bytes_eq s (46 ∷ [])) h
  where
    by_tests :
        (b d : Bool)
        → Popped p (some (if b then parent_dir else if d then cur_dir else normal s), xs) result
        → (result.0 ≡ true) × (components_of result.1 ≡ xs)
    by_tests true d h = h
    by_tests false true h = h
    by_tests false false h = h

-- A name pushed on a path that is not empty, and then popped, leaves the components of the path; the
-- name is not empty and has no separator in it.
pub pop-push :
    (inner : Bytes) (c : ℕ) (name : Bytes)
    → inner ≢ []
    → NoSlash (c ∷ name)
    → (q : Bytes) × (pop (push inner (c ∷ name)) ≡ done (true, q))
      × (components_of q ≡ components_of inner)
unfolding is_absolute starts_slash
pop-push inner c name ne n =
    let relative : is_absolute (c ∷ name) ≡ false = ==_ne c slash n.0 in
    let comps : components_of (push inner (c ∷ name))
        ≡ components_of inner ++ as_component (c ∷ name) ∷ [] =
      (push_lem inner (c ∷ name)).1 relative ne
      ∙ ap (λ cs. components_of inner ++ cs)
          (components_of-relative (c ∷ name) relative
            ∙ ap (map as_component) (segments-NoSlash c name n)) in
    let (result, run, h) = pop_lem (push inner (c ∷ name)) in
    let h' : Popped (push inner (c ∷ name)) (some (as_component (c ∷ name)), components_of inner)
        result =
      subst (λ x. Popped (push inner (c ∷ name)) x result)
        (ap pop_back comps ∙ pop_back-snoc (components_of inner) (as_component (c ∷ name))) h in
    let (popped, rest) =
      Popped-snoc (push inner (c ∷ name)) (c ∷ name) (components_of inner) result h' in
    (result.1, run ∙ ap (λ b. done (b, result.1)) popped, rest)
