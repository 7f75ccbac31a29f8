-- ===== src/Paths/Leaves.antt =====
-- Taking the last component away: the parent is a front part of the path (`Path::parent` of
-- crates/common/ov6_types/src/path/mod.rs, `PathBuf::pop` of path_buf.rs beside it).
use ov.Prelude.{
  ℕ, zero, suc, ◌≡◌, refl, subst, sym, ap, ◌∙◌, ◌≢◌, ◌⊎◌, inl, inr, Bool, true, false, ◌&&◌, ◌||◌,
  not, Option, none, some, List, [], ◌∷◌, ◌++◌, map, length, take, Run, done, panic, assert, ltb,
  if◌then◌else◌, ◌>>◌,
}
use mathlib.Core.List.{append_assoc, append-nil}
use ov.Paths.Slices.{
  Bytes, slash, starts_slash, strip_suffix, strip_suffix_lem, rsplit_once, rsplit_once_lem,
  bytes_eq, is_empty, NoSlash,
}
use ov.Paths.Components.{
  Component, root_dir, cur_dir, parent_dir, normal, Components, components, next_back, component,
  trim_rounds, trim_trailing_slashes, trim_leading_slashes, skip_slashes,
}
use ov.Paths.Segments.{components_of, segments, as_component, root_of}
use ov.Paths.Front.{IsTrimmed, view, state}
use ov.Paths.Back.{pop_back, components-view}
use ov.Paths.Ends.{next_back-Backs}
use ov.Paths.Path.{parent, parent_at}

-- The path of the state is a front part of `p`.
abbrev pub StartsAs : Bytes → Components → Type 0
StartsAs p c = (x : Bytes) × (p ≡ c.path ++ x)

pub trim_rounds-StartsAs :
    (fuel : ℕ) (p : Bytes) (r : Bool) → StartsAs p (trim_rounds fuel (state p r))
unfolding trim_rounds
trim_rounds-StartsAs zero p r = ([], sym (append-nil p))
trim_rounds-StartsAs (suc fuel) p r =
    at_test (not r || ltb 1 (length p)) refl (strip_suffix_lem p)
      (λ q. trim_rounds-StartsAs fuel q r)
  where
    at_test :
        (b : Bool)
        → (not r || ltb 1 (length p)) ≡ b
        → ((q : Bytes) × (strip_suffix p ≡ some q) × (p ≡ q ++ slash ∷ []))
          ⊎ ((strip_suffix p ≡ none) × ((q : Bytes) → p ≢ q ++ slash ∷ []))
        → ((q : Bytes) → StartsAs q (trim_rounds fuel (state q r)))
        → StartsAs p (trim_rounds (suc fuel) (state p r))
    at_test false e cases ih = rw (trim_rounds, e) ([], sym (append-nil p))
    at_test true e (inr (s, n)) ih = rw (trim_rounds, e, s) ([], sym (append-nil p))
    at_test true e (inl (q, s, eq)) ih =
        let (x, ex) = ih q in
        rw (trim_rounds, e, s)
          (
            x ++ slash ∷ [],
            eq
                ∙ ap (λ y. y ++ slash ∷ []) ex
                ∙ append_assoc (trim_rounds fuel (state q r)).path x (slash ∷ []),
          )

pub trim-StartsAs : (p y : Bytes) (r : Bool) → StartsAs (p ++ y) (trim_trailing_slashes (state p r))
unfolding trim_trailing_slashes
trim-StartsAs p y r =
    let (x, ex) = trim_rounds-StartsAs (length p) p r in
    (x ++ y, ap (λ z. z ++ y) ex ∙ append_assoc (trim_rounds (length p) (state p r)).path x y)

pub skip_slashes-relative : (p : Bytes) → starts_slash p ≡ false → skip_slashes p ≡ p
unfolding skip_slashes starts_slash
skip_slashes-relative [] e = refl
skip_slashes-relative (c ∷ p) e = rw (skip_slashes, e)

pub components-StartsAs : (p : Bytes) → StartsAs p (components p)
unfolding components trim_leading_slashes starts_slash
components-StartsAs p = by_root (starts_slash p) refl
  where
    whole : (r : Bool) → StartsAs p (trim_trailing_slashes (state p r))
    whole r =
        subst (λ y. StartsAs y (trim_trailing_slashes (state p r))) (append-nil p)
          (trim-StartsAs p [] r)

    by_root :
        (r : Bool)
        → starts_slash p ≡ r
        → StartsAs p (trim_trailing_slashes (trim_leading_slashes (state p r)))
    by_root true e = whole true
    by_root false e = rw (skip_slashes-relative p e) (whole false)

-- A run that does not panic leaves a front part of the path.
abbrev pub Leaves : Bytes → Run (Option Component × Components) → Type 0
Leaves p (done (o, c)) = StartsAs p c
Leaves p panic = Unit

pub take-StartsAs : (c : ℕ) (p : Bytes) → c ∷ p ≡ take 1 (c ∷ p) ++ p
take-StartsAs c p = refl

pub next_back-Leaves : (p : Bytes) (r : Bool) → Leaves p (next_back (state p r))
unfolding next_back starts_slash
next_back-Leaves [] true = ([], refl)
next_back-Leaves [] false = ([], refl)
next_back-Leaves (c ∷ p) r =
    by_root (r && bytes_eq (c ∷ p) (slash ∷ [])) refl (rsplit_once_lem slash (c ∷ p))
  where
    at_rest :
        (a b comp : Bytes) (e x : Bool)
        → c ∷ p ≡ a ++ b
        → starts_slash (c ∷ p) ≡ x
        → Leaves (c ∷ p) (
            if e
            then (do
              assert x
              done (component comp, trim_trailing_slashes (state (take 1 (c ∷ p)) r)))
            else done (component comp, trim_trailing_slashes (state a r)))
    at_rest a b comp true true eq ex = trim-StartsAs (c ∷ []) p r
    at_rest a b comp true false eq ex = tt
    at_rest a b comp false x eq ex =
        subst (λ y. StartsAs y (trim_trailing_slashes (state a r))) (sym eq) (trim-StartsAs a b r)

    by_root :
        (t : Bool)
        → (r && bytes_eq (c ∷ p) (slash ∷ [])) ≡ t
        → ((a : Bytes) × (b : Bytes) × (rsplit_once slash (c ∷ p) ≡ some (a, b))
            × (c ∷ p ≡ a ++ slash ∷ b)
            × NoSlash b)
          ⊎ ((rsplit_once slash (c ∷ p) ≡ none) × NoSlash (c ∷ p))
        → Leaves (c ∷ p) (next_back (state (c ∷ p) r))
    by_root true e cases = rw (next_back, e) (c ∷ p, refl)
    by_root false e (inl (a, b, s, eq, n)) =
        rw (next_back, e, s)
          (at_rest a (slash ∷ b) b (is_empty a && r) (starts_slash (c ∷ p)) eq refl)
    by_root false e (inr (s, n)) =
        rw (next_back, e, s) (at_rest [] (c ∷ p) (c ∷ p) r (starts_slash (c ∷ p)) refl refl)

-- The parent of a path whose last component and other components are given.
abbrev pub ParentOf : Bytes → Option Component × List Component → Option Bytes → Type 0
ParentOf p (none, xs) r = r ≡ none
ParentOf p (some root_dir, xs) r = r ≡ none
ParentOf p (some c, xs) r =
    (q : Bytes) × (r ≡ some q) × (components_of q ≡ xs) × (x : Bytes) × (p ≡ q ++ x)

pub components_of-view : (c : Components) → IsTrimmed c → components_of c.path ≡ view c
unfolding components_of view
components_of-view c t = ap (λ r. root_of r ++ map as_component (segments c.path)) t.root

-- The parent of a path is never computed with a panic. It is nothing for the empty path and for the
-- root; of any other path it is a front part of its bytes, whose components are those of the path
-- without the last.
pub parent_lem :
    (p : Bytes)
    → (r : Option Bytes) × (parent p ≡ done r) × ParentOf p (pop_back (components_of p)) r
unfolding parent
parent_lem p =
    let (t, vw) = components-view p in
    let c = components p in
    let (c', run, vw', t') = next_back-Backs c.path c.has_root_dir t in
    let front : StartsAs c.path c' =
      subst (Leaves c.path) run (next_back-Leaves c.path c.has_root_dir) in
    (
      parent_at ((pop_back (view c)).0, c'),
      rw (parent, run),
      subst (λ cs. ParentOf p (pop_back cs) (parent_at ((pop_back (view c)).0, c'))) vw
          (at_last c' (pop_back (view c)).0 (pop_back (view c)).1 (components_of-view c' t' ∙ vw')
            (joined (components p) c' (components-StartsAs p) front)),
    )
  where
    joined :
        (c c' : Components) → StartsAs p c → StartsAs c.path c' → (x : Bytes) × (p ≡ c'.path ++ x)
    joined c c' (x, ex) (y, ey) = (y ++ x, ex ∙ ap (λ z. z ++ x) ey ∙ append_assoc c'.path y x)

    at_last :
        (c' : Components) (o : Option Component) (xs : List Component)
        → components_of c'.path ≡ xs
        → (x : Bytes) × (p ≡ c'.path ++ x)
        → ParentOf p (o, xs) (parent_at (o, c'))
    at_last c' none xs e f = refl
    at_last c' (some root_dir) xs e f = refl
    at_last c' (some cur_dir) xs e f = (c'.path, refl, e, f.0, f.1)
    at_last c' (some parent_dir) xs e f = (c'.path, refl, e, f.0, f.1)
    at_last c' (some (normal s)) xs e f = (c'.path, refl, e, f.0, f.1)

pub take-append : (q x : Bytes) → take (length q) (q ++ x) ≡ q
take-append [] x = refl
take-append (c ∷ q) x = ap (λ r. c ∷ r) (take-append q x)
