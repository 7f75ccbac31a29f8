-- ===== src/Paths/Segments.antt =====
-- The plain account of the components of a path: its parts between separators, the empty ones left
-- out, after the root if it starts with a separator.
use ov.Prelude.{
  ℕ_discrete, ℕ, ◌≡◌, refl, subst, sym, ap, ◌∙◌, ◌≢◌, inl, inr, Bool, true, false, some, List, [],
  ◌∷◌, ◌++◌, map, arith, ◌==◌, if◌then◌else◌, ==_ne, Bool-cases,
}
use ov.Paths.Slices.{Bytes, slash, starts_slash, bytes_eq, NoSlash}
use ov.Paths.Components.{
  Component, root_dir, cur_dir, parent_dir, normal, component, dot, skip_slashes,
}

abbrev pub grow : ℕ → List Bytes → List Bytes
grow c [] = (c ∷ []) ∷ []
grow c (s ∷ ss) = (c ∷ s) ∷ ss

-- The parts between the separators, of which there is one at least.
unfoldable pub parts : Bytes → List Bytes
parts [] = [] ∷ []
parts (c ∷ p) = let rest = parts p in if c == slash then [] ∷ rest else grow c rest

abbrev pub non_empty : List Bytes → List Bytes
non_empty [] = []
non_empty ([] ∷ ss) = non_empty ss
non_empty ((c ∷ s) ∷ ss) = (c ∷ s) ∷ non_empty ss

unfoldable pub segments : Bytes → List Bytes
unfolding parts
segments p = non_empty (parts p)

abbrev pub as_component : Bytes → Component
as_component s =
    if bytes_eq s (dot ∷ dot ∷ [])
    then parent_dir
    else if bytes_eq s (dot ∷ [])
    then cur_dir
    else normal s

abbrev pub root_of : Bool → List Component
root_of true = root_dir ∷ []
root_of false = []

unfoldable pub components_of : Bytes → List Component
unfolding segments starts_slash bytes_eq
components_of p = root_of (starts_slash p) ++ map as_component (segments p)

IsSome : List Bytes → Type 0
IsSome ss = (s : Bytes) × (rest : List Bytes) × (ss ≡ s ∷ rest)

parts-IsSome : (p : Bytes) → IsSome (parts p)
unfolding parts IsSome
parts-IsSome [] = ([], [], refl)
parts-IsSome (c ∷ p) = elim (Bool-cases (c == slash)) [
  | inl e ↦ ([], parts p, rw (parts, e))
  | inr e ↦ let (s, rest, eq) = parts-IsSome p in (c ∷ s, rest, rw (parts, e, eq))
]

grow-append : (c : ℕ) (ss ts : List Bytes) → IsSome ss → grow c (ss ++ ts) ≡ grow c ss ++ ts
unfolding IsSome
grow-append c [] ts (s, rest, e) = absurd (cc e)
grow-append c (s ∷ ss) ts h = refl

parts-slash : (a b : Bytes) → parts (a ++ slash ∷ b) ≡ parts a ++ parts b
unfolding parts
parts-slash [] b = refl
parts-slash (c ∷ a) b = elim (Bool-cases (c == slash)) [
  | inl e ↦ rw (parts, e, parts-slash a b)
  | inr e ↦ rw (parts, e, parts-slash a b) (grow-append c (parts a) (parts b) (parts-IsSome a))
]

non_empty-append : (ss ts : List Bytes) → non_empty (ss ++ ts) ≡ non_empty ss ++ non_empty ts
non_empty-append [] ts = refl
non_empty-append ([] ∷ ss) ts = non_empty-append ss ts
non_empty-append ((c ∷ s) ∷ ss) ts = ap (λ r. (c ∷ s) ∷ r) (non_empty-append ss ts)

pub segments-slash : (a b : Bytes) → segments (a ++ slash ∷ b) ≡ segments a ++ segments b
unfolding segments
segments-slash a b = rw (segments, parts-slash a b) (non_empty-append (parts a) (parts b))

parts-NoSlash : (p : Bytes) → NoSlash p → parts p ≡ p ∷ []
unfolding parts
parts-NoSlash [] h = refl
parts-NoSlash (c ∷ p) h = rw (parts, ==_ne c slash h.0, parts-NoSlash p h.1)

pub segments-NoSlash : (c : ℕ) (p : Bytes) → NoSlash (c ∷ p) → segments (c ∷ p) ≡ (c ∷ p) ∷ []
unfolding segments
segments-NoSlash c p h = rw (segments, parts-NoSlash (c ∷ p) h)

pub segments-nil : segments [] ≡ []
unfolding segments parts
segments-nil = refl

pub segments-slash_first : (p : Bytes) → segments (slash ∷ p) ≡ segments p
unfolding segments parts
segments-slash_first p = refl

pub skip_slashes-slash : (p : Bytes) → skip_slashes (slash ∷ p) ≡ skip_slashes p
unfolding skip_slashes
skip_slashes-slash p = refl

pub skip_slashes_ne : (c : ℕ) (p : Bytes) → c ≢ slash → skip_slashes (c ∷ p) ≡ c ∷ p
unfolding skip_slashes
skip_slashes_ne c p ne = rw (skip_slashes, ==_ne c slash ne)

pub segments-skip_slashes : (p : Bytes) → segments (skip_slashes p) ≡ segments p
unfolding skip_slashes
segments-skip_slashes [] = refl
segments-skip_slashes (c ∷ p) = by_first (ℕ_discrete c slash) (segments-skip_slashes p)
  where
    by_first :
        Dec (c ≡ slash)
        → segments (skip_slashes p) ≡ segments p
        → segments (skip_slashes (c ∷ p)) ≡ segments (c ∷ p)
    by_first (yes e) ih =
        subst (λ d. segments (skip_slashes (d ∷ p)) ≡ segments (d ∷ p)) (sym e)
          (ap segments (skip_slashes-slash p) ∙ ih ∙ sym (segments-slash_first p))
    by_first (no ne) ih = ap segments (skip_slashes_ne c p ne)

pub component-as_component : (c : ℕ) (s : Bytes) → component (c ∷ s) ≡ some (as_component (c ∷ s))
unfolding component bytes_eq
component-as_component c s = ground arith
