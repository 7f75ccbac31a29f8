-- ===== src/Paths/Extension.antt =====
-- The stem and the extension of a file name (`rsplit_file_at_dot`, `split_file_at_dot` and their
-- callers in crates/common/ov6_types/src/path/mod.rs).
use ov.Prelude.{
  ℕ, ◌≡◌, refl, ◌≢◌, ◌⊎◌, inl, inr, Bool, true, false, Option, none, some, [], ◌∷◌, ◌++◌, Run, done,
  panic, if◌then◌else◌, ◌>>=◌,
}
use ov.Paths.Slices.{Bytes, split_once, rsplit_once, rsplit_once_lem, Lacks, bytes_eq}
use ov.Paths.Components.{dot}
use ov.Paths.Path.{file_name}
use ov.Paths.Prefix.{bytes_eq→eq}

abbrev dots : Bytes
dots = dot ∷ dot ∷ []

-- The two parts that the reversed split yields, the first one last.
abbrev pub last_parts : Bytes → Option (Bytes × Bytes) → Option Bytes × Option Bytes
last_parts file (some (before, after)) = (some before, some after)
last_parts file none = (none, some file)

-- `before == Some(b"")`
abbrev pub unless_hidden : Bytes → Option Bytes × Option Bytes → Option Bytes × Option Bytes
unless_hidden file (some [], after) = (some file, none)
unless_hidden file (some (c ∷ before), after) = (some (c ∷ before), after)
unless_hidden file (none, after) = (none, after)

unfoldable pub rsplit_file_at_dot : Bytes → Option Bytes × Option Bytes
unfolding rsplit_once
rsplit_file_at_dot file =
    if bytes_eq file dots
    then (some file, none)
    else unless_hidden file (last_parts file (rsplit_once dot file))

abbrev pub first_parts : ℕ → Bytes → Option (Bytes × Bytes) → Bytes × Option Bytes
first_parts c rest (some (before, after)) = (c ∷ before, some after)
first_parts c rest none = (c ∷ rest, none)

-- `slice[1..]` panics if there is no byte.
unfoldable pub split_file_at_dot : Bytes → Run (Bytes × Option Bytes)
unfolding split_once
split_file_at_dot [] = panic
split_file_at_dot (c ∷ rest) =
    if bytes_eq (c ∷ rest) dots
    then done (c ∷ rest, none)
    else done (first_parts c rest (split_once dot rest))

-- `before.or(after)` and `before.and(after)` of a name, if there is one.
abbrev pub stem_of : Option Bytes × Option Bytes → Option Bytes
stem_of (some before, after) = some before
stem_of (none, after) = after

abbrev pub extension_of : Option Bytes × Option Bytes → Option Bytes
extension_of (some before, after) = after
extension_of (none, after) = none

abbrev pub of_name : (Option Bytes × Option Bytes → Option Bytes) → Option Bytes → Option Bytes
of_name part none = none
of_name part (some file) = part (rsplit_file_at_dot file)

unfoldable pub file_stem : Bytes → Run (Option Bytes)
unfolding file_name rsplit_file_at_dot
file_stem path = do name ← file_name path; done (of_name stem_of name)

unfoldable pub extension : Bytes → Run (Option Bytes)
unfolding file_name rsplit_file_at_dot
extension path = do name ← file_name path; done (of_name extension_of name)

abbrev pub prefix_of : Option Bytes → Run (Option Bytes)
prefix_of none = done none
prefix_of (some file) = do parts ← split_file_at_dot file; done (some parts.0)

unfoldable pub file_prefix : Bytes → Run (Option Bytes)
unfolding file_name split_file_at_dot
file_prefix path = do name ← file_name path; prefix_of name

-- The names that have no extension.
abbrev pub IsWhole : Bytes → Type 0
IsWhole file =
    (file ≡ dots) ⊎ Lacks dot file ⊎ ((rest : Bytes) × (file ≡ dot ∷ rest) × Lacks dot rest)

-- What the two parts of a name are.
abbrev pub Parts : Bytes → Option Bytes × Option Bytes → Type 0
Parts file r =
    (IsWhole file × (stem_of r ≡ some file) × (extension_of r ≡ none))
    ⊎ ((stem : Bytes) × (ext : Bytes) × (stem_of r ≡ some stem)
        × (extension_of r ≡ some ext)
        × (file ≡ stem ++ dot ∷ ext)
        × (stem ≢ [])
        × Lacks dot ext)

rsplit_file_at_dot-Parts : (file : Bytes) → Parts file (rsplit_file_at_dot file)
unfolding rsplit_file_at_dot
rsplit_file_at_dot-Parts file = by_dots (bytes_eq file dots) refl (rsplit_once_lem dot file)
  where
    split_at :
        (a b : Bytes)
        → file ≡ a ++ dot ∷ b
        → Lacks dot b
        → Parts file (unless_hidden file (some a, some b))
    split_at [] b e n = inl (inr (inr (b, e, n)), refl, refl)
    split_at (c ∷ a) b e n = inr (c ∷ a, b, refl, refl, e, (λ h. absurd (cc h)), n)

    by_dots :
        (d : Bool)
        → bytes_eq file dots ≡ d
        → ((a : Bytes) × (b : Bytes) × (rsplit_once dot file ≡ some (a, b))
            × (file ≡ a ++ dot ∷ b)
            × Lacks dot b)
          ⊎ ((rsplit_once dot file ≡ none) × Lacks dot file)
        → Parts file (rsplit_file_at_dot file)
    by_dots true ed cases =
        rw (rsplit_file_at_dot, ed) (inl (inl (bytes_eq→eq file dots ed), refl, refl))
    by_dots false ed (inl (a, b, s, e, n)) = rw (rsplit_file_at_dot, ed, s) (split_at a b e n)
    by_dots false ed (inr (s, n)) = rw (rsplit_file_at_dot, ed, s) (inl (inr (inl n), refl, refl))

-- Of a path with a file name: if the name is `..`, or has no dot or none but its first byte, the stem
-- is the name and there is no extension. Any other name is its stem, which is not empty, a dot and
-- its extension, in which there is no dot.
pub file_stem-extension :
    (path file : Bytes)
    → file_name path ≡ done (some file)
    → (IsWhole file × (file_stem path ≡ done (some file)) × (extension path ≡ done none))
      ⊎ ((stem : Bytes) × (ext : Bytes) × (file_stem path ≡ done (some stem))
          × (extension path ≡ done (some ext))
          × (file ≡ stem ++ dot ∷ ext)
          × (stem ≢ [])
          × Lacks dot ext)
unfolding file_stem extension
file_stem-extension path file named = joined (rsplit_file_at_dot-Parts file)
  where
    joined :
        Parts file (rsplit_file_at_dot file)
        → (IsWhole file × (file_stem path ≡ done (some file)) × (extension path ≡ done none))
          ⊎ ((stem : Bytes) × (ext : Bytes) × (file_stem path ≡ done (some stem))
              × (extension path ≡ done (some ext))
              × (file ≡ stem ++ dot ∷ ext)
              × (stem ≢ [])
              × Lacks dot ext)
    joined (inl (w, s, x)) = inl (w, rw (file_stem, named, s), rw (extension, named, x))
    joined (inr (stem, ext, s, x, e, ne, n)) =
        inr (stem, ext, rw (file_stem, named, s), rw (extension, named, x), e, ne, n)
