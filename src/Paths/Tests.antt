-- ===== src/Paths/Tests.antt =====
-- Paths at concrete bytes.
use ov.Prelude.{arith, ◌≡◌, ◌≢◌, ◌⊎◌, refl, some, none, true, false, List, [], ◌∷◌, ◌++◌, done}
use ov.Paths.Slices.{Bytes, slash}
use ov.Paths.Components.{Component, root_dir, cur_dir, normal, components}
use ov.Paths.Segments.{components_of}
use ov.Paths.Calls.{front, back, calls, takes, calls-components}
use ov.Paths.Path.{is_absolute, push, pop, set_file_name, ends_with}
use ov.Paths.Buf.{push_lem}
use ov.Paths.Slices.{Lacks}
use ov.Paths.Path.{file_name}
use ov.Paths.Extension.{IsWhole, file_stem, file_prefix, extension, file_stem-extension}
use ov.Paths.Pop.{pop-push}
use ov.Paths.Prefixes.{ends_with_lem}

-- `//a/./b/`
abbrev rooted : Bytes
rooted = slash ∷ slash ∷ b'a' ∷ slash ∷ 46 ∷ slash ∷ b'b' ∷ slash ∷ []

components_of-rooted :
    components_of rooted ≡ root_dir ∷ normal (b'a' ∷ []) ∷ cur_dir ∷ normal (b'b' ∷ []) ∷ []
unfolding components_of
components_of-rooted = refl

calls-rooted :
    calls (front ∷ back ∷ back ∷ front ∷ back ∷ []) (components rooted)
    ≡ done (
        some root_dir
        ∷ some (normal (b'b' ∷ []))
        ∷ some cur_dir
        ∷ some (normal (b'a' ∷ []))
        ∷ none
        ∷ [])
unfolding calls components
calls-rooted = refl

-- A name that is set on a relative path of one component becomes absolute.
set_file_name_one : set_file_name (b'a' ∷ []) (b'b' ∷ []) ≡ done (slash ∷ b'b' ∷ [])
unfolding set_file_name
set_file_name_one = refl

calls-components_example :
    calls (front ∷ back ∷ back ∷ []) (components rooted)
    ≡ done (takes (front ∷ back ∷ back ∷ []) (components_of rooted))
calls-components_example = calls-components (front ∷ back ∷ back ∷ []) rooted

push_lem_example :
    (is_absolute (b'c' ∷ []) ≡ true → push rooted (b'c' ∷ []) ≡ b'c' ∷ [])
    × (is_absolute (b'c' ∷ []) ≡ false
        → rooted ≢ []
        → components_of (push rooted (b'c' ∷ []))
          ≡ components_of rooted ++ components_of (b'c' ∷ []))
    × (is_absolute (b'c' ∷ []) ≡ false
        → components_of (push [] (b'c' ∷ [])) ≡ root_dir ∷ components_of (b'c' ∷ []))
push_lem_example = push_lem rooted (b'c' ∷ [])

pop-push_example :
    (q : Bytes) × (pop (push rooted (b'c' ∷ [])) ≡ done (true, q))
    × (components_of q ≡ components_of rooted)
pop-push_example = pop-push rooted b'c' [] (λ e. cc e) (omega arith, tt)

ends_with_lem_example :
    ((ends_with rooted (b'b' ∷ []) ≡ done true)
      × (zs : List Component) × (components_of rooted ≡ zs ++ components_of (b'b' ∷ [])))
    ⊎ ((ends_with rooted (b'b' ∷ []) ≡ done false)
        × ((zs : List Component) → components_of rooted ≢ zs ++ components_of (b'b' ∷ [])))
ends_with_lem_example = ends_with_lem rooted (b'b' ∷ [])

-- `a.b/c.d.e`
abbrev dotted : Bytes
dotted = b'a' ∷ 46 ∷ b'b' ∷ slash ∷ b'c' ∷ 46 ∷ b'd' ∷ 46 ∷ b'e' ∷ []

abbrev dotted_name : Bytes
dotted_name = b'c' ∷ 46 ∷ b'd' ∷ 46 ∷ b'e' ∷ []

dotted_named : file_name dotted ≡ done (some dotted_name)
unfolding file_name
dotted_named = refl

dotted_prefix : file_prefix dotted ≡ done (some (b'c' ∷ []))
unfolding file_prefix
dotted_prefix = refl

file_stem-extension_example :
    (IsWhole dotted_name
      × (file_stem dotted ≡ done (some dotted_name))
      × (extension dotted ≡ done none))
    ⊎ ((stem : Bytes) × (ext : Bytes) × (file_stem dotted ≡ done (some stem))
        × (extension dotted ≡ done (some ext))
        × (dotted_name ≡ stem ++ 46 ∷ ext)
        × (stem ≢ [])
        × Lacks 46 ext)
file_stem-extension_example = file_stem-extension dotted dotted_name dotted_named
