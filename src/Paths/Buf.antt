-- ===== src/Paths/Buf.antt =====
-- Owned paths: adding a component at the end, and taking it away (`PathBuf` of
-- crates/common/ov6_types/src/path/path_buf.rs, `Path::parent` of path/mod.rs beside it).
use ov.Prelude.{
  ℕ, ◌≡◌, refl, sym, ap, ◌∙◌, ◌≢◌, ◌⊎◌, inl, inr, true, false, Option, none, some, [], ◌∷◌, ◌++◌,
  map,
}
use mathlib.Core.List.{append_assoc, append-nil, map-append}
use ov.Paths.Slices.{Bytes, slash, starts_slash, strip_suffix, strip_suffix_lem}
use ov.Paths.Components.{root_dir}
use ov.Paths.Segments.{
  components_of, segments, as_component, root_of, segments-slash, segments-nil,
  segments-slash_first,
}
use ov.Paths.Path.{is_absolute, push}

segments-push :
    (inner path : Bytes)
    → is_absolute path ≡ false
    → segments (push inner path) ≡ segments inner ++ segments path
unfolding push
segments-push inner path a = by_end (strip_suffix_lem inner)
  where
    by_end :
        ((q : Bytes) × (strip_suffix inner ≡ some q) × (inner ≡ q ++ slash ∷ []))
          ⊎ ((strip_suffix inner ≡ none) × ((q : Bytes) → inner ≢ q ++ slash ∷ []))
        → segments (push inner path) ≡ segments inner ++ segments path
    by_end (inl (q, s, e)) =
        let front : segments inner ≡ segments q =
          ap segments e
          ∙ segments-slash q []
          ∙ ap (λ ss. segments q ++ ss) segments-nil
          ∙ append-nil (segments q) in
        rw (push, a, s)
          (ap (λ i. segments (i ++ path)) e
            ∙ ap segments (append_assoc q (slash ∷ []) path)
            ∙ segments-slash q path
            ∙ ap (λ ss. ss ++ segments path) (sym front))
    by_end (inr (s, n)) =
        rw (push, a, s)
          (ap segments (append_assoc inner (slash ∷ []) path) ∙ segments-slash inner path)

starts_slash-push :
    (c : ℕ) (inner path : Bytes)
    → is_absolute path ≡ false
    → starts_slash (push (c ∷ inner) path) ≡ starts_slash (c ∷ inner)
unfolding push starts_slash
starts_slash-push c inner path a = by_end (strip_suffix (c ∷ inner)) refl
  where
    by_end :
        (o : Option Bytes)
        → strip_suffix (c ∷ inner) ≡ o
        → starts_slash (push (c ∷ inner) path) ≡ starts_slash (c ∷ inner)
    by_end (some q) s = rw (push, a, s)
    by_end none s = rw (push, a, s)

components_of-push :
    (c : ℕ) (inner path : Bytes)
    → is_absolute path ≡ false
    → components_of (push (c ∷ inner) path)
      ≡ components_of (c ∷ inner) ++ map as_component (segments path)
unfolding components_of
components_of-push c inner path a =
    rw
      (
        starts_slash-push c inner path a,
        segments-push (c ∷ inner) path a,
        map-append as_component (segments (c ∷ inner)) (segments path),
      )
      (sym (
        append_assoc (root_of (starts_slash (c ∷ inner))) (map as_component (segments (c ∷ inner)))
          (map as_component (segments path))))

pub components_of-relative :
    (path : Bytes)
    → is_absolute path ≡ false
    → components_of path ≡ map as_component (segments path)
unfolding components_of is_absolute
components_of-relative path a = rw (components_of, a)

push_relative :
    (inner path : Bytes)
    → is_absolute path ≡ false
    → inner ≢ []
    → components_of (push inner path) ≡ components_of inner ++ components_of path
push_relative [] path a ne = absurd (ne refl)
push_relative (c ∷ inner) path a ne =
    components_of-push c inner path a
    ∙ ap (λ cs. components_of (c ∷ inner) ++ cs) (sym (components_of-relative path a))

components_of-slash :
    (path : Bytes) → components_of (slash ∷ path) ≡ root_dir ∷ map as_component (segments path)
unfolding components_of starts_slash
components_of-slash path = ap (λ ss. root_dir ∷ map as_component ss) (segments-slash_first path)

push_empty : (path : Bytes) → is_absolute path ≡ false → push [] path ≡ slash ∷ path
unfolding push strip_suffix
push_empty path a = rw (push, a)

-- An absolute path replaces the path that it is pushed on; a relative path puts its components after
-- those of a path that is not empty; and pushed on the empty path, a relative path becomes absolute,
-- with the root before its components.
pub push_lem :
    (inner path : Bytes)
    → (is_absolute path ≡ true → push inner path ≡ path)
      × (is_absolute path ≡ false
          → inner ≢ []
          → components_of (push inner path) ≡ components_of inner ++ components_of path)
      × (is_absolute path ≡ false → components_of (push [] path) ≡ root_dir ∷ components_of path)
unfolding push
push_lem inner path = (
  (λ a. rw (push, a)),
  push_relative inner path,
  λ a.
      ap components_of (push_empty path a)
      ∙ components_of-slash path
      ∙ ap (λ cs. root_dir ∷ cs) (sym (components_of-relative path a)),
)
