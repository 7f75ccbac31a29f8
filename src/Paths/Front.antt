-- ===== src/Paths/Front.antt =====
-- The iteration over a path against a queue with two ends (`Components` of
-- crates/common/ov6_types/src/path/mod.rs): the state that the trimming keeps, and `next`.
use ov.Prelude.{
  ℕ, ◌≡◌, refl, subst, sym, ap, ◌∙◌, ◌≢◌, inl, inr, Bool, true, false, Option, none, some, List, [],
  ◌∷◌, ◌++◌, map, ◌==◌, ==→eq,
}
use mathlib.Core.List.{append_assoc}
use ov.Paths.Slices.{Bytes, slash, starts_slash, NoSlash, split_once_lem}
use ov.Paths.Components.{Component, component, Components, skip_slashes, trim_leading_slashes, next}
use ov.Paths.Segments.{
  segments, as_component, root_of, segments-slash, segments-NoSlash, segments-nil,
  segments-skip_slashes, segments-slash_first, component-as_component,
}

-- The root is at the front exactly if it is still to come, and only the root itself ends the path
-- with a separator.
pub record IsTrimmed (c : Components) : Type 0 where
  pub root : starts_slash c.path ≡ c.has_root_dir
  pub trimmed : (q : Bytes) → c.path ≡ q ++ slash ∷ [] → q ≡ []

-- The components that are left.
unfoldable pub view : Components → List Component
view c = root_of c.has_root_dir ++ map as_component (segments c.path)

abbrev pub pop_front {ℓ} : {A : Type ℓ} → List A → Option A × List A
pop_front [] = (none, [])
pop_front (x ∷ xs) = (some x, xs)

abbrev pub state : Bytes → Bool → Components
state p r = record { path = p; has_root_dir = r }

pub not_snoc {ℓ} : {A : Type ℓ} (q : List A) (x : A) → [] ≢ q ++ x ∷ []
not_snoc [] x e = absurd (cc e)
not_snoc (y ∷ q) x e = absurd (cc e)

pub append-eq-nil {ℓ} : {A : Type ℓ} (xs ys : List A) → xs ++ ys ≡ [] → ys ≡ []
append-eq-nil [] ys e = e
append-eq-nil (x ∷ xs) ys e = absurd (cc e)

pub starts_slash-skip_slashes : (p : Bytes) → starts_slash (skip_slashes p) ≡ false
unfolding starts_slash skip_slashes
starts_slash-skip_slashes [] = refl
starts_slash-skip_slashes (c ∷ p) = by_first (c == slash) refl (starts_slash-skip_slashes p)
  where
    by_first :
        (b : Bool)
        → (c == slash) ≡ b
        → starts_slash (skip_slashes p) ≡ false
        → starts_slash (skip_slashes (c ∷ p)) ≡ false
    by_first true e ih = rw (skip_slashes, e) ih
    by_first false e ih = rw (skip_slashes, e) e

-- What is skipped.
pub skip_slashes-append : (p : Bytes) → (x : Bytes) × (p ≡ x ++ skip_slashes p)
unfolding skip_slashes
skip_slashes-append [] = ([], refl)
skip_slashes-append (c ∷ p) = by_first (c == slash) refl (skip_slashes-append p)
  where
    by_first :
        (b : Bool)
        → (c == slash) ≡ b
        → (x : Bytes) × (p ≡ x ++ skip_slashes p)
        → (x : Bytes) × (c ∷ p ≡ x ++ skip_slashes (c ∷ p))
    by_first true e (x, ex) = (c ∷ x, rw (skip_slashes, e) (ap (λ q. c ∷ q) ex))
    by_first false e ih = ([], rw (skip_slashes, e))

-- After a front part is taken and the separators behind it skipped, the path is trimmed at its end.
skip_slashes-IsTrimmed :
    (a p : Bytes)
    → ((q : Bytes) → a ++ p ≡ q ++ slash ∷ [] → q ≡ [])
    → IsTrimmed (state (skip_slashes p) false)
skip_slashes-IsTrimmed a p h =
    let (x, ex) = skip_slashes-append p in
    record {
      root = starts_slash-skip_slashes p;
      trimmed = λ q e. append-eq-nil (a ++ x) q (
          h ((a ++ x) ++ q) (
            ap (λ r. a ++ r) (ex ∙ ap (λ r. x ++ r) e)
            ∙ sym (append_assoc a x (q ++ slash ∷ []))
            ∙ sym (append_assoc (a ++ x) q (slash ∷ []))));
    }

-- One call of `next` is one step of the queue.
abbrev pub Pops : Option Component × Components → Option Component × List Component → Type 0
Pops (o, c') (o', xs) = (o ≡ o') × (view c' ≡ xs) × IsTrimmed c'

next_front :
    (a b : Bytes) (c : ℕ) (p : Bytes)
    → c ∷ p ≡ a ++ slash ∷ b
    → NoSlash a
    → starts_slash (c ∷ p) ≡ false
    → IsTrimmed (state (c ∷ p) false)
    → Pops
        (component a, trim_leading_slashes (state b false))
        (pop_front (map as_component (segments (c ∷ p))))
unfolding starts_slash view trim_leading_slashes
next_front [] b c p e n ne v = absurd (cc (sym ne ∙ ap starts_slash e))
next_front (d ∷ a) b c p e n ne v =
    let segs : segments (c ∷ p) ≡ (d ∷ a) ∷ segments b =
      ap segments e
      ∙ segments-slash (d ∷ a) b
      ∙ ap (λ ss. ss ++ segments b) (segments-NoSlash d a n) in
    rw (segs) (
      component-as_component d a,
      ap (map as_component) (segments-skip_slashes b),
      skip_slashes-IsTrimmed ((d ∷ a) ++ slash ∷ []) b
          λ q eq. v.trimmed q (e ∙ sym (append_assoc (d ∷ a) (slash ∷ []) b) ∙ eq),
    )

next_root :
    (p : Bytes)
    → IsTrimmed (state (slash ∷ p) true)
    → Pops (next (state (slash ∷ p) true)) (pop_front (view (state (slash ∷ p) true)))
unfolding next view trim_leading_slashes starts_slash skip_slashes
next_root p v = (
  refl,
  ap (map as_component) (segments-skip_slashes p ∙ sym (segments-slash_first p)),
  skip_slashes-IsTrimmed (slash ∷ []) p v.trimmed,
)

pub next-Pops :
    (p : Bytes) (r : Bool)
    → IsTrimmed (state p r)
    → Pops (next (state p r)) (pop_front (view (state p r)))
unfolding next view trim_leading_slashes starts_slash
next-Pops [] true v = absurd (cc v.root)
next-Pops [] false v = rw segments-nil (refl, refl, v)
next-Pops (c ∷ p) true v =
    subst
      (λ d.
        IsTrimmed (state (d ∷ p) true)
        → Pops (next (state (d ∷ p) true)) (pop_front (view (state (d ∷ p) true))))
      (sym (==→eq c slash v.root)) (next_root p) v
next-Pops (c ∷ p) false v = elim (split_once_lem slash (c ∷ p)) [
  | inl (a, b, s, e, n) ↦ rw (next, s) (next_front a b c p e n v.root v)
  | inr (s, n) ↦
      rw (next, s, segments-NoSlash c p n)
        (
          component-as_component c p,
          ap (map as_component) (segments-skip_slashes [] ∙ segments-nil),
          record { root = refl; trimmed = λ q e. absurd (not_snoc q slash e) },
        )
]
