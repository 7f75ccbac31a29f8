-- ===== src/Paths/Back.antt =====
-- The iteration over a path against a queue with two ends (`Components` of
-- crates/common/ov6_types/src/path/mod.rs): `new`, `next_back`, and any calls of both.
use ov.Prelude.{
  ℕ, zero, suc, ◌≤◌, ◌<◌, ◌≡◌, refl, sym, ap, ◌∙◌, ◌≢◌, ◌⊎◌, inl, inr, Bool, true, false, Option,
  none, some, List, [], ◌∷◌, ◌++◌, map, arith, length, length-append, Run, done, ltb, ltb→lt,
}
use mathlib.Core.List.{append_assoc, append-nil, map-append}
use ov.Paths.Slices.{Bytes, slash, starts_slash, strip_suffix, NoSlash, strip_suffix_lem}
use ov.Paths.Components.{
  Component, root_dir, component, Components, skip_slashes, trim_leading_slashes,
  trim_trailing_slashes, trim_rounds, components,
}
use ov.Paths.Segments.{
  segments, as_component, root_of, components_of, segments-slash, segments-NoSlash, segments-nil,
  segments-skip_slashes, component-as_component,
}
use ov.Paths.Front.{IsTrimmed, view, state, not_snoc, starts_slash-skip_slashes, Pops}

starts_slash-append : (c : ℕ) (q x : Bytes) → starts_slash ((c ∷ q) ++ x) ≡ starts_slash (c ∷ q)
unfolding starts_slash
starts_slash-append c q x = refl

-- A path of one byte at most.
pub short_trimmed : (p q : Bytes) → length p < 2 → p ≡ q ++ slash ∷ [] → q ≡ []
short_trimmed p [] h e = refl
short_trimmed p (d ∷ q) h e = absurd (omega (arith, h, ap length e, length-append q (slash ∷ [])))

-- The result of the loop: the same root, a front part of the path with the same segments, trimmed.
abbrev Trims : Bytes → Bool → Components → Type 0
Trims p r c' =
    (p' : Bytes) × (x : Bytes) × (c' ≡ state p' r)
    × (p ≡ p' ++ x)
    × (segments p' ≡ segments p)
    × IsTrimmed (state p' r)

strips :
    (p q p' x : Bytes) (r : Bool) (c' : Components)
    → p ≡ q ++ slash ∷ []
    → c' ≡ state p' r
    → q ≡ p' ++ x
    → segments p' ≡ segments q
    → IsTrimmed (state p' r)
    → Trims p r c'
strips p q p' x r c' e ec eq s t = (
  p',
  x ++ slash ∷ [],
  ec,
  e ∙ ap (λ y. y ++ slash ∷ []) eq ∙ append_assoc p' x (slash ∷ []),
  s
      ∙ sym (append-nil (segments q))
      ∙ ap (λ y. segments q ++ y) (sym segments-nil)
      ∙ sym (segments-slash q [])
      ∙ ap segments (sym e),
  t,
)

starts_slash-front :
    (p q : Bytes) (r : Bool)
    → p ≡ q ++ slash ∷ []
    → starts_slash p ≡ r
    → (r ≡ true → 1 < length p)
    → starts_slash q ≡ r
unfolding starts_slash
starts_slash-front p [] true e s long = absurd (omega (arith, long refl, ap length e))
starts_slash-front p [] false e s long = refl
starts_slash-front p (d ∷ q) r e s long = ap starts_slash (sym e) ∙ s

trim_rounds-Trims :
    (fuel : ℕ) (p : Bytes) (r : Bool)
    → length p ≤ fuel
    → starts_slash p ≡ r
    → Trims p r (trim_rounds fuel (state p r))
unfolding trim_rounds starts_slash
trim_rounds-Trims zero [] r h s =
    ([], [], refl, refl, refl, record { root = s; trimmed = λ q e. absurd (not_snoc q slash e) })
trim_rounds-Trims zero (c ∷ p) r h s = absurd (omega (arith, h))
trim_rounds-Trims (suc fuel) p r h s =
    at_test r (ltb 1 (length p)) refl s (strip_suffix_lem p)
      (λ q l sq. trim_rounds-Trims fuel q r l sq)
  where
    unchanged :
        (r : Bool)
        → starts_slash p ≡ r
        → ((q : Bytes) → p ≡ q ++ slash ∷ [] → q ≡ [])
        → Trims p r (state p r)
    unchanged r s n = (p, [], refl, sym (append-nil p), refl, record { root = s; trimmed = n })

    shorter : (q : Bytes) → p ≡ q ++ slash ∷ [] → length q ≤ fuel
    shorter q e = omega (arith, h, ap length e, length-append q (slash ∷ []))

    stripped :
        (q : Bytes) (r : Bool)
        → p ≡ q ++ slash ∷ []
        → Trims q r (trim_rounds fuel (state q r))
        → Trims p r (trim_rounds fuel (state q r))
    stripped q r e (p', x, ec, eq, sg, t) = strips p q p' x r _ e ec eq sg t

    at_test :
        (r b : Bool)
        → ltb 1 (length p) ≡ b
        → starts_slash p ≡ r
        → ((q : Bytes) × (strip_suffix p ≡ some q) × (p ≡ q ++ slash ∷ []))
          ⊎ ((strip_suffix p ≡ none) × ((q : Bytes) → p ≢ q ++ slash ∷ []))
        → ((q : Bytes)
            → length q ≤ fuel
            → starts_slash q ≡ r
            → Trims q r (trim_rounds fuel (state q r)))
        → Trims p r (trim_rounds (suc fuel) (state p r))
    at_test true false eb s cases ih =
        rw (trim_rounds, eb) (unchanged true s λ q e. short_trimmed p q (ground (arith, eb)) e)
    at_test true true eb s (inr (e, n)) ih =
        rw (trim_rounds, eb, e) (unchanged true s λ q eq. absurd (n q eq))
    at_test false b eb s (inr (e, n)) ih =
        rw (trim_rounds, e) (unchanged false s λ q eq. absurd (n q eq))
    at_test true true eb s (inl (q, e, eq)) ih =
        rw (trim_rounds, eb, e)
          (stripped q true eq
            (ih q (shorter q eq) (starts_slash-front p q true eq s (λ _. ltb→lt 1 (length p) eb))))
    at_test false b eb s (inl (q, e, eq)) ih =
        rw (trim_rounds, e)
          (stripped q false eq
            (ih q (shorter q eq) (starts_slash-front p q false eq s (λ no. absurd (cc no)))))

-- A path whose first separator is at its front, exactly if it has the root, is trimmed at its end.
pub trim_trailing_slashes-Trims :
    (p : Bytes) (r : Bool) → starts_slash p ≡ r → Trims p r (trim_trailing_slashes (state p r))
unfolding trim_trailing_slashes
trim_trailing_slashes-Trims p r s = trim_rounds-Trims (length p) p r (omega arith) s

pub components-view :
    (p : Bytes) → IsTrimmed (components p) × (view (components p) ≡ components_of p)
unfolding components view components_of trim_leading_slashes
components-view p = by_root (starts_slash p) refl
  where
    by_root :
        (r : Bool)
        → starts_slash p ≡ r
        → IsTrimmed (trim_trailing_slashes (trim_leading_slashes (state p r)))
          × (view (trim_trailing_slashes (trim_leading_slashes (state p r)))
              ≡ root_of r ++ map as_component (segments p))
    by_root true s =
        let (p', x, ec, eq, sg, t) = trim_trailing_slashes-Trims p true s in
        rw ec (t, ap (λ ss. root_dir ∷ map as_component ss) sg)
    by_root false s =
        let (p', x, ec, eq, sg, t) =
          trim_trailing_slashes-Trims (skip_slashes p) false (starts_slash-skip_slashes p) in
        rw ec (t, ap (map as_component) (sg ∙ segments-skip_slashes p))

abbrev under_front {ℓ} : {A : Type ℓ} → A → Option A × List A → Option A × List A
under_front x (none, xs) = (some x, [])
under_front x (some y, xs) = (some y, x ∷ xs)

abbrev pub pop_back {ℓ} : {A : Type ℓ} → List A → Option A × List A
pop_back [] = (none, [])
pop_back (x ∷ xs) = under_front x (pop_back xs)

pub pop_back-snoc {ℓ} : {A : Type ℓ} (xs : List A) (x : A) → pop_back (xs ++ x ∷ []) ≡ (some x, xs)
pop_back-snoc [] x = refl
pop_back-snoc (y ∷ xs) x = ap (under_front y) (pop_back-snoc xs x)

-- The state before the last separator of a path that has more before it.
pub before_last :
    (p : Bytes) (x : ℕ) (a b : Bytes) (r : Bool)
    → p ≡ (x ∷ a) ++ slash ∷ b
    → NoSlash b
    → IsTrimmed (state p r)
    → Pops (component b, trim_trailing_slashes (state (x ∷ a) r)) (pop_back (view (state p r)))
unfolding view
before_last p x a [] r e n v = absurd (cc (v.trimmed (x ∷ a) e))
before_last p x a (y ∷ b) r e n v =
    let (p', z, ec, eq, sg, t) =
      trim_trailing_slashes-Trims (x ∷ a) r
        (sym (starts_slash-append x a (slash ∷ y ∷ b)) ∙ ap starts_slash (sym e) ∙ v.root) in
    let segs : segments p ≡ segments (x ∷ a) ++ (y ∷ b) ∷ [] =
      ap segments e
      ∙ segments-slash (x ∷ a) (y ∷ b)
      ∙ ap (λ ss. segments (x ∷ a) ++ ss) (segments-NoSlash y b n) in
    let views : view (state p r) ≡ view (state (x ∷ a) r) ++ as_component (y ∷ b) ∷ [] =
      ap (λ ss. root_of r ++ map as_component ss) segs
      ∙ ap (λ cs. root_of r ++ cs) (map-append as_component (segments (x ∷ a)) ((y ∷ b) ∷ []))
      ∙ sym (
          append_assoc (root_of r) (map as_component (segments (x ∷ a)))
            (as_component (y ∷ b) ∷ [])) in
    rw (views, pop_back-snoc (view (state (x ∷ a) r)) (as_component (y ∷ b)), ec)
      (component-as_component y b, ap (λ ss. root_of r ++ map as_component ss) sg, t)

-- One call of `next_back` is one step of the queue, and does not panic.
abbrev pub Backs : Run (Option Component × Components) → Option Component × List Component → Type 0
Backs run (o, xs) = (c' : Components) × (run ≡ done (o, c')) × (view c' ≡ xs) × IsTrimmed c'
