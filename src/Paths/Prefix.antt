-- ===== src/Paths/Prefix.antt =====
-- A path before and after another: the common loop of the three questions (`iter_after` of
-- crates/common/ov6_types/src/path/mod.rs).
use ov.Prelude.{
  ℕ, zero, suc, ◌≤◌, ◌<◌, ◌≡◌, refl, subst, sym, ap, ◌∙◌, ◌≢◌, ◌⊎◌, inl, inr, Bool, true, false,
  Option, none, some, List, [], ◌∷◌, ◌++◌, map, arith, length, done, ◌==◌, if◌then◌else◌, ==_refl,
}
use ov.Paths.Slices.{starts_slash, Bytes, slash, bytes_eq}
use ov.Paths.Components.{Component, root_dir, cur_dir, parent_dir, normal, Components}
use ov.Paths.Segments.{components_of, segments, as_component, parts, grow, non_empty, root_of}
use ov.Paths.Front.{pop_front}
use ov.Paths.Path.{component_eq, Iterator, again, found, missing, round, iter_after, rounds}

pub bytes_eq→eq : (p q : Bytes) → bytes_eq p q ≡ true → p ≡ q
unfolding bytes_eq
bytes_eq→eq [] [] h = refl
bytes_eq→eq [] (d ∷ q) h = absurd (cc h)
bytes_eq→eq (c ∷ p) [] h = absurd (cc h)
bytes_eq→eq (c ∷ p) (d ∷ q) h = ground (arith, h, bytes_eq→eq p q)

bytes_eq_refl : (p : Bytes) → bytes_eq p p ≡ true
unfolding bytes_eq
bytes_eq_refl [] = refl
bytes_eq_refl (c ∷ p) = rw (==_refl c) (bytes_eq_refl p)

component_eq→eq : (a b : Component) → component_eq a b ≡ true → a ≡ b
unfolding component_eq
component_eq→eq root_dir root_dir h = refl
component_eq→eq cur_dir cur_dir h = refl
component_eq→eq parent_dir parent_dir h = refl
component_eq→eq (normal p) (normal q) h = ap normal (bytes_eq→eq p q h)
component_eq→eq a b h = absurd (cc h)

component_eq_refl : (a : Component) → component_eq a a ≡ true
unfolding component_eq
component_eq_refl root_dir = refl
component_eq_refl cur_dir = refl
component_eq_refl parent_dir = refl
component_eq_refl (normal p) = bytes_eq_refl p

length-segments : (p : Bytes) → length (segments p) ≤ length p
unfolding segments parts
length-segments [] = omega arith
length-segments (c ∷ p) = by_first (c == slash) refl (length-segments p)
  where
    grown : (ss : List Bytes) → length (non_empty (grow c ss)) ≤ suc (length (non_empty ss))
    grown [] = omega arith
    grown ([] ∷ ss) = omega arith
    grown ((d ∷ s) ∷ ss) = omega arith

    by_first :
        (b : Bool)
        → (c == slash) ≡ b
        → length (segments p) ≤ length p
        → length (segments (c ∷ p)) ≤ length (c ∷ p)
    by_first true e ih = rw (segments, parts, e) (omega (arith, ih))
    by_first false e ih = rw (segments, parts, e) (omega (arith, ih, grown (parts p)))

length-map {ℓ κ} :
    {A : Type ℓ} {B : Type κ} (f : A → B) (xs : List A) → length (map f xs) ≡ length xs
length-map f [] = refl
length-map f (x ∷ xs) = omega (arith, length-map f xs)

pub length-components_of : (p : Bytes) → length (components_of p) < rounds p
unfolding components_of
length-components_of p = by_root (starts_slash p)
  where
    by_root : (b : Bool) → length (root_of b ++ map as_component (segments p)) < rounds p
    by_root true = omega (arith, length-map as_component (segments p), length-segments p)
    by_root false = omega (arith, length-map as_component (segments p), length-segments p)

-- An iterator that takes the items of a list from its front.
module _ (step : Iterator) (items : Components → List Component) (IsState : Components → Type 0)
    (steps : (c : Components)
      → IsState c
      → (c' : Components) × (step c ≡ done ((pop_front (items c)).0, c'))
        × (items c' ≡ (pop_front (items c)).1)
        × IsState c') where
  -- The items after the prefix are left, or the prefix is none.
  abbrev pub After : List Component → List Component → Option (Option Components) → Type 0
  After xs ys result =
      ((c : Components) × (result ≡ some (some c)) × IsState c × (xs ≡ ys ++ items c))
      ⊎ ((result ≡ some none) × ((zs : List Component) → xs ≢ ys ++ zs))

  pub iter_after-After :
      (fuel : ℕ) (i j : Components)
      → IsState i
      → IsState j
      → length (items j) < fuel
      → (result : Option (Option Components)) × (iter_after fuel step i j ≡ done result)
        × After (items i) (items j) result
  unfolding iter_after
  iter_after-After zero i j si sj h = absurd (omega arith)
  iter_after-After (suc fuel) i j si sj h =
      let (i', ri, vi, ti) = steps i si in
      let (j', rj, vj, tj) = steps j sj in
      rw (iter_after, ri, rj)
        (at_items (items i) (items j) i' j' refl vi vj h λ h'. iter_after-After fuel i' j' ti tj h')
    where
      extend :
          (x y : Component) (xs ys : List Component) (result : Option (Option Components))
          → x ≡ y
          → After xs ys result
          → After (x ∷ xs) (y ∷ ys) result
      extend x y xs ys result e (inl (c, er, sc, ex)) = inl (c, er, sc, cc (e, ex))
      extend x y xs ys result e (inr (er, n)) = inr (er, λ zs. λ ex. n zs (cc ex))

      at_round :
          (x y : Component) (xs ys : List Component) (i' j' : Components) (b : Bool)
          → component_eq x y ≡ b
          → items i' ≡ xs
          → items j' ≡ ys
          → length ys < fuel
          → (length (items j') < fuel
              → (result : Option (Option Components)) × (iter_after fuel step i' j' ≡ done result)
                × After (items i') (items j') result)
          → (result : Option (Option Components)) × ((elim (if b then again else missing) [
            | again ↦ iter_after fuel step i' j'
            | found ↦ done (some (some i))
            | missing ↦ done (some none)
          ])
              ≡ done result)
            × After (x ∷ xs) (y ∷ ys) result
      at_round x y xs ys i' j' false eb ei ej h ih =
          (some none, refl, inr (refl, λ zs. λ e. differ zs e))
        where
          differ : (zs : List Component) → x ∷ xs ≡ (y ∷ ys) ++ zs → ⊥
          differ zs e =
              let same : x ≡ y = cc e in
              absurd (cc (sym eb ∙ ap (λ z. component_eq x z) (sym same) ∙ component_eq_refl x))
      at_round x y xs ys i' j' true eb ei ej h ih =
          let (result, run, a) = ih (subst (λ zs. length zs < fuel) (sym ej) h) in
          (
            result,
            run,
            extend x y xs ys result (component_eq→eq x y eb) (
                subst (λ zs. After xs zs result) ej
                  (subst (λ zs. After zs (items j') result) ei a)),
          )

      at_items :
          (xs ys : List Component) (i' j' : Components)
          → items i ≡ xs
          → items i' ≡ (pop_front xs).1
          → items j' ≡ (pop_front ys).1
          → length ys < suc fuel
          → (length (items j') < fuel
              → (result : Option (Option Components)) × (iter_after fuel step i' j' ≡ done result)
                × After (items i') (items j') result)
          → (result : Option (Option Components)) × ((elim (round
                (pop_front xs).0
                (pop_front ys).0) [
                  | again ↦ iter_after fuel step i' j'
                  | found ↦ done (some (some i))
                  | missing ↦ done (some none)
                ])
              ≡ done result)
            × After xs ys result
      at_items [] [] i' j' e ei ej h ih = (some (some i), refl, inl (i, refl, si, sym e))
      at_items (x ∷ xs) [] i' j' e ei ej h ih = (some (some i), refl, inl (i, refl, si, sym e))
      at_items [] (y ∷ ys) i' j' e ei ej h ih =
          (some none, refl, inr (refl, λ zs. λ ex. absurd (cc ex)))
      at_items (x ∷ xs) (y ∷ ys) i' j' e ei ej h ih =
          at_round x y xs ys i' j' (component_eq x y) refl ei ej (omega (arith, h)) ih
