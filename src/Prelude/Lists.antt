-- ===== src/Prelude/Lists.antt =====
-- Lists measured and indexed by native numbers, and predicates on lists by recursion.
use Prim.Native.Nat.{ℕ, zero, suc, ◌+◌, ◌<◌, min}
use mathlib.Core.List.{List, [], ◌∷◌, ◌++◌}
use mathlib.Core.Logic.{◌≢◌}
use mathlib.Core.Option.{Option, none, some}
use mathlib.Core.Path.{◌≡◌, refl, ap, sym}
use native.Mathlib.Numerals.{add-one}
use native.Mathlib.Omega.{arith}

module _ {ℓ} {A : Type ℓ} where
  abbrev pub length : List A → ℕ
  length [] = 0
  length (x ∷ xs) = suc (length xs)

  abbrev pub get_elem? : List A → ℕ → Option A
  get_elem? [] i = none
  get_elem? (x ∷ xs) zero = some x
  get_elem? (x ∷ xs) (suc i) = get_elem? xs i

  abbrev pub set : List A → ℕ → A → List A
  set [] i v = []
  set (x ∷ xs) zero v = v ∷ xs
  set (x ∷ xs) (suc i) v = x ∷ set xs i v

  abbrev pub get_or : List A → ℕ → A → A
  get_or [] i d = d
  get_or (x ∷ xs) zero d = x
  get_or (x ∷ xs) (suc i) d = get_or xs i d

  abbrev pub take : ℕ → List A → List A
  take zero xs = []
  take (suc n) [] = []
  take (suc n) (x ∷ xs) = x ∷ take n xs

  abbrev pub drop : ℕ → List A → List A
  drop zero xs = xs
  drop (suc n) [] = []
  drop (suc n) (x ∷ xs) = drop n xs

  abbrev pub replicate : ℕ → A → List A
  replicate zero a = []
  replicate (suc n) a = a ∷ replicate n a

module _ {ℓ} {A : Type ℓ} where
  pub length-append : (xs ys : List A) → length (xs ++ ys) ≡ length xs + length ys
  length-append [] ys = omega arith
  length-append (x ∷ xs) ys = omega (arith, length-append xs ys)

  pub length-set : (xs : List A) (i : ℕ) (v : A) → length (set xs i v) ≡ length xs
  length-set [] i v = refl
  length-set (x ∷ xs) zero v = refl
  length-set (x ∷ xs) (suc i) v = ap suc (length-set xs i v)

  pub length-replicate : (n : ℕ) (a : A) → length (replicate n a) ≡ n
  length-replicate zero a = refl
  length-replicate (suc n) a = ap suc (length-replicate n a)

  pub length-take : (n : ℕ) (xs : List A) → length (take n xs) ≡ min n (length xs)
  length-take zero xs = omega arith
  length-take (suc n) [] = omega arith
  length-take (suc n) (x ∷ xs) = omega (arith, length-take n xs)

  pub get_or-set_self :
      (xs : List A) (i : ℕ) (v d : A) → i < length xs → get_or (set xs i v) i d ≡ v
  get_or-set_self [] i v d h = absurd (omega arith)
  get_or-set_self (x ∷ xs) zero v d h = refl
  get_or-set_self (x ∷ xs) (suc i) v d h = get_or-set_self xs i v d (omega arith)

  pub get_or-set_ne :
      (xs : List A) (i j : ℕ) (v d : A) → i ≢ j → get_or (set xs i v) j d ≡ get_or xs j d
  get_or-set_ne [] i j v d h = refl
  get_or-set_ne (x ∷ xs) zero zero v d h = absurd (h refl)
  get_or-set_ne (x ∷ xs) zero (suc j) v d h = refl
  get_or-set_ne (x ∷ xs) (suc i) zero v d h = refl
  get_or-set_ne (x ∷ xs) (suc i) (suc j) v d h = get_or-set_ne xs i j v d (λ e. h (ap suc e))

  -- Every element satisfies `P`.
  abbrev pub All {κ} : (A → Type κ) → List A → Type κ
  All P [] = Unit
  All P (x ∷ xs) = P x × All P xs

-- `a` is not an element.
abbrev pub Fresh {ℓ} : {A : Type ℓ} → A → List A → Type ℓ
Fresh a [] = Unit
Fresh a (x ∷ xs) = (a ≢ x) × Fresh a xs

-- No element occurs twice.
abbrev pub Distinct {ℓ} : {A : Type ℓ} → List A → Type ℓ
Distinct [] = Unit
Distinct (x ∷ xs) = Fresh x xs × Distinct xs

module _ {ℓ} {A : Type ℓ} where
  pub Fresh-pull :
      (q p : A) (xs ys : List A) → Fresh q (xs ++ (p ∷ ys)) → (q ≢ p) × Fresh q (xs ++ ys)
  Fresh-pull q p [] ys f = f
  Fresh-pull q p (x ∷ xs) ys (ne, f) =
      let (here, rest) = Fresh-pull q p xs ys f in (here, (ne, rest))

  pub Fresh-push :
      (q p : A) (xs ys : List A) → q ≢ p → Fresh q (xs ++ ys) → Fresh q (xs ++ (p ∷ ys))
  Fresh-push q p [] ys ne f = (ne, f)
  Fresh-push q p (x ∷ xs) ys ne (here, f) = (here, Fresh-push q p xs ys ne f)

  -- An element in the middle of distinct elements may be pulled to the front, and pushed back.
  pub Distinct-pull :
      (p : A) (xs ys : List A) → Distinct (xs ++ (p ∷ ys)) → Distinct (p ∷ (xs ++ ys))
  Distinct-pull p [] ys d = d
  Distinct-pull p (x ∷ xs) ys (f, d) =
      let (ne, g) = Fresh-pull x p xs ys f in
      let (fresh, rest) = Distinct-pull p xs ys d in ((λ e. ne (sym e), fresh), (g, rest))

  pub Distinct-push :
      (p : A) (xs ys : List A) → Distinct (p ∷ (xs ++ ys)) → Distinct (xs ++ (p ∷ ys))
  Distinct-push p [] ys d = d
  Distinct-push p (x ∷ xs) ys ((ne, f), (g, d)) =
      (Fresh-push x p xs ys (λ e. ne (sym e)) g, Distinct-push p xs ys (f, d))

  pub Fresh-append_right : (q : A) (xs ys : List A) → Fresh q (xs ++ ys) → Fresh q ys
  Fresh-append_right q [] ys f = f
  Fresh-append_right q (x ∷ xs) ys (_, f) = Fresh-append_right q xs ys f

module _ {ℓ} {A : Type ℓ} where
  pub take-set_next :
      (xs : List A) (i : ℕ) (v : A)
      → i < length xs
      → take (suc i) (set xs i v) ≡ take i xs ++ (v ∷ [])
  take-set_next [] i v h = absurd (omega arith)
  take-set_next (x ∷ xs) zero v h = refl
  take-set_next (x ∷ xs) (suc i) v h = ap (◌∷◌ x) (take-set_next xs i v (omega arith))

  pub take_next-set :
      (xs : List A) (i : ℕ) (v : A)
      → i < length xs
      → take (i + 1) (set xs i v) ≡ take i xs ++ (v ∷ [])
  take_next-set xs i v h = rw add-one (take-set_next xs i v h)

  pub take-length : (xs : List A) → take (length xs) xs ≡ xs
  take-length [] = refl
  take-length (x ∷ xs) = ap (◌∷◌ x) (take-length xs)

  pub All-set {κ} :
      (P : A → Type κ) (xs : List A) (i : ℕ) (v : A) → P v → All P xs → All P (set xs i v)
  All-set P [] i v pv h = h
  All-set P (x ∷ xs) zero v pv (px, h) = (pv, h)
  All-set P (x ∷ xs) (suc i) v pv (px, h) = (px, All-set P xs i v pv h)

  pub All-replicate {κ} : (P : A → Type κ) (n : ℕ) (a : A) → P a → All P (replicate n a)
  All-replicate P zero a pa = tt
  All-replicate P (suc n) a pa = (pa, All-replicate P n a pa)

  pub All-get_or {κ} :
      (P : A → Type κ) (xs : List A) (i : ℕ) (d : A) → i < length xs → All P xs → P (get_or xs i d)
  All-get_or P [] i d lt h = absurd (omega arith)
  All-get_or P (x ∷ xs) zero d lt (px, h) = px
  All-get_or P (x ∷ xs) (suc i) d lt (px, h) = All-get_or P xs i d (omega arith) h

  pub All-append {κ} : (P : A → Type κ) (xs ys : List A) → All P xs → All P ys → All P (xs ++ ys)
  All-append P [] ys hx hy = hy
  All-append P (x ∷ xs) ys (px, hx) hy = (px, All-append P xs ys hx hy)
