-- ===== src/Lru/Sharing.antt =====
-- The values of the cache that are in use, and how `get` and `drop` keep their counts.
use ov.Prelude.{
  ℕ, ◌+◌, ◌≡◌, refl, sym, ◌∙◌, ◌≢◌, ◌⊎◌, inl, inr, some, List, [], ◌∷◌, ◌++◌, arith, All, ◌==◌,
  if◌then◌else◌,
}
use ov.Lru.{Entry, LruValue, cloned, recycled}
use ov.Lru.Entries.{KeyFresh}

-- Two entries have different slots, and no key in common.
abbrev pub Apart : Entry → Entry → Type 0
Apart e f = (e.slot ≢ f.slot) × ((k : ℕ) → e.key ≡ some k → f.key ≢ some k)

Apart-sym : (e f : Entry) → Apart e f → Apart f e
Apart-sym e f (slots, keys) = (λ h. slots (sym h), λ k h h'. keys k h' h)

abbrev pub Pairwise : List Entry → Type 0
Pairwise [] = Unit {0}
Pairwise (x ∷ xs) = All (Apart x) xs × Pairwise xs

abbrev pub Matches : LruValue → Entry → Type 0
Matches v e = (e.slot ≡ v.slot) × (e.key ≡ some v.key)

abbrev pub In : LruValue → List Entry → Type 0
In v [] = ⊥
In v (e ∷ es) = Matches v e ⊎ In v es

-- How many of the values in use are in the slot.
abbrev pub holders : ℕ → List LruValue → ℕ
holders s [] = 0
holders s (v ∷ vs) = if v.slot == s then holders s vs + 1 else holders s vs

abbrev pub Counts : List LruValue → Entry → Type 0
Counts held e = e.count ≡ holders e.slot held + 1

-- The entries are apart, each counts the values in use, and each value in use is in the list under
-- its key.
pub record IsCoherent (es : List Entry) (held : List LruValue) : Type 0 where
  pub apart : Pairwise es
  pub counted : All (Counts held) es
  pub present : All (λ v. In v es) held

-- An entry in the middle may be pulled to the front, and pushed back.
module _ {A : Type 0} (P : A → Type 0) where
  pub All-pull : (e : A) (xs ys : List A) → All P (xs ++ (e ∷ ys)) → P e × All P (xs ++ ys)
  All-pull e [] ys h = h
  All-pull e (x ∷ xs) ys (top, h) = let (p, rest) = All-pull e xs ys h in (p, (top, rest))

  pub All-push : (e : A) (xs ys : List A) → P e → All P (xs ++ ys) → All P (xs ++ (e ∷ ys))
  All-push e [] ys p h = (p, h)
  All-push e (x ∷ xs) ys p (top, h) = (top, All-push e xs ys p h)

Pairwise-pull :
    (e : Entry) (xs ys : List Entry) → Pairwise (xs ++ (e ∷ ys)) → Pairwise (e ∷ (xs ++ ys))
Pairwise-pull e [] ys h = h
Pairwise-pull e (x ∷ xs) ys (top, h) =
    let (here, rest) = All-pull (Apart x) e xs ys top in
    let (apart, more) = Pairwise-pull e xs ys h in ((Apart-sym x e here, apart), (rest, more))

Pairwise-push :
    (e : Entry) (xs ys : List Entry) → Pairwise (e ∷ (xs ++ ys)) → Pairwise (xs ++ (e ∷ ys))
Pairwise-push e [] ys h = h
Pairwise-push e (x ∷ xs) ys ((here, apart), (rest, more)) =
    (All-push (Apart x) e xs ys (Apart-sym e x here) rest, Pairwise-push e xs ys (apart, more))

In-pull :
    (v : LruValue) (e : Entry) (xs ys : List Entry) → In v (xs ++ (e ∷ ys)) → In v (e ∷ (xs ++ ys))
In-pull v e [] ys h = h
In-pull v e (x ∷ xs) ys (inl m) = inr (inl m)
In-pull v e (x ∷ xs) ys (inr h) = elim (In-pull v e xs ys h) [ inl m ↦ inl m | inr r ↦ inr (inr r) ]

In-push :
    (v : LruValue) (e : Entry) (xs ys : List Entry) → In v (e ∷ (xs ++ ys)) → In v (xs ++ (e ∷ ys))
In-push v e [] ys h = h
In-push v e (x ∷ xs) ys (inl m) = inr (In-push v e xs ys (inl m))
In-push v e (x ∷ xs) ys (inr (inl m)) = inl m
In-push v e (x ∷ xs) ys (inr (inr h)) = inr (In-push v e xs ys (inr h))

pub All-map :
    {P Q : LruValue → Type 0} (vs : List LruValue)
    → ((v : LruValue) → P v → Q v)
    → All P vs
    → All Q vs
All-map [] f h = tt
All-map (v ∷ vs) f (here, h) = (f v here, All-map vs f h)

pub IsCoherent-pull :
    (e : Entry) (xs ys : List Entry) (held : List LruValue)
    → IsCoherent (xs ++ (e ∷ ys)) held
    → IsCoherent (e ∷ (xs ++ ys)) held
IsCoherent-pull e xs ys held c = record {
  apart = Pairwise-pull e xs ys c.apart;
  counted = All-pull (Counts held) e xs ys c.counted;
  present = All-map held (λ v. In-pull v e xs ys) c.present;
}

pub IsCoherent-push :
    (e : Entry) (xs ys : List Entry) (held : List LruValue)
    → IsCoherent (e ∷ (xs ++ ys)) held
    → IsCoherent (xs ++ (e ∷ ys)) held
IsCoherent-push e xs ys held c = record {
  apart = Pairwise-push e xs ys c.apart;
  counted = All-push (Counts held) e xs ys c.counted.0 c.counted.1;
  present = All-map held (λ v. In-push v e xs ys) c.present;
}

-- One value more in the slot of `e` changes no other entry's count.
Counts-hold :
    (e : Entry) (v : LruValue) (held : List LruValue) (es : List Entry)
    → e.slot ≡ v.slot
    → All (Apart e) es
    → All (Counts held) es
    → All (Counts (v ∷ held)) es
Counts-hold e v held [] s a c = tt
Counts-hold e v held (f ∷ es) s ((ne, _), a) (here, c) =
    (ground (arith, here, s, ne), Counts-hold e v held es s a c)

-- The entry in front is found: one reference more.
pub hit_lem :
    (e : Entry) (es : List Entry) (k : ℕ) (held : List LruValue)
    → e.key ≡ some k
    → IsCoherent (e ∷ es) held
    → IsCoherent (cloned e ∷ es) (record { key = k; slot = e.slot } ∷ held)
hit_lem e es k held key c =
    let v : LruValue = record { key = k; slot = e.slot } in
    record {
      apart = c.apart;
      counted = (ground (arith, c.counted.0), Counts-hold e v held es refl c.apart.0 c.counted.1);
      present = (inl (refl, key), c.present);
    }

-- No value in use is in a slot without holders.
In-other :
    (e f : Entry) (es : List Entry) (held : List LruValue)
    → holders e.slot held ≡ 0
    → All (λ v. In v (e ∷ es)) held
    → All (λ v. In v (f ∷ es)) held
In-other e f es [] z h = tt
In-other e f es (v ∷ held) z (inl (s, _), h) = absurd (ground (arith, s, z))
In-other e f es (v ∷ held) z (inr at, h) = (inr at, In-other e f es held (ground (arith, z)) h)

Apart-recycled :
    (k : ℕ) (e : Entry) (es : List Entry)
    → KeyFresh k es
    → All (Apart e) es
    → All (Apart (recycled k e)) es
Apart-recycled k e [] f a = tt
Apart-recycled k e (x ∷ es) (ne, f) ((slots, _), a) =
    ((slots, λ j h h'. ne (h' ∙ sym h)), Apart-recycled k e es f a)

-- The entry in front is recycled: no value in use is in its slot.
pub miss_lem :
    (e : Entry) (es : List Entry) (k : ℕ) (held : List LruValue)
    → KeyFresh k (e ∷ es)
    → e.count ≡ 1
    → IsCoherent (e ∷ es) held
    → IsCoherent (recycled k e ∷ es) (record { key = k; slot = e.slot } ∷ held)
miss_lem e es k held (_, f) free c =
    let v : LruValue = record { key = k; slot = e.slot } in
    let idle : holders e.slot held ≡ 0 = omega (arith, c.counted.0) in
    record {
      apart = (Apart-recycled k e es f c.apart.0, c.apart.1);
      counted = (ground (arith, c.counted.0), Counts-hold e v held es refl c.apart.0 c.counted.1);
      present = (inl (refl, refl), In-other e (recycled k e) es held idle c.present);
    }
