-- ===== src/Lru/Counting.antt =====
-- A reference that is cloned or dropped changes the count of its slot alone.
use ov.Prelude.{
  ℕ, ◌-◌, ◌≡◌, refl, inl, inr, Bool, true, false, List, [], ◌∷◌, ◌++◌, arith, All, ◌==◌,
  if◌then◌else◌, Bool-cases,
}
use ov.Lru.{Entry, LruValue, cloned, clone_slot, drop_slot, clone_value}
use ov.Lru.Sharing.{holders, Apart, Pairwise, In, Counts, IsCoherent, All-pull, All-map}

Apart-clone_slot :
    (s : ℕ) (x : Entry) (es : List Entry) → All (Apart x) es → All (Apart x) (clone_slot s es)
Apart-clone_slot s x [] a = tt
Apart-clone_slot s x (e ∷ es) (here, a) = elim (Bool-cases (e.slot == s)) [
  | inl h ↦ rw h (here, Apart-clone_slot s x es a)
  | inr h ↦ rw h (here, Apart-clone_slot s x es a)
]

Pairwise-clone_slot : (s : ℕ) (es : List Entry) → Pairwise es → Pairwise (clone_slot s es)
Pairwise-clone_slot s [] p = tt
Pairwise-clone_slot s (e ∷ es) (a, p) = elim (Bool-cases (e.slot == s)) [
  | inl h ↦ rw h (Apart-clone_slot s (cloned e) es a, Pairwise-clone_slot s es p)
  | inr h ↦ rw h (Apart-clone_slot s e es a, Pairwise-clone_slot s es p)
]

Counts-cloned :
    (v : LruValue) (held : List LruValue) (e : Entry) (same : Bool)
    → (e.slot == v.slot) ≡ same
    → Counts held e
    → Counts (v ∷ held) (if same then cloned e else e)
Counts-cloned v held e true h c = ground (arith, c, h)
Counts-cloned v held e false h c = ground (arith, c, h)

Counts-clone_slot :
    (v : LruValue) (held : List LruValue) (es : List Entry)
    → All (Counts held) es
    → All (Counts (v ∷ held)) (clone_slot v.slot es)
Counts-clone_slot v held [] c = tt
Counts-clone_slot v held (e ∷ es) (here, c) =
    (Counts-cloned v held e (e.slot == v.slot) refl here, Counts-clone_slot v held es c)

In-clone_slot : (s : ℕ) (es : List Entry) (u : LruValue) → In u es → In u (clone_slot s es)
In-clone_slot s [] u at = at
In-clone_slot s (e ∷ es) u (inl m) = elim (Bool-cases (e.slot == s)) [
  | inl h ↦ rw h (inl m)
  | inr h ↦ rw h (inl m)
]
In-clone_slot s (e ∷ es) u (inr at) = inr (In-clone_slot s es u at)

pub clone_value_lem :
    (v : LruValue) (es : List Entry) (held : List LruValue)
    → In v es
    → IsCoherent es held
    → IsCoherent (clone_value v es).1 ((clone_value v es).0 ∷ held)
unfolding clone_value
clone_value_lem v es held at c = record {
  apart = Pairwise-clone_slot v.slot es c.apart;
  counted = Counts-clone_slot v held es c.counted;
  present = (In-clone_slot v.slot es v at, All-map held (In-clone_slot v.slot es) c.present);
}

Apart-drop_slot :
    (s : ℕ) (x : Entry) (es : List Entry) → All (Apart x) es → All (Apart x) (drop_slot s es)
Apart-drop_slot s x [] a = tt
Apart-drop_slot s x (e ∷ es) (here, a) = elim (Bool-cases (e.slot == s)) [
  | inl h ↦ rw h (here, Apart-drop_slot s x es a)
  | inr h ↦ rw h (here, Apart-drop_slot s x es a)
]

Pairwise-drop_slot : (s : ℕ) (es : List Entry) → Pairwise es → Pairwise (drop_slot s es)
Pairwise-drop_slot s [] p = tt
Pairwise-drop_slot s (e ∷ es) (a, p) = elim (Bool-cases (e.slot == s)) [
  | inl h ↦
      rw h (Apart-drop_slot s (record e { count = e.count - 1 }) es a, Pairwise-drop_slot s es p)
  | inr h ↦ rw h (Apart-drop_slot s e es a, Pairwise-drop_slot s es p)
]

holders-middle :
    (s : ℕ) (v : LruValue) (hs ts : List LruValue)
    → holders s (hs ++ (v ∷ ts)) ≡ holders s (v ∷ (hs ++ ts))
holders-middle s v [] ts = refl
holders-middle s v (h ∷ hs) ts = ground (arith, holders-middle s v hs ts)

Counts-dropped :
    (v : LruValue) (hs ts : List LruValue) (e : Entry) (same : Bool)
    → (e.slot == v.slot) ≡ same
    → Counts (hs ++ (v ∷ ts)) e
    → Counts (hs ++ ts) (if same then record e { count = e.count - 1 } else e)
Counts-dropped v hs ts e true h c = ground (arith, c, h, holders-middle e.slot v hs ts)
Counts-dropped v hs ts e false h c = ground (arith, c, h, holders-middle e.slot v hs ts)

Counts-drop_slot :
    (v : LruValue) (hs ts : List LruValue) (es : List Entry)
    → All (Counts (hs ++ (v ∷ ts))) es
    → All (Counts (hs ++ ts)) (drop_slot v.slot es)
Counts-drop_slot v hs ts [] c = tt
Counts-drop_slot v hs ts (e ∷ es) (here, c) =
    (Counts-dropped v hs ts e (e.slot == v.slot) refl here, Counts-drop_slot v hs ts es c)

In-drop_slot : (s : ℕ) (es : List Entry) (u : LruValue) → In u es → In u (drop_slot s es)
In-drop_slot s [] u at = at
In-drop_slot s (e ∷ es) u (inl m) = elim (Bool-cases (e.slot == s)) [
  | inl h ↦ rw h (inl m)
  | inr h ↦ rw h (inl m)
]
In-drop_slot s (e ∷ es) u (inr at) = inr (In-drop_slot s es u at)

pub release_lem :
    (v : LruValue) (es : List Entry) (hs ts : List LruValue)
    → IsCoherent es (hs ++ (v ∷ ts))
    → IsCoherent (drop_slot v.slot es) (hs ++ ts)
release_lem v es hs ts c = record {
  apart = Pairwise-drop_slot v.slot es c.apart;
  counted = Counts-drop_slot v hs ts es c.counted;
  present =
      All-map (hs ++ ts) (In-drop_slot v.slot es) (All-pull (λ u. In u es) v hs ts c.present).1;
}
