-- ===== src/Lru/History.antt =====
-- Histories of the cache from `new` on: what its users see of each other.
use ov.Prelude.{
  ℕ, zero, suc, ◌+◌, ◌<◌, ◌≡◌, refl, subst, sym, ap, ◌∙◌, ◌≢◌, inl, inr, none, some, List, [], ◌∷◌,
  ◌++◌, arith, All, done,
}
use ov.Lru.{Entry, LruValue, fresh_entries, new, get, promote, drop_slot, clone_value}
use ov.Lru.Sharing.{Apart, Pairwise, In, Counts, IsCoherent, All-pull, All-map}
use ov.Lru.Calls.{get_lem, promote_lem}
use ov.Lru.Counting.{clone_value_lem, release_lem}

-- The list, and the values in use.
pub record System : Type 0 where
  pub list : List Entry
  pub held : List LruValue

pub data Step : System → System → Type 0 where
  gets :
      (s : System) (k : ℕ) (v : LruValue) (es : List Entry)
      → get k s.list ≡ some (v, es)
      → Step s (record { list = es; held = v ∷ s.held })
  clones :
      (es : List Entry) (v : LruValue) (hs ts : List LruValue)
      → Step
          (record { list = es; held = hs ++ (v ∷ ts) })
          (record { list = (clone_value v es).1; held = (clone_value v es).0 ∷ (hs ++ (v ∷ ts)) })
  promotes : (s : System) (v : LruValue) → Step s (record s { list = promote v.key s.list })
  releases :
      (es : List Entry) (v : LruValue) (hs ts : List LruValue)
      → Step
          (record { list = es; held = hs ++ (v ∷ ts) })
          (record { list = drop_slot v.slot es; held = hs ++ ts })

-- `get`, and `clone` and the two steps of `drop` of values in use, keep this: every entry's count is one more than the
-- values in use of its slot, no two entries share a slot or a key, and every value in use is in the
-- list under its key. So no value in use is recycled.
pub Step-IsCoherent :
    {s t : System} → Step s t → IsCoherent s.list s.held → IsCoherent t.list t.held
Step-IsCoherent (gets s k v es run) c = elim (get_lem k s.list s.held c) [
  | inl (failed, _, _) ↦ absurd (ground (arith, failed, run))
  | inr (v', es', run', _, c') ↦
      let e : (v', es') ≡ (v, es) = ground (arith, run, run') in
      subst (λ (r : LruValue × List Entry). IsCoherent r.1 (r.0 ∷ s.held)) e c'
]
Step-IsCoherent (clones es v hs ts) c =
    clone_value_lem v es (hs ++ (v ∷ ts)) (All-pull (λ u. In u es) v hs ts c.present).0 c
Step-IsCoherent (promotes s v) c = promote_lem v.key s.list s.held c
Step-IsCoherent (releases es v hs ts) c = release_lem v es hs ts c

pub data Reach (s : System) : System → Type 0 where
  here : Reach s s
  next : {t u : System} → Reach s t → Step t u → Reach s u

Reach-IsCoherent : {s t : System} → IsCoherent s.list s.held → Reach s t → IsCoherent t.list t.held
Reach-IsCoherent c here = c
Reach-IsCoherent c (next path step) = Step-IsCoherent step (Reach-IsCoherent c path)

Apart-fresh_entries :
    (i j n : ℕ)
    → i < j
    → All (Apart (record { key = none; slot = i; count = 1 })) (fresh_entries j n)
Apart-fresh_entries i j zero lt = tt
Apart-fresh_entries i j (suc n) lt = (
  (omega arith, λ k h. absurd (ground (arith, h))),
  Apart-fresh_entries i (j + 1) n (omega arith),
)

Pairwise-fresh_entries : (i n : ℕ) → Pairwise (fresh_entries i n)
Pairwise-fresh_entries i zero = tt
Pairwise-fresh_entries i (suc n) =
    (Apart-fresh_entries i (i + 1) n (omega arith), Pairwise-fresh_entries (i + 1) n)

Counts-fresh_entries : (i n : ℕ) → All (Counts []) (fresh_entries i n)
Counts-fresh_entries i zero = tt
Counts-fresh_entries i (suc n) = (refl, Counts-fresh_entries (i + 1) n)

In-Apart :
    (e : Entry) (v : LruValue) (es : List Entry)
    → All (Apart e) es
    → In v es
    → (e.slot ≢ v.slot) × (e.key ≢ some v.key)
In-Apart e v [] a at = absurd at
In-Apart e v (f ∷ es) ((slots, keys), _) (inl (s, k)) =
    (λ h. slots (h ∙ sym s), λ h. keys v.key h k)
In-Apart e v (f ∷ es) (_, a) (inr at) = In-Apart e v es a at

-- Two values in use are one value exactly when their keys are equal.
abbrev pub Shares : LruValue → LruValue → Type 0
Shares u v = (u.key ≡ v.key → u.slot ≡ v.slot) × (u.slot ≡ v.slot → u.key ≡ v.key)

In-Shares : (u v : LruValue) (es : List Entry) → Pairwise es → In u es → In v es → Shares u v
In-Shares u v [] p at at' = absurd at
In-Shares u v (e ∷ es) p (inl (s, k)) (inl (s', k')) = (λ h. sym s ∙ s', λ h. ground (arith, k, k'))
In-Shares u v (e ∷ es) (a, p) (inl (s, k)) (inr at) =
    let (slots, keys) = In-Apart e v es a at in
    (λ h. absurd (keys (k ∙ ap some h)), λ h. absurd (slots (s ∙ h)))
In-Shares u v (e ∷ es) (a, p) (inr at) (inl (s, k)) =
    let (slots, keys) = In-Apart e u es a at in
    (λ h. absurd (keys (k ∙ ap some (sym h))), λ h. absurd (slots (s ∙ sym h)))
In-Shares u v (e ∷ es) (_, p) (inr at) (inr at') = In-Shares u v es p at at'

-- From a new cache, after any calls, two values in use are the same value exactly when they were
-- asked for by the same key: no key's value is in use in two slots, and no slot is given to another
-- key while it is in use.
pub Reach-Shares :
    (size : ℕ) (es : List Entry) (s : System)
    → new size ≡ done es
    → Reach (record { list = es; held = [] }) s
    → All (λ u. All (λ v. Shares u v) s.held) s.held
unfolding new
Reach-Shares size es s made path =
    let fresh : fresh_entries 0 size ≡ es = ground (arith, made) in
    let start : IsCoherent es [] =
      subst (λ x. IsCoherent x []) fresh
        (record {
          apart = Pairwise-fresh_entries 0 size;
          counted = Counts-fresh_entries 0 size;
          present = tt;
        }) in
    let c : IsCoherent s.list s.held = Reach-IsCoherent start path in
    All-map s.held (λ u at. All-map s.held (λ v at'. In-Shares u v s.list c.apart at at') c.present)
      c.present
