-- ===== src/Ring.antt =====
-- The ring buffers of crates/kernel/ov6_kernel/src/file/pipe.rs and console/mod.rs: an array of a
-- fixed size, indexed by the remainder of counters that only grow.
use ov.Prelude.{
  ℕ, ◌+◌, ◌*◌, ◌/◌, ◌%◌, ◌≤◌, ◌<◌, ◌≡◌, subst, sym, ◌∙◌, ◌≢◌, List, [], ◌∷◌, ◌++◌, arith, length,
  get_or, set, get_or-set_self, get_or-set_ne,
}
use ov.Prelude.{dec_lt}
use native.Mathlib.Nat.{div-add-mod', mul-le-mul_right, mod-lt}

module _ (size : ℕ) where
  -- The elements of the ring from counter `i` on are `q`.
  abbrev pub Stores : List ℕ → ℕ → List ℕ → Type 0
  Stores bytes i [] = Unit {0}
  Stores bytes i (b ∷ q) = (get_or bytes (i % size) 0 ≡ b) × Stores bytes (i + 1) q

  -- Counters less than a turn apart are at different places.
  mod_ne : (i j : ℕ) → i < j → j < i + size → i % size ≢ j % size
  mod_ne i j lo hi e =
      let i' : i / size * size + i % size ≡ i = omega (arith, div-add-mod' i size) in
      let j' : j / size * size + j % size ≡ j = omega (arith, div-add-mod' j size) in
      elim (dec_lt (i / size) (j / size)) [
        | yes l ↦ omega (arith, mul-le-mul_right size l)
        | no n ↦
            let le : j / size ≤ i / size = omega arith in omega (arith, mul-le-mul_right size le)
      ]

  Stores-set :
      (bytes : List ℕ) (i j v : ℕ) (q : List ℕ)
      → i + length q ≤ j
      → j < i + size
      → Stores bytes i q
      → Stores (set bytes (j % size) v) i q
  Stores-set bytes i j v [] lo hi s = tt
  Stores-set bytes i j v (b ∷ q) lo hi (here, s) =
      let ne : j % size ≢ i % size = λ e. mod_ne i j (omega arith) hi (sym e) in
      (
        get_or-set_ne bytes (j % size) (i % size) v 0 ne ∙ here,
        Stores-set bytes (i + 1) j v q (omega arith) (omega arith) s,
      )

  Stores-append :
      (bytes : List ℕ) (i v : ℕ) (q : List ℕ)
      → Stores bytes i q
      → get_or bytes ((i + length q) % size) 0 ≡ v
      → Stores bytes i (q ++ (v ∷ []))
  Stores-append bytes i v [] s e = (subst (λ j. get_or bytes (j % size) 0 ≡ v) (omega arith) e, tt)
  Stores-append bytes i v (b ∷ q) (here, s) e = (
    here,
    Stores-append bytes (i + 1) v q s (subst (λ j. get_or bytes (j % size) 0 ≡ v) (omega arith) e),
  )

  -- Storing at the counter past the end, where there is room.
  pub Stores-push :
      (bytes : List ℕ) (i v : ℕ) (q : List ℕ)
      → length bytes ≡ size
      → length q < size
      → Stores bytes i q
      → Stores (set bytes ((i + length q) % size) v) i (q ++ (v ∷ []))
  Stores-push bytes i v q len room s =
      let j = i + length q in
      let lt : j % size < length bytes = rw len (mod-lt j (omega arith)) in
      Stores-append (set bytes (j % size) v) i v q
        (Stores-set bytes i j v q (omega arith) (omega arith) s)
        (get_or-set_self bytes (j % size) v 0 lt)

  -- The last element of what is stored, and what is stored before it.
  pub Stores-init :
      (bytes : List ℕ) (i b : ℕ) (q : List ℕ)
      → Stores bytes i (q ++ (b ∷ []))
      → Stores bytes i q × (get_or bytes ((i + length q) % size) 0 ≡ b)
  Stores-init bytes i b [] (e, _) = (tt, subst (λ j. get_or bytes (j % size) 0 ≡ b) (omega arith) e)
  Stores-init bytes i b (x ∷ q) (here, s) =
      let (rest, e) = Stores-init bytes (i + 1) b q s in
      ((here, rest), subst (λ j. get_or bytes (j % size) 0 ≡ b) (omega arith) e)
