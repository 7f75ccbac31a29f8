-- ===== src/Slab/Laws.antt =====
-- What `allocate` and `deallocate` do to the set of free objects.
use ov.Prelude.{
  ℕ, ◌≡◌, refl, ◌⊎◌, inl, inr, true, false, none, some, List, [], ◌∷◌, arith, Fresh, Distinct, done,
  panic, Bool-cases,
}
use ov.FreeList.{write_next, Chain, Chain-push}
use ov.PageAlloc.Laws.{Pages}
use ov.Slab.{State, allocate, is_ours, deallocate}

module _ (size align : ℕ) where
  -- The free list runs through the distinct, aligned objects `ps` of the range.
  pub record IsValid (s : State) (ps : List ℕ) : Type 0 where
    pub chained : Chain s.memory s.free_list ps
    pub distinct : Distinct ps
    pub objects : Pages align s.range_start s.range_end ps

  abbrev popped : State → ℕ → State
  popped s p = record s { allocator = record (s.allocator) { free_list = s.memory p } }

  allocate_cons :
      (s : State) (p : ℕ) (ps : List ℕ)
      → IsValid s (p ∷ ps)
      → allocate size align s ≡ (some p, popped s p)
  unfolding allocate
  allocate_cons s p ps v = ground (arith, v.chained.0)

  -- On a valid list `allocate` returns none exactly when nothing is free, and else an aligned object
  -- of the range that is not on the list afterwards, which is valid.
  pub allocate_lem :
      (s : State) (ps : List ℕ)
      → IsValid s ps
      → ((ps ≡ []) × (allocate size align s ≡ (none, s)))
        ⊎ ((p : ℕ) × (rest : List ℕ) × (t : State) × (ps ≡ p ∷ rest)
            × (allocate size align s ≡ (some p, t))
            × (is_ours size align s.allocator p ≡ true)
            × Fresh p rest
            × IsValid t rest)
  unfolding allocate
  allocate_lem s [] v = inl (refl, ground (arith, v.chained))
  allocate_lem s (p ∷ ps) v = inr (
    p,
    ps,
    popped s p,
    refl,
    allocate_cons s p ps v,
    ground (arith, v.objects.0),
    v.distinct.0,
    record { chained = v.chained.1; distinct = v.distinct.1; objects = v.objects.1 },
  )

  abbrev pushed : State → ℕ → State
  pushed s p = record s {
    allocator = record (s.allocator) { free_list = some p };
    memory = write_next s.memory p s.free_list;
  }

  pushed-IsValid :
      (s : State) (ps : List ℕ) (p : ℕ)
      → IsValid s ps
      → Fresh p ps
      → is_ours size align s.allocator p ≡ true
      → IsValid (pushed s p) (p ∷ ps)
  pushed-IsValid s ps p v f ours = record {
    chained = Chain-push s.memory s.free_list p ps f v.chained;
    distinct = (f, v.distinct);
    objects = ((ground (arith, ours), ground (arith, ours), ground (arith, ours)), v.objects);
  }

  -- On a valid list `deallocate` panics on every address that is outside the range or not aligned.
  -- Any other that is not free is put on the list, which stays valid, and the next `allocate`
  -- returns it and restores the list.
  pub deallocate_lem :
      (s : State) (ps : List ℕ) (p : ℕ)
      → IsValid s ps
      → Fresh p ps
      → ((is_ours size align s.allocator p ≡ false) × (deallocate size align s p ≡ panic))
        ⊎ ((t u : State) × (deallocate size align s p ≡ done t)
            × IsValid t (p ∷ ps)
            × (allocate size align t ≡ (some p, u))
            × (u.allocator ≡ s.allocator))
  unfolding deallocate
  deallocate_lem s ps p v f = elim (Bool-cases (is_ours size align s.allocator p)) [
    | inl ours ↦
        let w = pushed-IsValid s ps p v f ours in
        inr (
          pushed s p,
          popped (pushed s p) p,
          ground (arith, ours),
          w,
          allocate_cons (pushed s p) p ps w,
          ground arith,
        )
    | inr other ↦ inl (other, ground (arith, other))
  ]
