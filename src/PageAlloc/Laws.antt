-- ===== src/PageAlloc/Laws.antt =====
-- What `alloc`, `alloc_zeroed` and `free` do to the set of free pages.
use ov.Prelude.{
  ℕ, ◌+◌, ◌-◌, ◌%◌, ◌≤◌, ◌<◌, ◌≡◌, refl, ◌⊎◌, inl, inr, true, none, some, List, [], ◌∷◌, arith,
  length, Fresh, Distinct, done,
}
use ov.FreeList.{write_next, Chain, Chain-push}
use ov.PageAlloc.{State, alloc, is_allocated_pointer}

module _ (page_size : ℕ) where
  -- Every address is a page of the heap.
  abbrev pub Pages : ℕ → ℕ → List ℕ → Type 0
  Pages start end [] = Unit {0}
  Pages start end (p ∷ ps) = ((p % page_size ≡ 0) × (start ≤ p) × (p < end)) × Pages start end ps

  -- The free list runs through the distinct pages `ps` of the heap, and is counted right.
  pub record IsValid (s : State) (ps : List ℕ) : Type 0 where
    pub chained : Chain s.memory s.free_list ps
    pub distinct : Distinct ps
    pub pages : Pages s.heap_start s.heap_end ps
    pub counted : s.free_pages ≡ length ps

  pub alloc_nil : (s : State) → IsValid s [] → alloc page_size s ≡ done (none, s)
  unfolding alloc
  alloc_nil s v = ground arith

  -- The state after the page in front is taken.
  abbrev pub popped : State → ℕ → State
  popped s p = record s {
    allocator = record (s.allocator) { free_list = s.memory p; free_pages = s.free_pages - 1 };
  }

  pub alloc_cons :
      (s : State) (p : ℕ) (ps : List ℕ)
      → IsValid s (p ∷ ps)
      → alloc page_size s ≡ done (some p, popped s p)
  unfolding alloc
  alloc_cons s p ps v = ground arith

  pub popped-IsValid :
      (s : State) (p : ℕ) (ps : List ℕ) → IsValid s (p ∷ ps) → IsValid (popped s p) ps
  popped-IsValid s p ps v = record {
    chained = v.chained.1;
    distinct = v.distinct.1;
    pages = v.pages.1;
    counted = omega (arith, v.counted);
  }

  -- On a valid list `alloc` takes a page of the heap that is not on the list afterwards, which is
  -- valid and counts one less, and returns none exactly when no page is free. It never panics.
  pub alloc_lem :
      (s : State) (ps : List ℕ)
      → IsValid s ps
      → ((s.free_pages ≡ 0) × (alloc page_size s ≡ done (none, s)))
        ⊎ ((p : ℕ) × (rest : List ℕ) × (t : State) × (ps ≡ p ∷ rest)
            × (alloc page_size s ≡ done (some p, t))
            × (is_allocated_pointer page_size s.allocator p ≡ true)
            × Fresh p rest
            × IsValid t rest
            × (t.free_pages + 1 ≡ s.free_pages))
  unfolding is_allocated_pointer
  alloc_lem s [] v = inl (v.counted, alloc_nil s v)
  alloc_lem s (p ∷ ps) v = inr (
    p,
    ps,
    popped s p,
    refl,
    alloc_cons s p ps v,
    ground (arith, v.pages.0),
    v.distinct.0,
    popped-IsValid s p ps v,
    omega (arith, v.counted),
  )

  -- The state after a page is put in front.
  abbrev pub pushed : State → ℕ → State
  pushed s p = record s {
    allocator = record (s.allocator) { free_list = some p; free_pages = s.free_pages + 1 };
    memory = write_next s.memory p s.free_list;
  }

  pub pushed-IsValid :
      (s : State) (p : ℕ) (ps : List ℕ)
      → IsValid s ps
      → Fresh p ps
      → p % page_size ≡ 0
      → s.heap_start ≤ p
      → p < s.heap_end
      → IsValid (pushed s p) (p ∷ ps)
  pushed-IsValid s p ps v f a lo hi = record {
    chained = Chain-push s.memory s.free_list p ps f v.chained;
    distinct = (f, v.distinct);
    pages = ((a, lo, hi), v.pages);
    counted = omega (arith, v.counted);
  }
