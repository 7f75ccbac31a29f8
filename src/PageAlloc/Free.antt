-- ===== src/PageAlloc/Free.antt =====
-- `free`, `alloc_zeroed`, and how they answer `alloc`.
use ov.Prelude.{
  dec_lt, ℕ, ◌+◌, ◌*◌, ◌/◌, ◌%◌, ◌≤◌, ◌<◌, ◌≡◌, ◌⊎◌, inl, inr, true, false, none, some, List, [],
  ◌∷◌, arith, Fresh, done, panic, Bool-cases,
}
use native.Mathlib.Nat.{div-add-mod', mul-le-mul_right}
use ov.FreeList.{Memory, Agree, Chain-Agree}
use ov.PageAlloc.{
  PageFrameAllocator, State, alloc, alloc_zeroed, write_zeros, free, is_allocated_pointer,
}
use ov.PageAlloc.Laws.{Pages, IsValid, pushed, pushed-IsValid, alloc_cons, popped, popped-IsValid}

module _ (page_size : ℕ) where
  pub allocated :
      (a : PageFrameAllocator) (p : ℕ)
      → p % page_size ≡ 0
      → a.heap_start ≤ p
      → p < a.heap_end
      → is_allocated_pointer page_size a p ≡ true
  unfolding is_allocated_pointer
  allocated a p h lo hi = ground arith

  pub free-pushed :
      (s : State) (p : ℕ)
      → is_allocated_pointer page_size s.allocator p ≡ true
      → free page_size s p ≡ done (pushed page_size s p)
  unfolding free is_allocated_pointer
  free-pushed s p h = ground arith

  -- On a valid list `free` panics on every address that is not a page of the heap. A page of the heap that is not
  -- free is put on the list, which stays valid, and the next `alloc` returns it and restores the
  -- counts and the list.
  pub free_lem :
      (s : State) (ps : List ℕ) (p : ℕ)
      → IsValid page_size s ps
      → Fresh p ps
      → ((is_allocated_pointer page_size s.allocator p ≡ false) × (free page_size s p ≡ panic))
        ⊎ ((t u : State) × (free page_size s p ≡ done t)
            × IsValid page_size t (p ∷ ps)
            × (alloc page_size t ≡ done (some p, u))
            × (u.allocator ≡ s.allocator))
  unfolding is_allocated_pointer free
  free_lem s ps p v f = elim (Bool-cases (is_allocated_pointer page_size s.allocator p)) [
    | inl here ↦
        let t = pushed page_size s p in
        let w : IsValid page_size t (p ∷ ps) =
          pushed-IsValid page_size s p ps v f (ground arith) (ground arith) (ground arith) in
        inr (
          t,
          popped page_size t p,
          free-pushed s p here,
          w,
          alloc_cons page_size t p ps w,
          ground arith,
        )
    | inr away ↦ inl (away, ground arith)
  ]

  -- Two pages that overlap are one.
  same_page : (p q : ℕ) → p % page_size ≡ 0 → q % page_size ≡ 0 → p ≤ q → q < p + page_size → p ≡ q
  same_page p q a b lo hi =
      let p' : p / page_size * page_size ≡ p = omega (arith, div-add-mod' p page_size) in
      let q' : q / page_size * page_size ≡ q = omega (arith, div-add-mod' q page_size) in
      elim (dec_lt (p / page_size) (q / page_size)) [
        | yes l ↦ absurd (omega (arith, mul-le-mul_right page_size l))
        | no n ↦
            let le : q / page_size ≤ p / page_size = omega arith in
            omega (arith, mul-le-mul_right page_size le)
      ]

  Agree-write_zeros :
      (m : Memory) (p start end : ℕ) (ps : List ℕ)
      → 0 < page_size
      → p % page_size ≡ 0
      → Fresh p ps
      → Pages page_size start end ps
      → Agree m (write_zeros page_size m p) ps
  Agree-write_zeros m p start end [] h a f g = tt
  Agree-write_zeros m p start end (q ∷ ps) h a (ne, f) ((b, _, _), g) =
      (ground (arith, same_page p q a b), Agree-write_zeros m p start end ps h a f g)

  -- With a page free on a valid list, and a page size above 0, `alloc_zeroed` takes the page that `alloc` takes; no word of the page is other
  -- than zero, and the rest of the list is still valid, since no other page overlaps this one.
  pub alloc_zeroed_lem :
      (s : State) (p : ℕ) (ps : List ℕ)
      → 0 < page_size
      → IsValid page_size s (p ∷ ps)
      → (t : State) × (alloc_zeroed page_size s ≡ done (some p, t))
        × IsValid page_size t ps
        × ((q : ℕ) → p ≤ q → q < p + page_size → t.memory q ≡ none)
        × ((q : ℕ) → q < p → t.memory q ≡ s.memory q)
  unfolding alloc_zeroed
  alloc_zeroed_lem s p ps h v =
      let u = popped page_size s p in
      let w : IsValid page_size u ps = popped-IsValid page_size s p ps v in
      let m = write_zeros page_size u.memory p in
      (
        record u { memory = m },
        rw (alloc_cons page_size s p ps v),
        record {
          chained =
              Chain-Agree s.memory m u.free_list ps
                (Agree-write_zeros s.memory p s.heap_start s.heap_end ps h v.pages.0.0 v.distinct.0
                  v.pages.1)
                w.chained;
          distinct = w.distinct;
          pages = w.pages;
          counted = w.counted;
        },
        λ q lo hi. ground arith,
        λ q below. ground arith,
      )
