-- ===== src/PageAlloc/History.antt =====
-- Histories of `alloc` and `free`: a caller takes pages, and gives back pages that it holds.
use ov.Prelude.{
  ℕ, ◌+◌, ◌≡◌, subst, some, List, [], ◌∷◌, ◌++◌, arith, length, length-append, Fresh, Distinct-pull,
  Distinct-push, Fresh-append_right, Distinct, done,
}
use mathlib.Core.List.{append_assoc}
use ov.PageAlloc.{State, alloc, free}
use ov.PageAlloc.Laws.{
  Pages, IsValid, pushed, pushed-IsValid, alloc_nil, alloc_cons, popped, popped-IsValid,
}
use ov.PageAlloc.Free.{free-pushed, allocated}

module _ (page_size : ℕ) where
  -- The allocator beside the pages that callers hold.
  pub record System : Type 0 where
    pub state : State
    pub held : List ℕ

  -- One call that returns: `alloc` hands out a page, `free` takes back a page that is held.
  pub data Step : System → System → Type 0 where
    allocs :
        (a : System) (p : ℕ) (t : State)
        → alloc page_size a.state ≡ done (some p, t)
        → Step a (record { state = t; held = p ∷ a.held })
    frees :
        (s : State) (p : ℕ) (before after : List ℕ) (t : State)
        → free page_size s p ≡ done t
        → Step
            (record { state = s; held = before ++ (p ∷ after) })
            (record { state = t; held = before ++ after })

  pub data Reach (a : System) : System → Type 0 where
    here : Reach a a
    next : {b c : System} → Reach a b → Step b c → Reach a c

  -- The free pages and the pages held are the pages of the heap, none of them twice.
  pub record Partitions (a : System) : Type 0 where
    pub free_pages : List ℕ
    pub valid : IsValid page_size a.state free_pages
    pub held_pages : Pages page_size a.state.heap_start a.state.heap_end a.held
    pub disjoint : Distinct (a.held ++ free_pages)
    pub total : length a.held + length free_pages ≡ a.state.total_pages

  Pages-pull :
      (lo hi p : ℕ) (xs ys : List ℕ)
      → Pages page_size lo hi (xs ++ (p ∷ ys))
      → Pages page_size lo hi (p ∷ (xs ++ ys))
  Pages-pull lo hi p [] ys g = g
  Pages-pull lo hi p (x ∷ xs) ys (top, g) =
      let (page, rest) = Pages-pull lo hi p xs ys g in (page, (top, rest))

  alloc-Partitions :
      (s : State) (held fs : List ℕ) (p : ℕ) (t : State)
      → IsValid page_size s fs
      → Pages page_size s.heap_start s.heap_end held
      → Distinct (held ++ fs)
      → length held + length fs ≡ s.total_pages
      → alloc page_size s ≡ done (some p, t)
      → Partitions (record { state = t; held = p ∷ held })
  alloc-Partitions s held [] p t v g d n run = absurd (ground (arith, alloc_nil page_size s v))
  alloc-Partitions s held (q ∷ fs) p t v g d n run =
      let first : q ≡ p = cc (alloc_cons page_size s q fs v) in
      let after : popped page_size s q ≡ t = cc (alloc_cons page_size s q fs v) in
      let u : State = popped page_size s q in
      let result : Partitions (record { state = u; held = q ∷ held }) = record {
        free_pages = fs;
        valid = popped-IsValid page_size s q fs v;
        held_pages = (v.pages.0, g);
        disjoint = Distinct-pull q held fs d;
        total = omega arith;
      } in
      subst (λ x. Partitions (record { state = t; held = x ∷ held })) first
        (subst (λ x. Partitions (record { state = x; held = q ∷ held })) after result)

  free-Partitions :
      (s : State) (p : ℕ) (before after : List ℕ) (t : State)
      → free page_size s p ≡ done t
      → Partitions (record { state = s; held = before ++ (p ∷ after) })
      → Partitions (record { state = t; held = before ++ after })
  free-Partitions s p before after t run v =
      let fs = v.free_pages in
      let (page, rest) = Pages-pull s.heap_start s.heap_end p before after v.held_pages in
      let pulled : Distinct (p ∷ (before ++ (after ++ fs))) =
        Distinct-pull p before (after ++ fs)
          (subst (λ (l : List ℕ). Distinct l) (append_assoc before (p ∷ after) fs) v.disjoint) in
      let d : Distinct (p ∷ ((before ++ after) ++ fs)) = rw (append_assoc before after fs) pulled in
      let f : Fresh p fs = Fresh-append_right p (before ++ after) fs d.0 in
      let u : State = pushed page_size s p in
      let back : u ≡ t =
        cc (free-pushed page_size s p (allocated page_size s.allocator p page.0 page.1 page.2)) in
      let result : Partitions (record { state = u; held = before ++ after }) = record {
        free_pages = p ∷ fs;
        valid = pushed-IsValid page_size s p fs v.valid f page.0 page.1 page.2;
        held_pages = rest;
        disjoint = Distinct-push p (before ++ after) fs d;
        total =
            omega (arith, v.total, length-append before (p ∷ after), length-append before after);
      } in
      subst (λ x. Partitions (record { state = x; held = before ++ after })) back result

  -- No page is handed out twice: if the pages held and the pages free are distinct pages of the heap,
  -- and together as many as the heap has, they still are after an `alloc` that hands out a page, and
  -- after a `free` of a page that is held.
  pub Step-Partitions : {a b : System} → Step a b → Partitions a → Partitions b
  Step-Partitions (allocs a p t run) v =
      alloc-Partitions a.state a.held v.free_pages p t v.valid v.held_pages v.disjoint v.total run
  Step-Partitions (frees s p before after t run) v = free-Partitions s p before after t run v
