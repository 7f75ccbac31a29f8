-- ===== src/PageAlloc/Init.antt =====
-- `PageFrameAllocator::new` puts every page of the heap on the free list, in ascending order.
use ov.Prelude.{
  ℕ, zero, suc, ◌+◌, ◌-◌, ◌*◌, ◌%◌, ◌≤◌, ◌<◌, ◌≡◌, refl, subst, sym, Option, none, some, List, [],
  ◌∷◌, arith, length, Fresh, Distinct, done,
}
use native.Mathlib.Nat.{add-mod_right, add-mul-mod_self_right}
use ov.FreeList.{Memory, write_next, Chain, Chain-push}
use ov.PageAlloc.{State, new_loop, new}
use ov.PageAlloc.Laws.{Pages, IsValid}

module _ (page_size : ℕ) where
  -- `k` pages from `start` on.
  unfoldable pub pages_from : ℕ → ℕ → List ℕ
  pages_from start zero = []
  pages_from start (suc k) = start ∷ pages_from (start + page_size) k

  Fresh-pages_from : (p start k : ℕ) → p < start → Fresh p (pages_from start k)
  unfolding pages_from
  Fresh-pages_from p start zero h = tt
  Fresh-pages_from p start (suc k) h =
      (omega arith, Fresh-pages_from p (start + page_size) k (omega arith))

  pub Distinct-pages_from : (start k : ℕ) → 0 < page_size → Distinct (pages_from start k)
  unfolding pages_from
  Distinct-pages_from start zero h = tt
  Distinct-pages_from start (suc k) h = (
    Fresh-pages_from start (start + page_size) k (omega arith),
    Distinct-pages_from (start + page_size) k h,
  )

  length-pages_from : (start k : ℕ) → length (pages_from start k) ≡ k
  unfolding pages_from
  length-pages_from start zero = refl
  length-pages_from start (suc k) = omega (arith, length-pages_from (start + page_size) k)

  Pages-pages_from :
      (lo start k end : ℕ)
      → 0 < page_size
      → lo ≤ start
      → start % page_size ≡ 0
      → start + k * page_size ≤ end
      → Pages page_size lo end (pages_from start k)
  unfolding pages_from
  Pages-pages_from lo start zero end h l a e = tt
  Pages-pages_from lo start (suc k) end h l a e =
      let a' : (start + page_size) % page_size ≡ 0 = rw (add-mod_right start page_size) a in
      (
        (a, l, grind arith),
        Pages-pages_from lo (start + page_size) k end h (omega arith) a' (omega arith),
      )

  -- The rounds from `p` down, where `j` pages from `p` up are on the list.
  new_loop_lem :
      (fuel k start p j total : ℕ) (m : Memory) (head : Option ℕ)
      → 0 < page_size
      → p ≡ start + k * page_size
      → p < fuel
      → Distinct (pages_from p j)
      → Chain m head (pages_from p j)
      → (m' : Memory) × (head' : Option ℕ) × (new_loop page_size fuel start p m head total
          ≡ done (m', head', total + k))
        × Chain m' head' (pages_from start (k + j))
  unfolding new_loop pages_from
  new_loop_lem zero k start p j total m head h e f d c = absurd (omega arith)
  new_loop_lem (suc fuel) zero start p j total m head h e f d c =
      let e' : p ≡ start = omega arith in
      let e'' : 0 + j ≡ j = omega arith in
      (m, head, ground arith, rw e'' (subst (λ q. Chain m head (pages_from q j)) e' c))
  new_loop_lem (suc fuel) (suc k) start p j total m head h e f d c =
      let q = p - page_size in
      let above : q + page_size ≡ p = omega arith in
      let d' : Distinct (pages_from q (suc j)) = Distinct-pages_from q (suc j) h in
      let c' : Chain (write_next m q head) (some q) (pages_from q (suc j)) =
        Chain-push m head q _ d'.0 (subst (λ x. Chain m head (pages_from x j)) (sym above) c) in
      let (m', head', run, chain) =
        new_loop_lem fuel k start q (suc j) (total + 1) (write_next m q head) (some q) h
          (omega arith) (omega arith) d' c' in
      let shift : k + suc j ≡ suc k + j = omega arith in
      (m', head', ground (arith, run), subst (λ x. Chain m' head' (pages_from start x)) shift chain)

  -- On a heap of `k` pages from an aligned address above 0, with a page size that has room for a
  -- `Run` of 8 bytes, `new` ends and does not panic; all `k` pages are free, each once, and counted.
  pub new_lem :
      (start k : ℕ) (m : Memory)
      → 8 ≤ page_size
      → 0 < start
      → start % page_size ≡ 0
      → (s : State) × (new page_size start (start + k * page_size) m ≡ done s)
        × IsValid page_size s (pages_from start k)
        × (s.total_pages ≡ k)
        × (s.heap_start ≡ start)
        × (s.heap_end ≡ start + k * page_size)
  unfolding new pages_from
  new_lem start k m big above a =
      let h : 0 < page_size = omega (arith, big) in
      let e : k + 0 ≡ k = omega arith in
      let end = start + k * page_size in
      let aligned : end % page_size ≡ 0 = rw (add-mul-mod_self_right start k page_size) a in
      let (m', head, run, chain) =
        new_loop_lem (suc end) k start end 0 0 m none h refl (omega arith) tt refl in
      let s : State = record {
        allocator = record {
          heap_start = start;
          heap_end = end;
          free_list = head;
          total_pages = k;
          free_pages = k;
        };
        memory = m';
      } in
      (
        s,
        ground (arith, run, big, above),
        record {
          chained = subst (λ x. Chain m' head (pages_from start x)) e chain;
          distinct = Distinct-pages_from start k h;
          pages = Pages-pages_from start start k end h (omega arith) a (omega arith);
          counted = omega (arith, length-pages_from start k);
        },
        refl,
        refl,
        refl,
      )
