-- ===== src/Slab/Init.antt =====
-- `SlabAllocator::new` puts every object of the range on the free list.
use ov.Prelude.{
  ℕ, zero, suc, ◌+◌, ◌-◌, ◌*◌, ◌%◌, ◌≤◌, ◌<◌, ◌≡◌, refl, subst, sym, ◌∙◌, true, Option, none, some,
  arith, Distinct, done, leb, le→leb,
}
use native.Mathlib.Nat.{zero-mod, add-mod, mul-mod_left}
use ov.FreeList.{Memory, write_next, Chain, Chain-push}
use ov.PageAlloc.Laws.{Pages}
use ov.PageAlloc.Init.{pages_from, Distinct-pages_from}
use ov.Slab.{State, new_loop, new}
use ov.Slab.Laws.{IsValid}

module _ (size align : ℕ) where
  -- The rounds from `p` down, where `j` objects from `p` up are on the list.
  loop_lem :
      (fuel k start p j : ℕ) (m : Memory) (head : Option ℕ)
      → 0 < size
      → 0 < start
      → p ≡ start + k * size
      → p < fuel
      → Chain m head (pages_from size p j)
      → (m' : Memory) × (head' : Option ℕ) × (new_loop size align fuel start p m head
          ≡ done (m', head'))
        × Chain m' head' (pages_from size start (k + j))
  unfolding new_loop pages_from
  loop_lem zero k start p j m head h above e f c = absurd (omega arith)
  loop_lem (suc fuel) zero start p j m head h above e f c =
      let e' : p ≡ start = omega arith in
      let e'' : 0 + j ≡ j = omega arith in
      (m, head, ground arith, rw e'' (subst (λ q. Chain m head (pages_from size q j)) e' c))
  loop_lem (suc fuel) (suc k) start p j m head h above e f c =
      let q = p - size in
      let above_q : q + size ≡ p = omega arith in
      let d : Distinct (pages_from size q (suc j)) = Distinct-pages_from size q (suc j) h in
      let c' : Chain (write_next m q head) (some q) (pages_from size q (suc j)) =
        Chain-push m head q _ d.0
          (subst (λ x. Chain m head (pages_from size x j)) (sym above_q) c) in
      let (m', head', run, chain) =
        loop_lem fuel k start q (suc j) (write_next m q head) (some q) h above (omega arith)
          (omega arith) c' in
      let shift : k + suc j ≡ suc k + j = omega arith in
      (
        m',
        head',
        ground (arith, run),
        subst (λ x. Chain m' head' (pages_from size start x)) shift chain,
      )

  aligned_next : (p : ℕ) → size % align ≡ 0 → p % align ≡ 0 → (p + size) % align ≡ 0
  aligned_next p s a =
      let e : (p % align + size % align) % align ≡ p % align = rw (s, a) (zero-mod align) in
      add-mod p size align ∙ e ∙ a

  Pages-objects :
      (lo start k end : ℕ)
      → 0 < size
      → size % align ≡ 0
      → lo ≤ start
      → start % align ≡ 0
      → start + k * size ≤ end
      → Pages align lo end (pages_from size start k)
  unfolding pages_from
  Pages-objects lo start zero end h s l a e = tt
  Pages-objects lo start (suc k) end h s l a e = (
    (a, l, grind arith),
    Pages-objects lo (start + size) k end h s (omega arith) (aligned_next start s a) (omega arith),
  )

  aligned_end :
      (start k : ℕ) → size % align ≡ 0 → start % align ≡ 0 → (start + k * size) % align ≡ 0
  aligned_end start zero s a =
      let e : start ≡ start + 0 * size = omega arith in subst (λ x. x % align ≡ 0) e a
  aligned_end start (suc k) s a =
      let e : start + k * size + size ≡ start + suc k * size = omega arith in
      subst (λ x. x % align ≡ 0) e (aligned_next (start + k * size) s (aligned_end start k s a))

  -- On a range of `k` objects from an aligned address above 0, of a type that a `Run` of 8 bytes fits
  -- in and whose size is a multiple of its alignment, `new` ends and does not panic; all `k` objects are free, and each once.
  pub new-IsValid :
      (start k : ℕ) (m : Memory)
      → 8 ≤ size
      → align % 8 ≡ 0
      → size % align ≡ 0
      → 0 < start
      → start % align ≡ 0
      → (s : State) × (new size align start (start + k * size) m ≡ done s)
        × IsValid size align s (pages_from size start k)
        × (s.range_start ≡ start)
        × (s.range_end ≡ start + k * size)
  unfolding new pages_from
  new-IsValid start k m big runs s above a =
      let h : 0 < size = omega (arith, big) in
      let end = start + k * size in
      let z : k + 0 ≡ k = omega arith in
      let at_end : end % align ≡ 0 = aligned_end start k s a in
      let len : end - start ≡ k * size = omega arith in
      let whole : (end - start) % size ≡ 0 = rw len (mul-mod_left k size) in
      let le : leb start end ≡ true = le→leb start end (omega arith) in
      let (m', head, run, chain) =
        loop_lem (suc end) k start end 0 m none h above refl (omega arith) refl in
      let made : State = record {
        allocator = record { range_start = start; range_end = end; free_list = head };
        memory = m';
      } in
      (
        made,
        rw (le→leb 8 size big, runs, a, at_end, le, whole, run),
        record {
          chained = subst (λ x. Chain m' head (pages_from size start x)) z chain;
          distinct = Distinct-pages_from size start k h;
          objects = Pages-objects start start k end h s (omega arith) a (omega arith);
        },
        refl,
        refl,
      )
