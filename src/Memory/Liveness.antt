-- ===== src/Memory/Liveness.antt =====
-- `map_addrs_level` where there are free pages and nothing is mapped.
use ov.Prelude.{
  ℕ, zero, suc, ◌+◌, ◌-◌, ◌*◌, ◌/◌, ◌%◌, ◌≤◌, ◌<◌, ◌≡◌, refl, subst, sym, ◌∙◌, true, false, inl,
  inr, arith, ◌==◌, ltb, lt→ltb, ==→eq,
}
use native.Mathlib.Nat.{suc-mul}
use ov.Memory.{
  virtual_page_not_mapped, Outcome, ok, err, panicked, page_size, level_page_size, usize_end,
}
use ov.Memory.Addr.{max_va, checked_plus, is_level_page_aligned}
use ov.Memory.Entry.{flag_v, has_rwx, insert, flags, phys_page_num}
use ov.Memory.Pages.{Heap}
use ov.Memory.Table.{
  Entries, MapTarget, allocate_new, allocated_addr, fixed_addr, map_page, find_leaf_entry,
}
use ov.Memory.Mapping.{IsTarget, map_page_lem}
use ov.Memory.MapRange.{
  Moved, shift, is_target_aligned, advance, map_pages, map_addrs_level, target_byte_add,
}
use ov.Memory.MapRuns.{WhenOk, byte_add_fits}
use ov.Memory.MapParts.{Part, Translates, At, run-Part}
use ov.Memory.MapAll.{shift_here, IsAligned-here}
use ov.Memory.Supply.{Pages, Pages-IsMonotone, map_page-runs}

-- The physical addresses up to the end of the range are addresses.
abbrev pub HasRoom : MapTarget → ℕ → Type 0
HasRoom (allocated_addr zeroed new) size = Unit {0}
HasRoom (fixed_addr pa) size = pa + size < usize_end

-- The next page of a target that has room for it.
next-IsTarget :
    (target : MapTarget) (rest : ℕ)
    → HasRoom target (page_size + rest)
    → (target' : MapTarget) × (target_byte_add target page_size ≡ ok target')
      × HasRoom target' rest
      × IsTarget target
next-IsTarget (allocated_addr zeroed new) rest r = (allocated_addr zeroed new, refl, tt, tt)
next-IsTarget (fixed_addr pa) rest r =
    let fits : ltb (pa + page_size) usize_end ≡ true = ground (arith, r) in
    (fixed_addr (pa + page_size), rw (checked_plus, fits) refl, omega (arith, r), omega (arith, r))

abbrev pub Unmapped : (va n : ℕ) → Entries → Type 0
Unmapped va zero es = Unit {0}
Unmapped va (suc n) es =
    (find_leaf_entry va es ≡ err (virtual_page_not_mapped va)) × Unmapped (va + page_size) n es

-- What is done to a page before a range leaves the range unmapped.
Unmapped-kept :
    (va at n perm : ℕ) (target : MapTarget) (es : Entries) (h : Heap)
    → va % page_size ≡ 0
    → va + page_size ≤ at
    → at + n * page_size ≤ max_va
    → perm < 1024
    → IsTarget target
    → Unmapped at n es
    → Unmapped at n (map_page 0 va target perm es h).1
Unmapped-kept va at zero perm target es h a l b p t u = tt
Unmapped-kept va at (suc n) perm target es h a l b p t (here, rest) =
    let size = suc-mul n page_size in
    (
      (map_page_lem 0 va at perm target es h (omega arith) (omega (arith, l, b, size))
              (omega (arith, b, size)) p t).0
            (λ e. omega (arith, e, a, l))
          ∙ here,
      Unmapped-kept va (at + page_size) n perm target es h a (omega (arith, l))
          (omega (arith, b, size)) p t rest,
    )

advance-runs :
    (res : Outcome (Unit {0})) (va rest : ℕ) (target : MapTarget)
    → res ≡ ok tt
    → va + page_size ≤ max_va
    → HasRoom target (page_size + rest)
    → (target' : MapTarget) × (advance res 0 va target ≡ ok (va + page_size, target'))
      × HasRoom target' rest
advance-runs res va rest target mapped b r =
    let (target', e, r', _) = next-IsTarget target rest r in
    (target', rw (mapped, byte_add_fits va page_size b, e) refl, r')

map_pages-runs :
    (n va perm : ℕ) (target : MapTarget) (es : Entries) (h : Heap)
    → va % page_size ≡ 0
    → va + n * page_size ≤ max_va
    → perm < 1024
    → has_rwx perm ≡ true
    → HasRoom target (n * page_size)
    → Pages n h
    → Unmapped va n es
    → (target' : MapTarget) × ((map_pages n 0 va (va + n * page_size) target perm es h).0
        ≡ ok (va + n * page_size, target'))
unfolding map_pages
map_pages-runs zero va perm target es h a b p x r s u =
    let here : va + 0 * page_size ≡ va = omega arith in
    let at_end : ltb va va ≡ false = ground arith in (target, rw (here, at_end) refl)
map_pages-runs (suc n) va perm target es h a b p x r s (here, rest) =
    let size : suc n * page_size ≡ page_size + n * page_size = omega arith in
    let room = subst (HasRoom target) size r in
    let (mapped, left) =
      map_page-runs (Pages n) va perm target es h (Pages-IsMonotone n) s p x here in
    let (target', e, r') =
      advance-runs (map_page 0 va target perm es h).0 va (n * page_size) target mapped
        (omega (arith, b)) room in
    let (_, _, _, it) = next-IsTarget target (n * page_size) room in
    let m = map_page 0 va target perm es h in
    let (end, run) =
      map_pages-runs n (va + page_size) perm target' m.1 m.2 (omega (arith, a)) (omega (arith, b)) p
        x r' left
        (Unmapped-kept va (va + page_size) n perm target es h a (omega arith) (omega (arith, b)) p
          it rest) in
    let ends : va + suc n * page_size ≡ va + page_size + n * page_size = omega arith in
    (
      end,
      rw (map_pages, lt→ltb va (va + suc n * page_size) (omega arith), e)
          (subst (λ z. (map_pages n 0 (va + page_size) z target' perm m.1 m.2).0 ≡ ok (z, end))
            (sym ends) run),
    )

-- It neither fails nor panics.
map_addrs_level-ok :
    (n va perm : ℕ) (target : MapTarget) (es : Entries) (h : Heap)
    → is_level_page_aligned va 0 ≡ true
    → is_target_aligned target 0 ≡ true
    → va + n * page_size ≤ max_va
    → perm < 1024
    → has_rwx perm ≡ true
    → HasRoom target (n * page_size)
    → Pages n h
    → Unmapped va n es
    → (target' : MapTarget) × ((map_addrs_level 0 va target (n * page_size) perm es h).0
        ≡ ok (va + n * page_size, target'))
unfolding map_addrs_level is_level_page_aligned
map_addrs_level-ok n va perm target es h a ta b p x r s u =
    let whole : (n * page_size % level_page_size 0 == 0) ≡ true = ground arith in
    let pages : n * page_size / level_page_size 0 ≡ n = omega arith in
    rw (map_addrs_level, a, ta, whole, x, byte_add_fits va (n * page_size) b, pages)
      (map_pages-runs n va perm target es h (==→eq (va % level_page_size 0) 0 a) b p x r s u)

HasRoom-IsTarget : (target : MapTarget) (size : ℕ) → HasRoom target size → IsTarget target
HasRoom-IsTarget (allocated_addr zeroed new) size r = tt
HasRoom-IsTarget (fixed_addr pa) size r = omega (arith, r)

-- An address of the range is mapped: by a leaf with the permissions, at its offset in the target.
abbrev pub IsMapped : (start : ℕ) → MapTarget → (perm other : ℕ) → Entries → Type 0
IsMapped start target perm other es =
    (level : ℕ) × (w : ℕ) × (find_leaf_entry other es ≡ ok (level, w))
    × (flags w ≡ insert flag_v perm)
    × At target (phys_page_num w * page_size + other % level_page_size level) (other - start)

-- The lookups after a success.
map_addrs_level-IsMapped :
    (n va perm other : ℕ) (target target' : MapTarget) (es : Entries) (h : Heap)
    → is_level_page_aligned va 0 ≡ true
    → is_target_aligned target 0 ≡ true
    → va + n * page_size ≤ max_va
    → perm < 1024
    → HasRoom target (n * page_size)
    → allocate_new target ≡ true
    → (map_addrs_level 0 va target (n * page_size) perm es h).0 ≡ ok (va + n * page_size, target')
    → va ≤ other
    → other < va + n * page_size
    → IsMapped va target perm other (map_addrs_level 0 va target (n * page_size) perm es h).1
unfolding is_level_page_aligned
map_addrs_level-IsMapped n va perm other target target' es h a ta b p r new run lo hi =
    let it = HasRoom-IsTarget target (n * page_size) r in
    let part : Part va target perm other va (va + n * page_size) es
        (map_addrs_level 0 va target (n * page_size) perm es h) =
      subst
        (λ t.
          Part va target perm other va (va + n * page_size) es
            (map_addrs_level 0 va t (n * page_size) perm es h))
        (shift_here target va)
        (run-Part 0 va va (n * page_size) n perm other target es h (omega arith) (omega arith) refl
          b (omega (arith, b, hi)) p (==→eq (va % level_page_size 0) 0 a)
          (IsAligned-here target va ta) (subst IsTarget (sym (shift_here target va)) it)) in
    elim (at_end (map_addrs_level 0 va target (n * page_size) perm es h) run part.1 lo hi) [
      | inl (_, level, w, leaf, perms, at) ↦ (level, w, leaf, perms, at)
      | inr (old, _) ↦ absurd (cc (new, old))
    ]
  where
    end : ℕ
    end = va + n * page_size

    found : Outcome (ℕ × ℕ) → Type 0
    found = Translates va target perm other (find_leaf_entry other es)

    at_end :
        (r : Moved)
        → r.0 ≡ ok (end, target')
        → WhenOk r.0 (λ moved.
          (moved.0 ≡ end)
          × (moved.1 ≡ shift target (end - va))
          × IsTarget moved.1
          × (va ≤ other → other < end → found (find_leaf_entry other r.1)))
        → va ≤ other
        → other < end
        → found (find_leaf_entry other r.1)
    at_end (ok m, es', h') e w = w.3
    at_end (err k, es', h') e w = absurd (cc e)
    at_end (panicked, es', h') e w = absurd (cc e)

-- `map_addrs_level` maps all pages of level 0 of an aligned range that ends at `VirtAddr::MAX` or
-- below, where nothing is mapped, to an aligned target that has room for it and allows no page that
-- is there already: with permissions that can be mapped, and three free pages for each page, it
-- neither fails nor panics, and it moves the address to the end of the range; afterwards each
-- address of the range is found, with the permissions, at the same offset of the target.
pub map_addrs_level-runs :
    (n va perm : ℕ) (target : MapTarget) (es : Entries) (h : Heap)
    → is_level_page_aligned va 0 ≡ true
    → is_target_aligned target 0 ≡ true
    → va + n * page_size ≤ max_va
    → perm < 1024
    → has_rwx perm ≡ true
    → HasRoom target (n * page_size)
    → allocate_new target ≡ true
    → Pages n h
    → Unmapped va n es
    → let r = map_addrs_level 0 va target (n * page_size) perm es h in
      (target' : MapTarget) × (r.0 ≡ ok (va + n * page_size, target'))
      × ((other : ℕ) → va ≤ other → other < va + n * page_size → IsMapped va target perm other r.1)
map_addrs_level-runs n va perm target es h a ta b p x r new s u =
    let (target', run) = map_addrs_level-ok n va perm target es h a ta b p x r s u in
    (
      target',
      run,
      λ other lo hi.
          map_addrs_level-IsMapped n va perm other target target' es h a ta b p r new run lo hi,
    )
