-- ===== src/Memory/MapParts.antt =====
-- A range that is mapped in parts, by pages of two sizes.
use ov.Prelude.{
  ℕ, zero, suc, ◌+◌, ◌-◌, ◌*◌, ◌/◌, ◌%◌, ◌≤◌, ◌<◌, ◌≡◌, refl, subst, sym, ap, ◌∙◌, ◌⊎◌, inl, inr,
  false, ◌&&◌, arith, ◌==◌, ltb, lt→ltb, Bool-cases,
}
use native.Mathlib.Nat.{suc-mul, zero-mul, mul-div_left}
use ov.Memory.{virtual_page_not_mapped, Outcome, ok, err, panicked, page_size, level_page_size}
use ov.Memory.Addr.{max_va, is_level_page_aligned}
use ov.Memory.Entry.{flag_v, has_rwx, insert, flags, phys_page_num}
use ov.Memory.Pages.{Heap}
use ov.Memory.Table.{
  Entries, MapTarget, allocated_addr, fixed_addr, allocate_new, map_page, find_leaf_entry,
}
use ov.Memory.Mapping.{MapsOrKeeps, IsTarget}
use ov.Memory.MapRange.{Moved, is_target_aligned, shift, map_pages, map_addrs_level}
use ov.Memory.MapLoop.{map_addrs_level_lem}
use ov.Memory.MapRuns.{WhenOk, Covers, shift_zero, byte_add_fits, advance_cases, page_size_pos}

map_pages-IsTarget :
    (n level va perm : ℕ) (target : MapTarget) (es : Entries) (h : Heap)
    → level ≤ 2
    → va + n * level_page_size level ≤ max_va
    → IsTarget target
    → WhenOk
        (map_pages n level va (va + n * level_page_size level) target perm es h).0
        (λ moved. (moved.1 ≡ shift target (n * level_page_size level)) × IsTarget moved.1)
unfolding map_pages
map_pages-IsTarget zero level va perm target es h l b t =
    let none_yet = zero-mul (level_page_size level) in
    let at_end : (ltb va (va + 0 * level_page_size level) ≡ false) = ground (arith, none_yet) in
    rw (map_pages, at_end) (rw none_yet (sym (shift_zero target)), t)
map_pages-IsTarget (suc n) level va perm target es h l b t =
    let size = suc-mul n (level_page_size level) in
    let pos = page_size_pos level l in
    let r = map_page level va target perm es h in
    let ends : (va + suc n * level_page_size level
        ≡ va + level_page_size level + n * level_page_size level) =
      omega (arith, size) in
    let whole : (level_page_size level + n * level_page_size level
        ≡ suc n * level_page_size level) =
      omega (arith, size) in
    rw (map_pages, lt→ltb va (va + suc n * level_page_size level) (omega (arith, size, pos)))
      (elim (advance_cases r.0 level va target t (omega (arith, b, size))) [
        | inl (target', e, mapped, t', sh) ↦ rw e (
            subst
              (λ z.
                WhenOk (map_pages n level (va + level_page_size level) z target' perm r.1 r.2).0
                  (λ moved.
                    (moved.1 ≡ shift target (suc n * level_page_size level)) × IsTarget moved.1))
              (sym ends)
              (subst
                (λ z.
                  WhenOk
                    (map_pages n level (va + level_page_size level)
                      (va + level_page_size level + n * level_page_size level) target' perm r.1
                      r.2).0
                    (λ moved. (moved.1 ≡ z) × IsTarget moved.1))
                (sh (n * level_page_size level) ∙ ap (shift target) whole)
                (map_pages-IsTarget n level (va + level_page_size level) perm target' r.1 r.2 l
                  (omega (arith, b, size)) t')))
        | inr (inl (k, e)) ↦ rw e tt
        | inr (inr e) ↦ rw e tt
      ])

map_addrs_level-IsTarget :
    (level va size perm n : ℕ) (target : MapTarget) (es : Entries) (h : Heap)
    → level ≤ 2
    → size ≡ n * level_page_size level
    → va + size ≤ max_va
    → IsTarget target
    → WhenOk
        (map_addrs_level level va target size perm es h).0
        (λ moved. (moved.1 ≡ shift target size) × IsTarget moved.1)
unfolding map_addrs_level
map_addrs_level-IsTarget level va size perm n target es h l s b t =
    elim (Bool-cases (is_level_page_aligned va level && is_target_aligned target level)) [
      | inr bad ↦ rw (map_addrs_level, bad) tt
      | inl good ↦ elim (Bool-cases ((size % level_page_size level == 0) && has_rwx perm)) [
        | inr bad ↦ rw (map_addrs_level, good, bad) tt
        | inl fine ↦
            let pages : (size / level_page_size level ≡ n) =
              rw s (mul-div_left n (page_size_pos level l)) in
            let ends : (va + size ≡ va + n * level_page_size level) = ap (λ z. va + z) s in
            rw (map_addrs_level, good, fine, byte_add_fits va size b, pages, ends)
              (subst
                (λ z.
                  WhenOk (map_pages n level va (va + n * level_page_size level) target perm es h).0
                    (λ moved. (moved.1 ≡ shift target z) × IsTarget moved.1))
                (sym s) (map_pages-IsTarget n level va perm target es h l (omega (arith, b, s)) t))
      ]
    ]

-- The physical address that belongs to an offset in the range.
abbrev pub At : MapTarget → ℕ → ℕ → Type 0
At (allocated_addr zeroed new) pa offset = Unit {0}
At (fixed_addr start) pa offset = pa ≡ start + offset

-- An address of the range is translated: by a leaf of whatever level, to its physical address.
abbrev pub Translates :
    (start : ℕ) → MapTarget → (perm other : ℕ) → Outcome (ℕ × ℕ) → Outcome (ℕ × ℕ) → Type 0
Translates start target perm other old new =
    ((old ≡ err (virtual_page_not_mapped other))
      × (level : ℕ) × (w : ℕ) × (new ≡ ok (level, w))
      × (flags w ≡ insert flag_v perm)
      × At target (phys_page_num w * page_size + other % level_page_size level) (other - start))
    ⊎ ((allocate_new target ≡ false) × (new ≡ old))

-- A part of the range that starts at `start` with `target`.
abbrev pub Part : (start : ℕ) → MapTarget → (perm other lo hi : ℕ) → Entries → Moved → Type 0
Part start target perm other lo hi es r =
    (((other < lo) ⊎ (hi ≤ other)) → find_leaf_entry other r.1 ≡ find_leaf_entry other es)
    × WhenOk r.0 (λ moved.
      (moved.0 ≡ hi)
      × (moved.1 ≡ shift target (hi - start))
      × IsTarget moved.1
      × (lo ≤ other
          → other < hi
          → Translates start target perm other (find_leaf_entry other es)
              (find_leaf_entry other r.1)))

-- The target is aligned where a part of the range starts.
abbrev pub IsAligned : (level : ℕ) → MapTarget → (offset : ℕ) → Type 0
IsAligned level (allocated_addr zeroed new) offset = Unit {0}
IsAligned level (fixed_addr pa) offset = (pa + offset) % level_page_size level ≡ 0

translated_addr :
    (level pa offset start va k other w : ℕ)
    → level ≤ 1
    → start + offset ≡ va
    → va % level_page_size level ≡ 0
    → (pa + offset) % level_page_size level ≡ 0
    → va + k * level_page_size level ≤ other
    → other < va + k * level_page_size level + level_page_size level
    → phys_page_num w ≡ (pa + offset + k * level_page_size level) / page_size
    → phys_page_num w * page_size + other % level_page_size level ≡ pa + (other - start)
translated_addr zero pa offset start va k other w l s a t lo hi p =
    omega (arith, s, a, t, lo, hi, p)
translated_addr (suc zero) pa offset start va k other w l s a t lo hi p =
    omega (arith, s, a, t, lo, hi, p)
translated_addr (suc (suc n)) pa offset start va k other w l s a t lo hi p =
    absurd (omega (arith, l))

Maps-Translates :
    (level start va offset k perm other : ℕ) (target : MapTarget) (old new : Outcome (ℕ × ℕ))
    → level ≤ 1
    → start + offset ≡ va
    → va % level_page_size level ≡ 0
    → IsAligned level target offset
    → va + k * level_page_size level ≤ other
    → other < va + k * level_page_size level + level_page_size level
    → MapsOrKeeps level other (shift (shift target offset) (k * level_page_size level)) perm old new
    → Translates start target perm other old new
Maps-Translates level start va offset k perm other (fixed_addr pa) old new l s a t lo hi
      (inl (o, w, n, f, g)) =
    inl (o, level, w, n, f, translated_addr level pa offset start va k other w l s a t lo hi g)
Maps-Translates level start va offset k perm other (fixed_addr pa) old new l s a t lo hi
      (inr kept) =
    inr kept
Maps-Translates level start va offset k perm other (allocated_addr z c) old new l s a t lo hi
      (inl (o, w, n, f, g)) =
    inl (o, level, w, n, f, tt)
Maps-Translates level start va offset k perm other (allocated_addr z c) old new l s a t lo hi
      (inr kept) =
    inr kept

-- The page of an address in a part.
page_of :
    (level va n other : ℕ)
    → level ≤ 1
    → va % level_page_size level ≡ 0
    → va ≤ other
    → other < va + n * level_page_size level
    → (k : ℕ) × (k < n)
      × (va + k * level_page_size level ≤ other)
      × (other < va + k * level_page_size level + level_page_size level)
page_of zero va n other l a lo hi =
    ((other - va) / 4096, omega (arith, lo, hi), omega (arith, lo, hi), omega (arith, lo, hi))
page_of (suc zero) va n other l a lo hi =
    ((other - va) / 2097152, omega (arith, lo, hi), omega (arith, lo, hi), omega (arith, lo, hi))
page_of (suc (suc m)) va n other l a lo hi = absurd (omega (arith, l))

shift-shift : (target : MapTarget) (a b : ℕ) → shift (shift target a) b ≡ shift target (a + b)
shift-shift (allocated_addr zeroed new) a b = refl
shift-shift (fixed_addr pa) a b = ap fixed_addr (omega arith)

-- A run over pages of one size is a part.
pub run-Part :
    (level start va size n perm other : ℕ) (target : MapTarget) (es : Entries) (h : Heap)
    → level ≤ 1
    → start ≤ va
    → size ≡ n * level_page_size level
    → va + size ≤ max_va
    → other ≤ max_va
    → perm < 1024
    → va % level_page_size level ≡ 0
    → IsAligned level target (va - start)
    → IsTarget (shift target (va - start))
    → Part start target perm other va
        (va + size)
        es
        (map_addrs_level level va (shift target (va - start)) size perm es h)
run-Part level start va size n perm other target es h l s e b o p a t it =
    join (map_addrs_level level va (shift target (va - start)) size perm es h)
      (map_addrs_level_lem level va size other perm n (shift target (va - start)) es h
        (omega (arith, l)) e b o p it)
      (map_addrs_level-IsTarget level va size perm n (shift target (va - start)) es h
        (omega (arith, l)) e b it)
  where
    outside :
        (other < va) ⊎ (va + size ≤ other) → (other < va) ⊎ (va + n * level_page_size level ≤ other)
    outside (inl lt) = inl lt
    outside (inr ge) = inr (omega (arith, ge, e))

    join :
        (r : Moved)
        → Covers level va n other perm (shift target (va - start)) es r
        → WhenOk r.0
            (λ moved. (moved.1 ≡ shift (shift target (va - start)) size) × IsTarget moved.1)
        → Part start target perm other va (va + size) es r
    join (err k, es', h') (out, x) y = (λ z. out (outside z), tt)
    join (panicked, es', h') (out, x) y = (λ z. out (outside z), tt)
    join (ok (va', t'), es', h') (out, (e', page)) (e'', it') = (
      λ z. out (outside z),
      (
        omega (arith, e', e),
        e'' ∙ shift-shift target (va - start) size ∙ ap (shift target) (omega (arith, s)),
        it',
        λ lo hi.
            let (k, lt, klo, khi) = page_of level va n other l a lo (omega (arith, hi, e)) in
            Maps-Translates level start va (va - start) k perm other target
              (find_leaf_entry other es) (find_leaf_entry other es') l (omega (arith, s)) a t klo
              khi (page k lt klo khi),
      ),
    )
