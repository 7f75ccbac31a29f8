-- ===== src/Memory/Ranges.antt =====
-- Page rounding and ranges of virtual addresses against their meaning.
use ov.Prelude.{
  ℕ, ◌+◌, ◌-◌, ◌*◌, ◌/◌, ◌%◌, ◌≤◌, ◌<◌, ◌≡◌, refl, ◌⊎◌, inl, inr, true, Option, none, some, arith,
  ◌==◌, ltb, Bool-cases, ℕ_discrete,
}
use ov.Prelude.{◌↔◌}
use native.Mathlib.Nat.{div-add-mod', mod-lt, mul-mod_left}
use ov.Memory.{
  KernelError, too_large_virtual_address, ok, err, panicked, ◌>>=◌, level_page_size, usize_end,
}
use ov.Memory.Addr.{
  checked_plus, level_page_rounddown, level_page_roundup, is_level_page_aligned, max_va, new_va,
  byte_add, byte_sub, Bound, included, excluded, unbounded, range_start, range_end, ordered,
  range_inclusive, slice_va_range,
}

-- What a range of Rust contains.
abbrev pub Above : Bound → ℕ → Type 0
Above (included lo) va = lo ≤ va
Above (excluded lo) va = lo < va
Above unbounded va = Unit {0}

abbrev pub Below : Bound → ℕ → Type 0
Below (included hi) va = va ≤ hi
Below (excluded hi) va = va < hi
Below unbounded va = Unit {0}

-- `VirtAddr::MAX`, where the range has no end.
abbrev pub IsLast : Bound → ℕ → Type 0
IsLast (included hi) va = ⊥
IsLast (excluded hi) va = ⊥
IsLast unbounded va = va ≡ max_va

-- What lies below the end that the code takes.
abbrev Reached : Bound → ℕ → Type 0
Reached end va = Below end va × (IsLast end va → ⊥)

-- A bound that a `VirtAddr` makes.
abbrev pub IsVa : Bound → Type 0
IsVa (included va) = va ≤ max_va
IsVa (excluded va) = va ≤ max_va
IsVa unbounded = Unit {0}

abbrev pub Within : Option (ℕ × ℕ) → ℕ → Type 0
Within none va = ⊥
Within (some (lo, hi)) va = (lo ≤ va) × (va ≤ hi)

range_start_lem :
    (b : Bound) (va : ℕ)
    → IsVa b
    → va ≤ max_va
    → ((range_start b ≡ none) × (Above b va → ⊥))
      ⊎ ((lo : ℕ) × (range_start b ≡ some lo) × (Above b va ↔ (lo ≤ va)))
unfolding byte_add new_va
range_start_lem (included lo) va h v = inr (lo, refl, (λ x. x, λ x. x))
range_start_lem (excluded lo) va h v = elim (Bool-cases (ltb lo max_va)) [
  | inl lt ↦ inr (lo + 1, ground arith, (λ x. omega arith, λ x. omega arith))
  | inr ge ↦ inl (ground arith, λ x. ground arith)
]
range_start_lem unbounded va h v = inr (0, refl, (λ x. omega arith, λ x. tt))

range_end_lem :
    (b : Bound) (va : ℕ)
    → IsVa b
    → va ≤ max_va
    → ((range_end b ≡ none) × (Reached b va → ⊥))
      ⊎ ((hi : ℕ) × (range_end b ≡ some hi) × (Reached b va ↔ (va ≤ hi)))
unfolding byte_sub new_va
range_end_lem (included hi) va h v = inr (hi, refl, (λ x. x.0, λ x. (x, λ l. l)))
range_end_lem (excluded hi) va h v = elim (Bool-cases (ltb 0 hi)) [
  | inl pos ↦ inr (hi - 1, ground arith, (λ x. ground (arith, x.0), λ x. (ground arith, λ l. l)))
  | inr z ↦ inl (ground arith, λ x. ground (arith, x.0))
]
range_end_lem unbounded va h v =
    inr (max_va - 1, refl, (λ x. before v x.1, λ x. (tt, λ l. omega (arith, x, l))))
  where
    before : va ≤ max_va → (va ≡ max_va → ⊥) → va ≤ max_va - 1
    before v ne = elim (ℕ_discrete va max_va) [
      | yes e ↦ absurd (ne e)
      | no other ↦ omega (arith, v, other)
    ]

ordered_lem : (lo hi va : ℕ) → ((lo ≤ va) × (va ≤ hi)) ↔ Within (ordered (some lo) (some hi)) va
ordered_lem lo hi va = elim (Bool-cases (ltb hi lo)) [
  | inl empty ↦ rw empty (λ x. ground (arith, x.0, x.1), λ x. absurd x)
  | inr some_va ↦ rw some_va (λ x. x, λ x. x)
]

ordered-none : (o : Option ℕ) (va : ℕ) → Within (ordered o none) va → ⊥
ordered-none none va w = w
ordered-none (some lo) va w = w

-- For bounds and an address up to `VirtAddr::MAX`, the inclusive range that the page table
-- iterators walk contains the address exactly when the given range contains it, with one exception:
-- a range without an end contains `VirtAddr::MAX`, and the inclusive range leaves it out. Where
-- there is no inclusive range, the given range contains no other address.
pub range_inclusive_lem :
    (start end : Bound) (va : ℕ)
    → IsVa start
    → IsVa end
    → va ≤ max_va
    → Within (range_inclusive start end) va ↔ (Above start va × Below end va × (IsLast end va → ⊥))
unfolding range_inclusive
range_inclusive_lem start end va hs he v = elim (range_start_lem start va hs v) [
  | inl (e, never) ↦ rw e (λ x. absurd x, λ x. never x.0)
  | inr (lo, e, above) ↦ elim (range_end_lem end va he v) [
    | inl (e', never) ↦ rw (e, e') (λ x. absurd x, λ x. never (x.1, x.2))
    | inr (hi, e', below) ↦
        let w = ordered_lem lo hi va in
        rw (e, e')
          (
            λ x. let y = w.1 x in let z = below.1 y.1 in (above.1 y.0, z.0, z.1),
            λ x. w.0 (above.0 x.0, below.0 (x.1, x.2)),
          )
  ]
]

-- A slice that a user process names, at an address below 2 ^ 64, becomes the range of its bytes if
-- they end at `VirtAddr::MAX` or below, and else an error: no sum or product wraps around or
-- panics, whatever the length and the size of an element.
pub slice_va_range_lem :
    (elem_size addr len : ℕ)
    → addr < usize_end
    → ((addr + len * elem_size ≤ max_va)
        × (slice_va_range elem_size addr len ≡ ok (addr, addr + len * elem_size)))
      ⊎ ((max_va < addr + len * elem_size)
          × (e : KernelError) × (slice_va_range elem_size addr len ≡ err e))
unfolding slice_va_range byte_add new_va
slice_va_range_lem elem_size addr len h = slice_lem (len * elem_size) elem_size addr len refl h
  where
    slice_lem :
        (size elem_size addr len : ℕ)
        → len * elem_size ≡ size
        → addr < usize_end
        → ((addr + len * elem_size ≤ max_va)
            × (slice_va_range elem_size addr len ≡ ok (addr, addr + len * elem_size)))
          ⊎ ((max_va < addr + len * elem_size)
              × (e : KernelError) × (slice_va_range elem_size addr len ≡ err e))
    slice_lem size elem_size addr len e h = elim (Bool-cases (ltb max_va (addr + size))) [
      | inr fits ↦ inl (ground arith, rw e (ground arith))
      | inl over ↦ elim (Bool-cases (ltb size usize_end)) [
        | inr huge ↦
            inr (ground arith, too_large_virtual_address (usize_end - 1), rw e (ground arith))
        | inl small ↦ elim (Bool-cases (ltb max_va addr)) [
          | inl high ↦ inr (ground arith, too_large_virtual_address addr, rw e (ground arith))
          | inr low ↦ elim (Bool-cases (ltb (addr + size) usize_end)) [
            | inl sum_fits ↦
                inr (ground arith, too_large_virtual_address (addr + size), rw e (ground arith))
            | inr wraps ↦
                inr (ground arith, too_large_virtual_address (usize_end - 1), rw e (ground arith))
          ]
        ]
      ]
    ]

-- Rounding up to a page of any level gives the first multiple of its size that is not below the
-- address, where the address plus the size does not overflow, and panics where it does.
pub level_page_roundup_lem :
    (addr level : ℕ)
    → 0 < level_page_size level
    → ((addr + level_page_size level < usize_end)
        × (up : ℕ) × (level_page_roundup addr level ≡ ok up)
        × (is_level_page_aligned up level ≡ true)
        × (addr ≤ up)
        × (up < addr + level_page_size level))
      ⊎ ((usize_end ≤ addr + level_page_size level) × (level_page_roundup addr level ≡ panicked))
unfolding level_page_roundup level_page_rounddown is_level_page_aligned
level_page_roundup_lem addr level h = rounded (level_page_size level) h
  where
    rounded :
        (size : ℕ)
        → 0 < size
        → ((addr + size < usize_end)
            × (up : ℕ) × ((do sum ← checked_plus addr size; ok ((sum - 1) / size * size)) ≡ ok up)
            × ((up % size == 0) ≡ true)
            × (addr ≤ up)
            × (up < addr + size))
          ⊎ ((usize_end ≤ addr + size)
              × ((do sum ← checked_plus addr size; ok ((sum - 1) / size * size)) ≡ panicked))
    rounded size h = elim (Bool-cases (ltb (addr + size) usize_end)) [
      | inr over ↦ inr (ground arith, rw over)
      | inl fits ↦
          let parts = div-add-mod' (addr + size - 1) size in
          let small = mod-lt (addr + size - 1) h in
          inl (
            ground arith,
            (addr + size - 1) / size * size,
            rw fits,
            rw (mul-mod_left ((addr + size - 1) / size) size),
            omega (arith, parts, small),
            omega (arith, parts, small),
          )
    ]
