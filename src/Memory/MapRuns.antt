-- ===== src/Memory/MapRuns.antt =====
-- The runs of `map_addrs_level` over the pages of a range.
use ov.Prelude.{
  ℕ, zero, suc, ◌+◌, ◌*◌, ◌/◌, ◌%◌, ◌≤◌, ◌<◌, ◌≡◌, refl, sym, ap, ◌∙◌, ◌≢◌, ◌⊎◌, inl, inr, arith,
  ltb, ltb→lt, Bool-cases,
}
use native.Mathlib.Nat.{suc-mul, zero-mul}
use ov.Memory.{KernelError, Outcome, ok, err, panicked, level_page_size, usize_end}
use ov.Memory.Addr.{max_va, byte_add, new_va}
use ov.Memory.Table.{Entries, MapTarget, allocated_addr, fixed_addr, find_leaf_entry}
use ov.Memory.Mapping.{MapsOrKeeps, IsTarget}
use ov.Memory.MapRange.{Moved, advance, shift}

-- An address of the page that starts at an aligned address, and one of another page.
pub same_page :
    (level va other : ℕ)
    → level ≤ 2
    → va % level_page_size level ≡ 0
    → va ≤ other
    → other < va + level_page_size level
    → va / level_page_size level ≡ other / level_page_size level
same_page zero va other l a lo hi = omega arith
same_page (suc zero) va other l a lo hi = omega arith
same_page (suc (suc zero)) va other l a lo hi = omega arith
same_page (suc (suc (suc n))) va other l a lo hi = absurd (omega arith)

pub other_page :
    (level va other : ℕ)
    → level ≤ 2
    → va % level_page_size level ≡ 0
    → (other < va) ⊎ (va + level_page_size level ≤ other)
    → va / level_page_size level ≢ other / level_page_size level
other_page zero va other l a out e = ground (arith, out, e)
other_page (suc zero) va other l a out e = ground (arith, out, e)
other_page (suc (suc zero)) va other l a out e = ground (arith, out, e)
other_page (suc (suc (suc n))) va other l a out e = omega arith

pub next_aligned :
    (level va : ℕ)
    → level ≤ 2
    → va % level_page_size level ≡ 0
    → (va + level_page_size level) % level_page_size level ≡ 0
next_aligned zero va l a = omega arith
next_aligned (suc zero) va l a = omega arith
next_aligned (suc (suc zero)) va l a = omega arith
next_aligned (suc (suc (suc n))) va l a = absurd (omega arith)

abbrev pub WhenOk : {A : Type 0} → Outcome A → (A → Type 0) → Type 0
WhenOk (ok a) P = P a
WhenOk (err e) P = Unit {0}
WhenOk panicked P = Unit {0}

-- What a run over `n` pages from an address does to the lookup of another address.
abbrev pub Covers : (level va n other perm : ℕ) → MapTarget → Entries → Moved → Type 0
Covers level va n other perm target es r =
    (((other < va) ⊎ (va + n * level_page_size level ≤ other))
      → find_leaf_entry other r.1 ≡ find_leaf_entry other es)
    × WhenOk r.0 (λ moved.
      (moved.0 ≡ va + n * level_page_size level)
      × ((k : ℕ)
          → k < n
          → va + k * level_page_size level ≤ other
          → other < va + k * level_page_size level + level_page_size level
          → MapsOrKeeps level other (shift target (k * level_page_size level)) perm
              (find_leaf_entry other es) (find_leaf_entry other r.1)))

pub shift_zero : (target : MapTarget) → shift target 0 ≡ target
shift_zero (allocated_addr zeroed new) = refl
shift_zero (fixed_addr pa) = ap fixed_addr (omega arith)

pub byte_add_fits : (va n : ℕ) → va + n ≤ max_va → byte_add va n ≡ ok (va + n)
unfolding byte_add new_va
byte_add_fits va n h = ground arith

pub advance_cases :
    (res : Outcome (Unit {0})) (level va : ℕ) (target : MapTarget)
    → IsTarget target
    → va + level_page_size level ≤ max_va
    → ((target' : MapTarget) × (advance res level va target
          ≡ ok (va + level_page_size level, target'))
        × (res ≡ ok tt)
        × IsTarget target'
        × ((n : ℕ) → shift target' n ≡ shift target (level_page_size level + n)))
      ⊎ (((e : KernelError) × (advance res level va target ≡ err e))
          ⊎ (advance res level va target ≡ panicked))
advance_cases (err e) level va target t f = inr (inl (e, refl))
advance_cases panicked level va target t f = inr (inr refl)
advance_cases (ok x) level va (allocated_addr zeroed new) t f =
    rw (byte_add_fits va (level_page_size level) f)
      (inl (allocated_addr zeroed new, refl, refl, tt, λ n. refl))
advance_cases (ok x) level va (fixed_addr pa) t f =
    elim (Bool-cases (ltb (pa + level_page_size level) usize_end)) [
      | inl fits ↦
          rw (byte_add_fits va (level_page_size level) f, fits)
            (inl (
              fixed_addr (pa + level_page_size level),
              refl,
              refl,
              ltb→lt (pa + level_page_size level) usize_end fits,
              λ n. ap fixed_addr (omega arith),
            ))
      | inr over ↦ rw (byte_add_fits va (level_page_size level) f, over) (inr (inr refl))
    ]

-- One page, and then a run over the pages after it.
pub Covers-suc :
    (n level va other perm : ℕ) (target target' : MapTarget) (es es' : Entries) (r : Moved)
    → level ≤ 2
    → va % level_page_size level ≡ 0
    → 0 < level_page_size level
    → ((n : ℕ) → shift target' n ≡ shift target (level_page_size level + n))
    → ((va / level_page_size level ≢ other / level_page_size level)
        → find_leaf_entry other es' ≡ find_leaf_entry other es)
    → ((va / level_page_size level ≡ other / level_page_size level)
        → MapsOrKeeps level other target perm
            (find_leaf_entry other es)
            (find_leaf_entry other es'))
    → Covers level (va + level_page_size level) n other perm target' es' r
    → Covers level va (suc n) other perm target es r
Covers-suc n level va other perm target target' es es' (moved, es'', h) l a s sh out in_page
      (c, d) =
    (
      λ outside. c (before outside) ∙ out (other_page level va other l a (first outside)),
      whole moved d,
    )
  where
    size : suc n * level_page_size level ≡ n * level_page_size level + level_page_size level
    size = suc-mul n (level_page_size level)

    before :
        (other < va) ⊎ (va + suc n * level_page_size level ≤ other)
        → (other < va + level_page_size level)
          ⊎ (va + level_page_size level + n * level_page_size level ≤ other)
    before (inl lt) = inl (omega arith)
    before (inr ge) = inr (omega (arith, ge, size))

    first :
        (other < va) ⊎ (va + suc n * level_page_size level ≤ other)
        → (other < va) ⊎ (va + level_page_size level ≤ other)
    first (inl lt) = inl lt
    first (inr ge) = inr (omega (arith, ge, size))

    whole :
        (moved : Outcome (ℕ × MapTarget))
        → WhenOk moved (λ m.
          (m.0 ≡ va + level_page_size level + n * level_page_size level)
          × ((k : ℕ)
              → k < n
              → va + level_page_size level + k * level_page_size level ≤ other
              → other
                < va + level_page_size level + k * level_page_size level + level_page_size level
              → MapsOrKeeps level other
                  (shift target' (k * level_page_size level))
                  perm
                  (find_leaf_entry other es')
                  (find_leaf_entry other es'')))
        → WhenOk moved (λ m.
          (m.0 ≡ va + suc n * level_page_size level)
          × ((k : ℕ)
              → k < suc n
              → va + k * level_page_size level ≤ other
              → other < va + k * level_page_size level + level_page_size level
              → MapsOrKeeps level other
                  (shift target (k * level_page_size level))
                  perm
                  (find_leaf_entry other es)
                  (find_leaf_entry other es'')))
    whole (err e) d = tt
    whole panicked d = tt
    whole (ok (va', t)) (e, pages) = (omega (arith, e, size), page)
      where
        page :
            (k : ℕ)
            → k < suc n
            → va + k * level_page_size level ≤ other
            → other < va + k * level_page_size level + level_page_size level
            → MapsOrKeeps level other
                (shift target (k * level_page_size level))
                perm
                (find_leaf_entry other es)
                (find_leaf_entry other es'')
        page zero k lo hi =
            let none_yet = zero-mul (level_page_size level) in
            rw (none_yet, shift_zero target, c (inl (omega (arith, lo, hi, none_yet))))
              (in_page (
                same_page level va other l a (omega (arith, lo, none_yet))
                  (omega (arith, hi, none_yet))))
        page (suc k) lt lo hi =
            let step = suc-mul k (level_page_size level) in
            let flip : (suc k * level_page_size level
                ≡ level_page_size level + k * level_page_size level) =
              omega (arith, step) in
            rw
              (
                flip,
                sym (sh (k * level_page_size level)),
                sym (out (other_page level va other l a (inr (omega (arith, lo, flip))))),
              )
              (pages k (omega arith) (omega (arith, lo, flip)) (omega (arith, hi, flip)))

pub page_size_pos : (level : ℕ) → level ≤ 2 → 0 < level_page_size level
page_size_pos zero l = omega arith
page_size_pos (suc zero) l = omega arith
page_size_pos (suc (suc zero)) l = omega arith
page_size_pos (suc (suc (suc n))) l = absurd (omega arith)
