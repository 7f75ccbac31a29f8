-- ===== src/Memory/MapAll.antt =====
-- `map_addrs`: what it does to every lookup, whichever sizes of pages it uses.
use ov.Prelude.{ℕ, ◌+◌, ◌-◌, ◌%◌, ◌≤◌, ◌<◌, ◌≡◌, ap, ◌∙◌, ◌⊎◌, true, arith, ==→eq}
use ov.Memory.{level_page_size}
use ov.Memory.Addr.{is_level_page_aligned}
use ov.Memory.Table.{Entries, Changed, MapTarget, allocated_addr, fixed_addr, find_leaf_entry}
use ov.Memory.MapRange.{is_target_aligned, shift}
use ov.Memory.MapRuns.{WhenOk, shift_zero}
use ov.Memory.MapParts.{Translates, IsAligned}

pub shift_here : (target : MapTarget) (va : ℕ) → shift target (va - va) ≡ target
shift_here target va = ap (shift target) (omega arith) ∙ shift_zero target

pub IsAligned-here :
    (target : MapTarget) (va : ℕ) → is_target_aligned target 0 ≡ true → IsAligned 0 target (va - va)
unfolding is_level_page_aligned
IsAligned-here (allocated_addr zeroed new) va h = tt
IsAligned-here (fixed_addr pa) va h = let e = ==→eq (pa % level_page_size 0) 0 h in omega (arith, e)

-- What `map_addrs` leaves.
abbrev pub Mapped :
    (va size : ℕ) → MapTarget → (perm other : ℕ) → Entries → Changed Entries → Type 0
Mapped va size target perm other es r =
    (((other < va) ⊎ (va + size ≤ other)) → find_leaf_entry other r.1 ≡ find_leaf_entry other es)
    × WhenOk r.0 (λ done.
      va ≤ other
      → other < va + size
      → Translates va target perm other (find_leaf_entry other es) (find_leaf_entry other r.1))
