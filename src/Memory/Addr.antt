-- ===== src/Memory/Addr.antt =====
-- crates/kernel/ov6_kernel/src/memory/addr.rs: page rounding, and `VirtAddr`. A mask of the low bits
-- of an address is a division by their power of two.
use ov.Prelude.{
  ℕ, ◌+◌, ◌-◌, ◌*◌, ◌/◌, ◌%◌, ◌^◌, Bool, Option, none, some, ◌==◌, ltb, leb, if◌then◌else◌,
}
use ov.Memory.{
  too_large_virtual_address, virtual_address_underflow, Outcome, ok, err, panicked, ◌>>=◌,
  level_page_size, usize_end,
}

-- `a + b` on `usize`, which traps on overflow.
abbrev pub checked_plus : ℕ → ℕ → Outcome ℕ
checked_plus a b = if ltb (a + b) usize_end then ok (a + b) else panicked

unfoldable pub level_page_rounddown : ℕ → ℕ → ℕ
level_page_rounddown addr level = addr / level_page_size level * level_page_size level

-- `(addr + page_size - 1) & !(page_size - 1)`
unfoldable pub level_page_roundup : ℕ → ℕ → Outcome ℕ
level_page_roundup addr level = do
  sum ← checked_plus addr (level_page_size level)
  ok (level_page_rounddown (sum - 1) level)

unfoldable pub is_level_page_aligned : ℕ → ℕ → Bool
is_level_page_aligned addr level = addr % level_page_size level == 0

-- `VirtAddr::MAX`, one beyond the highest virtual address.
abbrev pub max_va : ℕ
max_va = 2 ^ 38

-- `VirtAddr::new`
unfoldable pub new_va : ℕ → Outcome ℕ
new_va addr = if ltb max_va addr then err (too_large_virtual_address addr) else ok addr

-- `VirtAddr::level_idx`, at the levels 0, 1 and 2
unfoldable pub level_idx : ℕ → ℕ → ℕ
level_idx level va = va / level_page_size level % 512

-- `VirtAddr::byte_add`
unfoldable pub byte_add : ℕ → ℕ → Outcome ℕ
byte_add va offset =
    if ltb (va + offset) usize_end
    then new_va (va + offset)
    else err (too_large_virtual_address (usize_end - 1))

-- `VirtAddr::byte_sub`
unfoldable pub byte_sub : ℕ → ℕ → Outcome ℕ
byte_sub va offset = if leb offset va then new_va (va - offset) else err virtual_address_underflow

pub data Bound : Type 0 where
  included : ℕ → Bound
  excluded : ℕ → Bound
  unbounded : Bound

-- `.ok()?`
abbrev pub to_option : Outcome ℕ → Option ℕ
to_option (ok a) = some a
to_option (err e) = none
to_option panicked = none

abbrev pub range_start : Bound → Option ℕ
range_start (included va) = some va
range_start (excluded va) = to_option (byte_add va 1)
range_start unbounded = some 0

abbrev pub range_end : Bound → Option ℕ
range_end (included va) = some va
range_end (excluded va) = to_option (byte_sub va 1)
range_end unbounded = to_option (byte_sub max_va 1)

abbrev pub ordered : Option ℕ → Option ℕ → Option (ℕ × ℕ)
ordered (some lo) (some hi) = if ltb hi lo then none else some (lo, hi)
ordered _ _ = none

-- `VirtAddr::range_inclusive`
unfoldable pub range_inclusive : Bound → Bound → Option (ℕ × ℕ)
range_inclusive start end = ordered (range_start start) (range_end end)

-- `try_as_va_range` of `UserSlice<T>` and `UserMutSlice<T>`, for a `T` of a given size
unfoldable pub slice_va_range : ℕ → ℕ → ℕ → Outcome (ℕ × ℕ)
slice_va_range elem_size addr len =
    if ltb (len * elem_size) usize_end
    then (do start ← new_va addr; end ← byte_add start (len * elem_size); ok (start, end))
    else err (too_large_virtual_address (usize_end - 1))
