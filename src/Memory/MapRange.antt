-- ===== src/Memory/MapRange.antt =====
-- `map_addrs_level` and `map_addrs` of crates/kernel/ov6_kernel/src/memory/page_table/mod.rs.
use ov.Prelude.{
  ℕ, zero, suc, ◌+◌, ◌-◌, ◌/◌, ◌%◌, Bool, true, false, ◌&&◌, not, ◌==◌, ltb, leb, if◌then◌else◌,
}
use ov.Memory.{Outcome, ok, err, panicked, ◌>>=◌, page_size, level_page_size}
use ov.Memory.Addr.{
  byte_add, checked_plus, max_va, level_page_roundup, level_page_rounddown, is_level_page_aligned,
}
use ov.Memory.Entry.{has_rwx}
use ov.Memory.Pages.{Heap}
use ov.Memory.Table.{Entries, Changed, MapTarget, allocated_addr, fixed_addr, map_page}

-- The two `&mut` arguments, with the entries and the pages as they are left.
abbrev pub Moved : Type 0
Moved = Outcome (ℕ × MapTarget) × Entries × Heap

-- `unwrap`
abbrev pub unwrap : Outcome ℕ → Outcome ℕ
unwrap (ok a) = ok a
unwrap (err e) = panicked
unwrap panicked = panicked

-- `MapTarget::byte_add`, unwrapped
abbrev pub target_byte_add : MapTarget → ℕ → Outcome MapTarget
target_byte_add (allocated_addr zeroed new) n = ok (allocated_addr zeroed new)
target_byte_add (fixed_addr pa) n = do sum ← checked_plus pa n; ok (fixed_addr sum)

-- `MapTarget::is_level_page_aligned`
abbrev pub is_target_aligned : MapTarget → ℕ → Bool
is_target_aligned (allocated_addr zeroed new) level = true
is_target_aligned (fixed_addr pa) level = is_level_page_aligned pa level

-- The next page, after `map_page`
abbrev pub advance : Outcome (Unit {0}) → (level va : ℕ) → MapTarget → Outcome (ℕ × MapTarget)
advance res level va target = do
  mapped ← res
  va' ← unwrap (byte_add va (level_page_size level))
  target' ← target_byte_add target (level_page_size level)
  ok (va', target')

-- The loop of `map_addrs_level`: it has no rounds left only at the end of the range.
unfoldable pub map_pages : (fuel level va va_end : ℕ) → MapTarget → ℕ → Entries → Heap → Moved
map_pages zero level va va_end target perm es h =
    (if ltb va va_end then panicked else ok (va, target), es, h)
map_pages (suc fuel) level va va_end target perm es h = elim (ltb va va_end) [
  | false ↦ (ok (va, target), es, h)
  | true ↦
      let (res, es', h') = map_page level va target perm es h in
      elim (advance res level va target) [
        | ok (va', target') ↦ map_pages fuel level va' va_end target' perm es' h'
        | err e ↦ (err e, es', h')
        | panicked ↦ (panicked, es', h')
      ]
]

abbrev pub map_pages_to : Outcome ℕ → (fuel level va : ℕ) → MapTarget → ℕ → Entries → Heap → Moved
map_pages_to (ok va_end) fuel level va target perm es h =
    map_pages fuel level va va_end target perm es h
map_pages_to (err e) fuel level va target perm es h = (err e, es, h)
map_pages_to panicked fuel level va target perm es h = (panicked, es, h)

-- `PageTableEntries::map_addrs_level`
unfoldable pub map_addrs_level :
    (level va : ℕ) → MapTarget → (size perm : ℕ) → Entries → Heap → Moved
map_addrs_level level va target size perm es h =
    if (is_level_page_aligned va level && is_target_aligned target level)
      && ((size % level_page_size level == 0) && has_rwx perm)
    then map_pages_to (byte_add va size) (size / level_page_size level) level va target perm es h
    else (panicked, es, h)

-- The target of the page that starts at an offset.
abbrev pub shift : MapTarget → ℕ → MapTarget
shift (allocated_addr zeroed new) n = allocated_addr zeroed new
shift (fixed_addr pa) n = fixed_addr (pa + n)

-- `MapTarget::level_offset`
abbrev pub level_offset : MapTarget → ℕ → ℕ
level_offset (allocated_addr zeroed new) level = 0
level_offset (fixed_addr pa) level = pa % level_page_size level

abbrev pub then_map : Moved → (ℕ → MapTarget → Entries → Heap → Moved) → Moved
then_map (ok (va, target), es, h) f = f va target es h
then_map (err e, es, h) f = (err e, es, h)
then_map (panicked, es, h) f = (panicked, es, h)

-- A part of the range, up to an address.
abbrev pub map_to : (level limit perm : ℕ) → (va : ℕ) → MapTarget → Entries → Heap → Moved
map_to level limit perm va target es h =
    let run = map_addrs_level level va target (limit - va) perm es h in
    if ltb va limit then run else (ok (va, target), es, h)

-- The three parts, of which the middle one is mapped by super pages
abbrev pub map_parts : (va va_end lv1_start lv1_end : ℕ) → MapTarget → ℕ → Entries → Heap → Moved
map_parts va va_end lv1_start lv1_end target perm es h =
    then_map (map_to 0 lv1_start perm va target es h) (λ va1 target1 es1 h1.
      then_map (map_to 1 lv1_end perm va1 target1 es1 h1)
        (λ va2 target2 es2 h2. map_to 0 va_end perm va2 target2 es2 h2))

-- The assertion at the end
abbrev pub finish : ℕ → Moved → Changed Entries
finish va_end (ok (va, target), es, h) = (if va == va_end then ok tt else panicked, es, h)
finish va_end (err e, es, h) = (err e, es, h)
finish va_end (panicked, es, h) = (panicked, es, h)

abbrev pub forget : Moved → Changed Entries
forget (ok moved, es, h) = (ok tt, es, h)
forget (err e, es, h) = (err e, es, h)
forget (panicked, es, h) = (panicked, es, h)

-- The range between the first and the last super page, where there is one.
abbrev pub map_split :
    (va va_end : ℕ) → Outcome ℕ → MapTarget → (size perm : ℕ) → Entries → Heap → Changed Entries
map_split va va_end (ok lv1_start) target size perm es h =
    if ltb max_va lv1_start
    then (panicked, es, h)
    else if leb (level_page_rounddown va_end 1) lv1_start
    then forget (map_addrs_level 0 va target size perm es h)
    else finish va_end
        (map_parts va va_end lv1_start (level_page_rounddown va_end 1) target perm es h)
map_split va va_end (err e) target size perm es h = (err e, es, h)
map_split va va_end panicked target size perm es h = (panicked, es, h)

abbrev pub map_fixed :
    (va : ℕ) → Outcome ℕ → MapTarget → (size perm : ℕ) → Entries → Heap → Changed Entries
map_fixed va (ok va_end) target size perm es h =
    map_split va va_end (level_page_roundup va 1) target size perm es h
map_fixed va (err e) target size perm es h = (err e, es, h)
map_fixed va panicked target size perm es h = (panicked, es, h)

abbrev pub is_fixed : MapTarget → Bool
is_fixed (allocated_addr zeroed new) = false
is_fixed (fixed_addr pa) = true

-- `PageTableEntries::map_addrs`
unfoldable pub map_addrs : (va : ℕ) → MapTarget → (size perm : ℕ) → Entries → Heap → Changed Entries
map_addrs va target size perm es h =
    if not (
      (is_level_page_aligned va 0 && is_target_aligned target 0)
      && ((size % page_size == 0) && has_rwx perm))
    then (panicked, es, h)
    else if is_fixed target && (va % level_page_size 1 == level_offset target 1)
    then map_fixed va (byte_add va size) target size perm es h
    else forget (map_addrs_level 0 va target size perm es h)
