-- ===== src/Memory/Tests.antt =====
-- Tables of a heap with three free pages, and a page that two processes share.
use ov.Prelude.{
  ℕ, ◌+◌, ◌-◌, ◌*◌, ◌≤◌, ◌<◌, ◌≡◌, refl, ◌⊎◌, true, [], ◌∷◌, arith, ◌==◌, if◌then◌else◌,
}
use ov.Prelude.{◌↔◌}
use ov.Memory.{KernelError, ok, err, no_free_page, usize_end}
use ov.Memory.Addr.{
  is_level_page_aligned, max_va, included, unbounded, range_inclusive, slice_va_range,
}
use ov.Memory.Ranges.{Within, range_inclusive_lem, slice_va_range_lem}
use ov.Memory.{page_size}
use ov.Memory.Table.{MapTarget}
use ov.Memory.Entry.{phys_addr}
use ov.Memory.Pages.{Heap}
use ov.Memory.Table.{zeroed_entries, allocated_addr, find_leaf, find_leaf_entry}
use ov.Memory.MapRange.{map_addrs_level}
use ov.Memory.Supply.{Pages}
use ov.Memory.Liveness.{Unmapped, IsMapped, map_addrs_level-runs}
use ov.Memory.Cow.{IsShared, IsFree, IsWritable, request_user_write}
use ov.Memory.Writes.{IsCopied, request_user_write_lem, request_user_write-no_page}

abbrev three_pages : Heap
three_pages = record {
  start = 65536;
  end = 131072;
  free = 65536 ∷ 69632 ∷ 73728 ∷ [];
  count = λ p. if p == 98304 then 2 else 0;
  bytes = λ p i. p + i;
}

abbrev no_pages : Heap
no_pages = record three_pages { free = [] }

abbrev six_pages : Heap
six_pages = record three_pages { free = 65536 ∷ 69632 ∷ 73728 ∷ 77824 ∷ 81920 ∷ 86016 ∷ [] }

six_pages-Pages : Pages 2 six_pages
six_pages-Pages = λ c1 f1. (
  _,
  _,
  refl,
  λ c2 f2. (
    _,
    _,
    refl,
    λ c3 f3. (_, _, refl, λ c4 f4. (_, _, refl, λ c5 f5. (_, _, refl, λ c6 f6. (_, _, refl, tt)))),
  ),
)

-- Flags V, R, U and C, and the page at 98304.
abbrev shared_entry : ℕ
shared_entry = 24 * 1024 + 275

shared_entry-IsShared : IsShared shared_entry three_pages
shared_entry-IsShared = record {
  word = omega arith;
  user = refl;
  cow = refl;
  read_only = refl;
  heap = refl;
  counted = (omega arith, omega arith);
}

no_pages-IsShared : IsShared shared_entry no_pages
no_pages-IsShared = record {
  word = omega arith;
  user = refl;
  cow = refl;
  read_only = refl;
  heap = refl;
  counted = (omega arith, omega arith);
}

three_pages-IsFree : IsFree 65536 (69632 ∷ 73728 ∷ []) three_pages
three_pages-IsFree = record {
  first = refl;
  heap = refl;
  unused = refl;
  bound = omega arith;
  aligned = refl;
}

range_inclusive_lem_example :
    Within (range_inclusive (included 4096) unbounded) max_va
    ↔ ((4096 ≤ max_va) × Unit {0} × (max_va ≡ max_va → ⊥))
range_inclusive_lem_example =
    range_inclusive_lem (included 4096) unbounded max_va (omega arith) tt (omega arith)

slice_va_range_lem_example :
    ((usize_end - 1 + 3 * 8 ≤ max_va)
      × (slice_va_range 8 (usize_end - 1) 3 ≡ ok (usize_end - 1, usize_end - 1 + 3 * 8)))
    ⊎ ((max_va < usize_end - 1 + 3 * 8)
        × (e : KernelError) × (slice_va_range 8 (usize_end - 1) 3 ≡ err e))
slice_va_range_lem_example = slice_va_range_lem 8 (usize_end - 1) 3 (omega arith)

unmapped : Unmapped 8192 2 zeroed_entries
unfolding find_leaf_entry find_leaf
unmapped = (refl, (refl, tt))

aligned : is_level_page_aligned 8192 0 ≡ true
unfolding is_level_page_aligned
aligned = refl

map_addrs_level-runs_example :
    (target' : MapTarget) × ((map_addrs_level 0 8192
        (allocated_addr true true)
        (2 * page_size)
        6
        zeroed_entries
        six_pages).0
      ≡ ok (8192 + 2 * page_size, target'))
    × ((other : ℕ)
        → 8192 ≤ other
        → other < 8192 + 2 * page_size
        → IsMapped 8192
            (allocated_addr true true)
            6
            other
            (map_addrs_level 0 8192
              (allocated_addr true true)
              (2 * page_size)
              6
              zeroed_entries
              six_pages).1)
map_addrs_level-runs_example =
    map_addrs_level-runs 2 8192 6 (allocated_addr true true) zeroed_entries six_pages aligned refl
      (omega arith) (omega arith) refl tt refl six_pages-Pages unmapped

request_user_write_lem_example :
    (w' : ℕ) × (h' : Heap) × (request_user_write 0 8192 shared_entry three_pages ≡ (ok tt, w', h'))
    × IsWritable w'
    × (((three_pages.count (phys_addr shared_entry) ≡ 1)
          × (phys_addr w' ≡ phys_addr shared_entry)
          × (h' ≡ three_pages))
        ⊎ ((1 < three_pages.count (phys_addr shared_entry))
            × (phys_addr w' ≡ 65536)
            × IsCopied (phys_addr shared_entry) 65536 three_pages h'))
request_user_write_lem_example =
    request_user_write_lem 8192 shared_entry 65536 (69632 ∷ 73728 ∷ []) three_pages
      shared_entry-IsShared three_pages-IsFree

request_user_write-no_page_example :
    let r = request_user_write 0 8192 shared_entry no_pages in
    (r.0 ≡ err no_free_page)
    × (r.1 ≡ shared_entry)
    × (r.2.count (phys_addr shared_entry) ≡ no_pages.count (phys_addr shared_entry) - 1)
request_user_write-no_page_example =
    request_user_write-no_page 8192 shared_entry no_pages no_pages-IsShared (omega arith) refl
