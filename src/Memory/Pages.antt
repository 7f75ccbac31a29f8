-- ===== src/Memory/Pages.antt =====
-- crates/kernel/ov6_kernel/src/memory/page_manager.rs and page_allocator.rs: the pages, with the
-- reference counts that `Page` keeps.
use ov.Prelude.{
  ℕ, ◌+◌, ◌-◌, ◌%◌, Bool, ◌&&◌, not, List, [], ◌∷◌, put, ◌==◌, ltb, leb, if◌then◌else◌,
}
use ov.Memory.{Outcome, ok, err, panicked, no_free_page, page_size}

-- `PageManager`, and what each page holds.
pub record Heap : Type 0 where
  pub start : ℕ
  pub end : ℕ
  pub free : List ℕ
  pub count : ℕ → ℕ
  pub bytes : ℕ → ℕ → ℕ

-- `PageState::mark_non_shareable` stores `u32::MAX`.
abbrev pub non_shareable : ℕ
non_shareable = 4294967295

-- The assertions of `PageManager::page_index`
abbrev pub in_heap : Heap → ℕ → Bool
in_heap h pa = leb h.start pa && (ltb pa h.end && (pa % page_size == 0))

-- The page at the head of the list, which has the count 0, with a new count and content.
abbrev pub take_page : ℕ → ℕ → Heap → Outcome ℕ × Heap
take_page new_count fill h = elim h.free [
  | [] ↦ (err no_free_page, h)
  | p ∷ ps ↦
      if in_heap h p && (h.count p == 0)
      then (
        ok p,
        record h { free = ps; count = put h.count p new_count; bytes = put h.bytes p (λ i. fill) },
      )
      else (panicked, h)
]

-- `Page::alloc` and `Page::alloc_zeroed`
unfoldable pub alloc : Bool → Heap → Outcome ℕ × Heap
alloc zeroed h = take_page 1 (if zeroed then 0 else 5) h

-- `PageTableEntries::try_allocate`, with `Page::alloc_non_shareable_page`
unfoldable pub alloc_table : Heap → Outcome ℕ × Heap
alloc_table h = take_page non_shareable 0 h

-- `Page::increment_ref`
unfoldable pub increment_ref : ℕ → Heap → Outcome (Unit {0}) × Heap
increment_ref pa h =
    if in_heap h pa && not (h.count pa == non_shareable)
    then (ok tt, record h { count = put h.count pa (h.count pa + 1) })
    else (panicked, h)

abbrev pub free_page : ℕ → Heap → Heap
free_page pa h = record h {
  free = pa ∷ h.free;
  count = put h.count pa 0;
  bytes = put h.bytes pa (λ i. 1);
}

-- `Page::from_raw` and `Drop` for `Page`
unfoldable pub drop_page : ℕ → Heap → Outcome (Unit {0}) × Heap
drop_page pa h =
    if not (in_heap h pa)
    then (panicked, h)
    else if h.count pa == non_shareable
    then (ok tt, free_page pa h)
    else if h.count pa == 0
    then (panicked, h)
    else if leb (h.count pa) 1
    then (ok tt, free_page pa h)
    else (ok tt, record h { count = put h.count pa (h.count pa - 1) })
