-- ===== src/PageAlloc.antt =====
-- crates/kernel/page_alloc/src/page_frame_allocator.rs: `PageFrameAllocator<PAGE_SIZE>`. A pointer is
-- its address; the memory is the `next` field of the `Run` at each address, where a null pointer
-- (a word of zeros) is `none`.
pub mod Init
pub mod Laws
pub mod Free
pub mod History
pub mod Tests
use ov.Prelude.{
  ℕ, zero, suc, ◌+◌, ◌-◌, ◌%◌, Bool, ◌&&◌, Option, none, some, Run, done, panic, assert,
  checked_minus, ◌>>=◌, ◌>>◌, ltb, leb, ◌==◌, if◌then◌else◌,
}
use ov.FreeList.{Memory, write_next}

pub record PageFrameAllocator : Type 0 where
  pub heap_start : ℕ
  pub heap_end : ℕ
  pub free_list : Option ℕ
  pub total_pages : ℕ
  pub free_pages : ℕ

-- The allocator beside the memory that it threads its list through.
pub record State : Type 0 where
  pub allocator : PageFrameAllocator
  pub open allocator use *
  pub memory : Memory

module _ (page_size : ℕ) where
  -- `while p > heap.start { … }`; the fuel bounds the rounds.
  pub new_loop : ℕ → ℕ → ℕ → Memory → Option ℕ → ℕ → Run (Memory × Option ℕ × ℕ)
  new_loop zero start p m free_list total = panic
  new_loop (suc fuel) start p m free_list total =
      let q = p - page_size in
      let rest = new_loop fuel start q (write_next m q free_list) (some q) (total + 1) in
      if ltb start p then rest else done (m, free_list, total)

  -- The first test is the constant assertion on `size_of::<Run>()`, without which `new` does not
  -- compile; the second is that the pointers of the range are `NonNull`.
  pub new : ℕ → ℕ → Memory → Run State
  unfolding new_loop
  new start end m = do
    assert (leb 8 page_size)
    assert (ltb 0 start && ltb 0 end)
    assert (start % page_size == 0)
    assert (end % page_size == 0)
    (m', free_list, total) ← new_loop (suc end) start end m none 0
    done (record {
      allocator = record {
        heap_start = start;
        heap_end = end;
        free_list = free_list;
        total_pages = total;
        free_pages = total;
      };
      memory = m';
    })

  -- `heap.contains(&p)`
  abbrev pub contains : PageFrameAllocator → ℕ → Bool
  contains a p = leb a.heap_start p && ltb p a.heap_end

  pub is_allocated_pointer : PageFrameAllocator → ℕ → Bool
  is_allocated_pointer a p = p % page_size == 0 && contains a p

  pub alloc : State → Run (Option ℕ × State)
  alloc s = elim s.free_list [
    | none ↦ done (none, s)
    | some page ↦ do
      free_pages ← checked_minus s.free_pages 1
      done (
        some page,
        record s {
          allocator = record (s.allocator) { free_list = s.memory page; free_pages = free_pages };
        },
      )
  ]

  -- `write_bytes(0, PAGE_SIZE)`
  abbrev pub write_zeros : Memory → ℕ → Memory
  write_zeros m page q = if leb page q && ltb q (page + page_size) then none else m q

  pub alloc_zeroed : State → Run (Option ℕ × State)
  unfolding alloc
  alloc_zeroed s = do
    (got, t) ← alloc s
    elim got [
      | none ↦ done (none, t)
      | some page ↦ done (some page, record t { memory = write_zeros t.memory page })
    ]

  pub free : State → ℕ → Run State
  free s page = do
    assert (contains s.allocator page)
    assert (page % page_size == 0)
    done (record s {
      allocator = record (s.allocator) { free_list = some page; free_pages = s.free_pages + 1 };
      memory = write_next s.memory page s.free_list;
    })
