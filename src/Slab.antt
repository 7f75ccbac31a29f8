-- ===== src/Slab.antt =====
-- crates/kernel/slab_allocator/src/lib.rs: `SlabAllocator<T>`, for a type of a given size and
-- alignment, over the memory of `FreeList`.
pub mod Laws
pub mod Init
pub mod Tests
use ov.Prelude.{
  ℕ, zero, suc, ◌-◌, ◌*◌, ◌%◌, Bool, ◌&&◌, Option, none, some, Run, done, panic, assert,
  checked_minus, ◌==◌, ltb, leb, if◌then◌else◌, ◌>>=◌, ◌>>◌,
}
use ov.FreeList.{Memory, write_next}

pub record SlabAllocator : Type 0 where
  pub range_start : ℕ
  pub range_end : ℕ
  pub free_list : Option ℕ

pub record State : Type 0 where
  pub allocator : SlabAllocator
  pub open allocator use *
  pub memory : Memory

-- `size_of::<T>()` and `align_of::<T>()`
module _ (size align : ℕ) where
  -- `while p > range.start { … }`, where `NonNull::new(p).unwrap()` panics on a null pointer; the fuel
  -- bounds the rounds.
  pub new_loop : ℕ → ℕ → ℕ → Memory → Option ℕ → Run (Memory × Option ℕ)
  new_loop zero start p m free_list = panic
  new_loop (suc fuel) start p m free_list =
      let q = p - size in
      let rest = new_loop fuel start q (write_next m q free_list) (some q) in
      if ltb start p then (if ltb 0 q then rest else panic) else done (m, free_list)

  -- The first two tests are the constant assertions on the 8 bytes of `Run`, without which `new`
  -- does not compile.
  pub new : ℕ → ℕ → Memory → Run State
  new start end m = do
    assert (leb 8 size)
    assert (align % 8 == 0)
    assert (start % align == 0)
    assert (end % align == 0)
    len ← checked_minus end start
    assert (len % size == 0)
    (m', free_list) ← new_loop (suc end) start end m none
    done (record {
      allocator = record { range_start = start; range_end = end; free_list = free_list };
      memory = m';
    })

  pub allocate : State → Option ℕ × State
  allocate s = elim s.free_list [
    | none ↦ (none, s)
    | some p ↦ (some p, record s { allocator = record (s.allocator) { free_list = s.memory p } })
  ]

  -- `range.contains(&ptr)` and the test of the alignment
  abbrev pub is_ours : SlabAllocator → ℕ → Bool
  is_ours a p = (leb a.range_start p && ltb p a.range_end) && p % align == 0

  pub deallocate : State → ℕ → Run State
  deallocate s p = do
    assert (leb s.range_start p && ltb p s.range_end)
    assert (p % align == 0)
    done (record s {
      allocator = record (s.allocator) { free_list = some p };
      memory = write_next s.memory p s.free_list;
    })
