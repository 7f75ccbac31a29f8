-- ===== src/PageAlloc/Tests.antt =====
-- An allocator of three pages, one of them handed out.
use ov.Prelude.{ℕ, ◌≡◌, refl, none, some, [], ◌∷◌, arith, done, ◌==◌, if◌then◌else◌}
use ov.FreeList.{Memory}
use ov.PageAlloc.{State, new, alloc}
use ov.PageAlloc.Laws.{IsValid}
use ov.PageAlloc.Init.{pages_from, new_lem}
use ov.PageAlloc.History.{allocs, Partitions, Step-Partitions}

abbrev page_size : ℕ
page_size = 4096

abbrev memory : Memory
memory p = if p == 8192 then some 12288 else none

abbrev two_free : State
two_free = record {
  allocator = record {
    heap_start = 8192;
    heap_end = 20480;
    free_list = some 8192;
    total_pages = 3;
    free_pages = 2;
  };
  memory = memory;
}

abbrev one_free : State
one_free = record two_free {
  allocator = record (two_free.allocator) { free_list = some 12288; free_pages = 1 };
}

two_free-IsValid : IsValid page_size two_free (8192 ∷ 12288 ∷ [])
two_free-IsValid = record {
  chained = (refl, (refl, refl));
  distinct = ((omega arith, tt), (tt, tt));
  pages = ((refl, omega arith, omega arith), ((refl, omega arith, omega arith), tt));
  counted = refl;
}

alloc-two_free : alloc page_size two_free ≡ done (some 8192, one_free)
unfolding alloc
alloc-two_free = refl

two_free-Partitions : Partitions page_size (record { state = two_free; held = 16384 ∷ [] })
two_free-Partitions = record {
  free_pages = 8192 ∷ 12288 ∷ [];
  valid = two_free-IsValid;
  held_pages = ((refl, omega arith, omega arith), tt);
  disjoint = ((omega arith, (omega arith, tt)), ((omega arith, tt), (tt, tt)));
  total = refl;
}

Step-Partitions_example :
    Partitions page_size (record { state = one_free; held = 8192 ∷ 16384 ∷ [] })
Step-Partitions_example =
    Step-Partitions page_size
      (allocs (record { state = two_free; held = 16384 ∷ [] }) 8192 one_free alloc-two_free)
      two_free-Partitions

new_lem_example :
    (s : State) × (new page_size 8192 20480 (λ _. none) ≡ done s)
    × IsValid page_size s (pages_from page_size 8192 3)
    × (s.total_pages ≡ 3)
    × (s.heap_start ≡ 8192)
    × (s.heap_end ≡ 20480)
new_lem_example = new_lem page_size 8192 3 (λ _. none) (omega arith) (omega arith) refl
