-- ===== src/Slab/Tests.antt =====
-- Two objects of 32 bytes, aligned to 8.
use ov.Prelude.{◌≡◌, refl, none, some, [], ◌∷◌, arith, done}
use ov.PageAlloc.Init.{pages_from}
use ov.Slab.{State, new}
use ov.Slab.Laws.{IsValid}
use ov.Slab.Init.{new-IsValid}

abbrev one_free : State
one_free = record {
  allocator = record { range_start = 64; range_end = 128; free_list = some 96 };
  memory = λ p. none;
}

one_free-IsValid : IsValid 32 8 one_free (96 ∷ [])
one_free-IsValid = record {
  chained = (refl, refl);
  distinct = (tt, tt);
  objects = ((refl, omega arith, omega arith), tt);
}

new-IsValid_example :
    (s : State) × (new 32 8 64 128 (λ _. none) ≡ done s)
    × IsValid 32 8 s (pages_from 32 64 2)
    × (s.range_start ≡ 64)
    × (s.range_end ≡ 128)
new-IsValid_example = new-IsValid 32 8 64 2 (λ _. none) (omega arith) refl refl (omega arith) refl
