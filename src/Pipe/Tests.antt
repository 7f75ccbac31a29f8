-- ===== src/Pipe/Tests.antt =====
-- A pipe that holds two bytes.
use ov.Prelude.{ℕ, ◌≡◌, refl, true, List, [], ◌∷◌, ◌++◌, arith, length, replicate}
use ov.Prelude.{min}
use ov.Pipe.{PipeData, read_loop}
use ov.Pipe.Laws.{Holds, Accepts, write_loop_lem, read_loop_lem}
use ov.Pipe.Stream.{System, reads, IsStream, Step-IsStream}

abbrev two_bytes : PipeData
two_bytes = record {
  bytes = 7 ∷ 8 ∷ replicate 510 0;
  nread = 512;
  nwrite = 514;
  read_open = true;
  write_open = true;
}

two_bytes-Holds : Holds two_bytes (7 ∷ 8 ∷ [])
two_bytes-Holds = record {
  size = refl;
  counted = refl;
  bound = omega arith;
  stored = (refl, (refl, tt));
}

write_loop_lem_example :
    (sent rest : List ℕ) × (p' : PipeData) × Accepts (9 ∷ []) 0 two_bytes (7 ∷ 8 ∷ []) sent rest p'
write_loop_lem_example = write_loop_lem (9 ∷ []) 0 two_bytes (7 ∷ 8 ∷ []) two_bytes-Holds refl

read_loop_lem_example :
    (out rest : List ℕ) × (p' : PipeData) × (read_loop 1 two_bytes ≡ (out, p'))
    × (7 ∷ 8 ∷ [] ≡ out ++ rest)
    × (length out ≡ min 1 2)
    × Holds p' rest
read_loop_lem_example = read_loop_lem 1 two_bytes (7 ∷ 8 ∷ []) two_bytes-Holds

abbrev started : System
started = record { pipe = two_bytes; sent = 6 ∷ 7 ∷ 8 ∷ []; received = 6 ∷ [] }

abbrev one_read : PipeData
one_read = record two_bytes { nread = 513 }

read_one : read_loop 1 two_bytes ≡ (7 ∷ [], one_read)
unfolding read_loop
read_one = refl

Step-IsStream_example :
    IsStream (record { pipe = one_read; sent = 6 ∷ 7 ∷ 8 ∷ []; received = 6 ∷ 7 ∷ [] })
Step-IsStream_example =
    Step-IsStream (reads started 1 (7 ∷ []) one_read read_one)
      (record { queue = 7 ∷ 8 ∷ []; holds = two_bytes-Holds; in_order = refl })
