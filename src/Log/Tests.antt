-- ===== src/Log/Tests.antt =====
-- Transactions on a small disk whose blocks are seen as headers.
use ov.Prelude.{
  List, Bool, inl, ltb, ◌&&◌, All, Bool-cases, ℕ, ◌≡◌, refl, ◌≢◌, inr, true, false, some, [], ◌∷◌,
  arith, done, panic, ◌==◌, if◌then◌else◌,
}
use ov.Log.{
  buffers_used, max_op_blocks, SuperBlock, log_header_block, ReprHeader, zeroed_header, indices,
  Layout, LogHeader, Io,
}
use ov.Log.Ops.{recover_from_log}
use ov.Log.Bodies.{IsHome}
use ov.Log.Recovery.{recover_from_log_lem}
use ov.Log.Full.{end_op_full}
use ov.Log.Tx.{end_op, LogData, try_begin, write}
use ov.Log.Space.{System, Step, begins, IsReserved, Step-IsReserved}
use ov.Log.Panics.{idle, begin-write_full}

abbrev layout : Layout
layout = record {
  Bytes = ReprHeader;
  zeros = zeroed_header;
  as_header = λ b. b;
  of_header = λ h. h;
  as_header-zeros = refl;
  as_header-of_header = λ h _. refl;
}

abbrev sb : SuperBlock
sb = record { nlog = 30; logstart = 2 }

-- The header on the disk lists block 50; the other blocks hold their numbers.
abbrev disk : ℕ → ReprHeader
disk j =
    if j == 2
    then record { len = 1; block_indices = 50 ∷ [] }
    else record { len = j; block_indices = [] }

-- Block 50 is newer in the cache than on the disk.
abbrev changed : Io layout
changed = record {
  disk = disk;
  slots = λ j. record {
    index = 50;
    valid = j == 50;
    dirty = true;
    bytes = record { len = 7; block_indices = [] };
  };
  others = 60 ∷ [];
}

abbrev booted : Io layout
booted = record {
  disk = disk;
  slots = λ j. record { index = 0; valid = false; dirty = true; bytes = zeroed_header };
  others = [];
}

indices-booted : indices (booted.disk 2) ≡ done (50 ∷ [])
unfolding indices
indices-booted = refl

recover_from_log_lem_example :
    (io' : Io layout) × (recover_from_log (record { sb = sb; blocks = [] }) booted
      ≡ done (record { sb = sb; blocks = [] }, io'))
    × ((j : ℕ) → log_header_block sb ≢ j → io'.disk j ≡ booted.disk j)
    × (indices (io'.disk (log_header_block sb)) ≡ done [])
recover_from_log_lem_example =
    recover_from_log_lem sb (50 ∷ []) booted (omega arith) (omega arith) (omega arith) (λ j. refl)
      indices-booted

abbrev one_block : LogHeader
one_block = record { sb = sb; blocks = 50 ∷ [] }

abbrev opened : System
opened = idle sb

abbrev begun_log : LogData
begun_log = record (opened.log) { outstanding = 1 }

try_begin-opened : try_begin opened.log ≡ some begun_log
unfolding try_begin
try_begin-opened = refl

abbrev one_operation : System
one_operation = record opened { log = begun_log; budgets = max_op_blocks ∷ [] }

begins_once : Step opened one_operation
begins_once = begins opened begun_log try_begin-opened

Step-IsReserved_example : IsReserved one_operation
Step-IsReserved_example = Step-IsReserved begins_once (refl, refl, tt, omega arith)

-- A log of two blocks that are both used.
abbrev small_header : LogHeader
small_header = record { sb = record { nlog = 2; logstart = 2 }; blocks = 50 ∷ 51 ∷ [] }

abbrev small_log : LogData
small_log = record { outstanding = 1; header = some small_header }

begin-write_full_example : (d' : LogData) × (try_begin small_log ≡ some d') × (write d' 52 ≡ panic)
begin-write_full_example =
    begin-write_full small_log small_header 52 refl (omega arith) (omega arith)

-- With block 50, a transaction that takes all buffers of the cache.
abbrev other_blocks : List ℕ
other_blocks =
    51 ∷ 52 ∷ 53 ∷ 54 ∷ 55 ∷ 56 ∷ 57 ∷ 58 ∷ 59 ∷ 60 ∷ 61 ∷ 62 ∷ 63 ∷ 64 ∷ 65 ∷ 66 ∷ 67 ∷ 68 ∷ 69
    ∷ 70 ∷ 71 ∷ 72 ∷ 73 ∷ 74 ∷ 75 ∷ 76 ∷ 77 ∷ 78 ∷ 79 ∷ []

abbrev all_above : List ℕ → Bool
all_above [] = true
all_above (bn ∷ bns) = ltb 32 bn && all_above bns

end_op-thirty_blocks :
    end_op
      (record { outstanding = 1; header = some (record { sb = sb; blocks = 50 ∷ other_blocks }) })
      booted
    ≡ panic
unfolding buffers_used
end_op-thirty_blocks =
    end_op_full sb 50 other_blocks booted (all_home (50 ∷ other_blocks) refl) tt (omega arith)
  where
    all_home : (bns : List ℕ) → all_above bns ≡ true → All (IsHome sb 31) bns
    all_home [] h = tt
    all_home (bn ∷ bns) h = elim (Bool-cases (ltb 32 bn)) [
      | inl lt ↦ (inr (ground arith), all_home bns (ground (arith, h)))
      | inr ge ↦ absurd (ground (arith, h))
    ]
