-- ===== src/Log/Panics.antt =====
-- When the calls of the log panic: never, or when its size and the reservation do not agree.
use ov.Prelude.{
  ℕ, suc, ◌+◌, ◌*◌, ◌≤◌, ◌<◌, All, ◌≡◌, ◌≢◌, none, some, List, [], ◌∷◌, ◌++◌, arith, length, done,
  panic,
}
use ov.Log.{max_op_blocks, log_size, nbuf, SuperBlock, Layout, LogHeader, push, Io}
use ov.Log.Ops.{commit}
use ov.Log.Header.{IsWord}
use ov.Log.Bodies.{IsHome}
use ov.Log.Tx.{LogData, try_begin, end_op_release, end_op_return, write}
use ov.Log.Space.{System, Step}

pub data Reach (s : System) : System → Type 0 where
  here : Reach s s
  next : {t u : System} → Reach s t → Step t u → Reach s u

-- The log as `Log::new` leaves it, before any operation.
abbrev pub idle : SuperBlock → System
idle sb = record {
  log = record { outstanding = 0; header = some (record { sb = sb; blocks = [] }) };
  budgets = [];
  committing = none;
}

-- The panics of the log, in a state where operation calls are made as they should be: an operation
-- with writes left writes, an operation under way ends, a header taken is committed, while the cache
-- has a buffer more than the blocks that it and others reference, and given back.
pub record NeverPanics (s : System) : Type 1 where
  pub write_ok :
      (before after : List ℕ) (n bn : ℕ)
      → s.budgets ≡ before ++ (suc n ∷ after)
      → (d : LogData) × (write s.log bn ≡ done d)
  pub end_ok :
      (before after : List ℕ) (n : ℕ)
      → s.budgets ≡ before ++ (n ∷ after)
      → end_op_release s.log ≢ panic
  pub commit_ok :
      {l : Layout} (h : LogHeader) (io : Io l)
      → s.committing ≡ some h
      → All IsWord h.blocks
      → All (IsHome h.sb (h.sb.nlog + 1)) h.blocks
      → length h.blocks + length io.others < nbuf
      → commit h io ≢ panic
  pub return_ok : (h back : LogHeader) → s.committing ≡ some h → end_op_return s.log back ≢ panic

-- On a log of fewer blocks the reservation, which counts by `log_size`, does not protect `write`:
-- with as many blocks logged as the log has, and room by the count of `log_size`, an operation is
-- let in, and its first write panics.
pub begin-write_full :
    (d : LogData) (h : LogHeader) (bn : ℕ)
    → d.header ≡ some h
    → h.sb.nlog ≤ length h.blocks
    → length h.blocks + (d.outstanding + 1) * max_op_blocks ≤ log_size
    → (d' : LogData) × (try_begin d ≡ some d') × (write d' bn ≡ panic)
unfolding try_begin write push
begin-write_full d h bn e full fits =
    (record d { outstanding = d.outstanding + 1 }, ground arith, ground arith)
