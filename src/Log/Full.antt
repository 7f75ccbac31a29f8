-- ===== src/Log/Full.antt =====
-- A commit that finds no buffer.
use ov.Prelude.{
  ℕ, ◌+◌, ◌≤◌, ◌<◌, ◌≡◌, refl, ◌∙◌, inl, inr, true, ◌&&◌, some, List, [], ◌∷◌, ◌++◌, arith, All,
  panic,
}
use ov.Log.{SuperBlock, log_body_block, nbuf, Layout, absent, buffers_used, Io}
use ov.Log.Ops.{write_log_body, commit}
use ov.Log.Tx.{end_op, end_op_release}
use ov.Log.Buffers.{get_buffer_full}
use ov.Log.Bodies.{IsHome}

absent-append : (b : ℕ) (xs ys : List ℕ) → absent b (xs ++ ys) ≡ (absent b xs && absent b ys)
absent-append b [] ys = refl
absent-append b (x ∷ xs) ys = ground (arith, absent-append b xs ys)

-- A block of the log is none of those outside of it.
absent-home :
    (sb : SuperBlock) (hi i : ℕ) (bns : List ℕ)
    → i < hi
    → All (IsHome sb hi) bns
    → absent (log_body_block sb i) bns ≡ true
absent-home sb hi i [] lt home = refl
absent-home sb hi i (bn ∷ bns) lt (inl below, home) =
    ground (arith, absent-home sb hi i bns lt home)
absent-home sb hi i (bn ∷ bns) lt (inr above, home) =
    ground (arith, absent-home sb hi i bns lt home)

-- When the last operation ends, and the blocks of the transaction, with those that others reference,
-- take all `nbuf` buffers of the cache, none of them for a block of the log, `end_op` panics: the
-- commit finds no buffer for the first block of the log. So it is for a transaction of `nbuf`
-- blocks, which a log of `log_size` blocks can hold.
pub end_op_full :
    {l : Layout} (sb : SuperBlock) (bn : ℕ) (bns : List ℕ) (io : Io l)
    → All (IsHome sb (sb.nlog + 1)) (bn ∷ bns)
    → All (IsHome sb (sb.nlog + 1)) io.others
    → nbuf ≤ buffers_used ((bn ∷ bns) ++ io.others)
    → end_op (record { outstanding = 1; header = some (record { sb = sb; blocks = bn ∷ bns }) }) io
      ≡ panic
unfolding end_op end_op_release commit write_log_body
end_op_full sb bn bns io home others full =
    let new : absent (log_body_block sb 0) ((bn ∷ bns) ++ io.others) ≡ true =
      absent-append (log_body_block sb 0) (bn ∷ bns) io.others
      ∙ rw
          (
            absent-home sb (sb.nlog + 1) 0 (bn ∷ bns) (omega arith) home,
            absent-home sb (sb.nlog + 1) 0 io.others (omega arith) others,
          )
          refl in
    rw (get_buffer_full ((bn ∷ bns) ++ io.others) (log_body_block sb 0) new full) refl
