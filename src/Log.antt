-- ===== src/Log.antt =====
-- crates/kernel/ov6_kernel/src/fs/log.rs, with `SuperBlock` and `LogHeader` of
-- crates/common/ov6_fs_types/src/lib.rs. The contents of the block cache are the slots of `BlockIo`
-- by block number, over a disk that takes every read and write (as `VirtioDiskDevice` does); a slot
-- that is not in the cache is one whose `index` is another block's. The cache has `nbuf` buffers,
-- each for one block, and `get` panics when all of them are referenced and none is for the block.
pub mod Header
pub mod Ops
pub mod Buffers
pub mod Blocks
pub mod Bodies
pub mod Commit
pub mod Recovery
pub mod Tx
pub mod Full
pub mod Space
pub mod Panics
pub mod Tests
use ov.Prelude.{
  ℕ, ◌+◌, ◌-◌, ◌*◌, ◌/◌, ◌^◌, ◌<◌, ◌≡◌, Bool, true, ◌&&◌, ◌||◌, not, List, [], ◌∷◌, ◌++◌, length,
  set, take, replicate, All, Run, done, panic, assert, ◌==◌, ltb, leb, if◌then◌else◌, ◌>>=◌, ◌>>◌,
}
use ov.BlockIo
use ov.BlockIo.{BlockData, DeviceRead}

abbrev pub max_op_blocks : ℕ
max_op_blocks = 10

abbrev pub log_size : ℕ
log_size = max_op_blocks * 3

abbrev pub nbuf : ℕ
nbuf = max_op_blocks * 3

-- `FS_BLOCK_SIZE / size_of::<u32>() - 1`
abbrev pub max_log_count : ℕ
max_log_count = 1024 / 4 - 1

-- The fields of the super block that the log reads.
pub record SuperBlock : Type 0 where
  pub nlog : ℕ
  pub logstart : ℕ

abbrev pub max_log_len : SuperBlock → ℕ
max_log_len sb = sb.nlog

abbrev pub log_header_block : SuperBlock → ℕ
log_header_block sb = sb.logstart

abbrev pub log_body_block : SuperBlock → ℕ → ℕ
log_body_block sb i = sb.logstart + i

-- The header block on the disk: `repr::LogHeader`.
pub record ReprHeader : Type 0 where
  pub len : ℕ
  pub block_indices : List ℕ

unfoldable pub zero_indices : List ℕ
zero_indices = replicate max_log_count 0

abbrev pub zeroed_header : ReprHeader
zeroed_header = record { len = 0; block_indices = zero_indices }

-- `u32::try_from(len).unwrap()`
unfoldable pub set_len : ReprHeader → ℕ → Run ReprHeader
set_len h n = if ltb n (2 ^ 32) then done (record h { len = n }) else panic

-- `&self.block_indices[..self.len()]`
unfoldable pub indices : ReprHeader → Run (List ℕ)
indices h = if leb h.len (length h.block_indices) then done (take h.len h.block_indices) else panic

-- `self.block_indices_mut()[i] = v`
unfoldable pub set_index : ReprHeader → ℕ → ℕ → Run ReprHeader
set_index h i v =
    if ltb i h.len && leb h.len (length h.block_indices)
    then done (record h { block_indices = set h.block_indices i v })
    else panic

-- A header of the right size, whose words are `u32`s.
pub record Fits (h : ReprHeader) : Type 0 where
  pub size : length h.block_indices ≡ max_log_count
  pub len_fits : h.len < 2 ^ 32
  pub indices_fit : All (λ b. b < 2 ^ 32) h.block_indices

-- What the log takes of the views that `dataview` gives of a block's bytes.
pub record Layout : Type 1 where
  pub Bytes : Type 0
  pub zeros : Bytes
  pub as_header : Bytes → ReprHeader
  pub of_header : ReprHeader → Bytes
  pub as_header-zeros : as_header zeros ≡ zeroed_header
  pub as_header-of_header : (h : ReprHeader) → Fits h → as_header (of_header h) ≡ h

-- The in-memory header: the blocks that the transaction has changed, each pinned by its `BlockRef`.
pub record LogHeader : Type 0 where
  pub sb : SuperBlock
  pub blocks : List ℕ

unfoldable pub new_header : SuperBlock → Run LogHeader
new_header sb = do assert (leb (max_log_len sb) log_size); done (record { sb = sb; blocks = [] })

-- `blocks.iter().all(|b| b.index() != bn)`
abbrev pub absent : ℕ → List ℕ → Bool
absent bn [] = true
absent bn (b ∷ bs) = not (b == bn) && absent bn bs

-- How many buffers the references to the blocks of a list take: one for each block.
unfoldable pub buffers_used : List ℕ → ℕ
buffers_used [] = 0
buffers_used (b ∷ bs) = let n = buffers_used bs in if absent b bs then n + 1 else n

-- `block_io::get`, where the blocks `refs` are referenced: it panics unless the block is one of
-- them, or a buffer that nobody references is left to be recycled.
unfoldable pub get_buffer : List ℕ → ℕ → Run (Unit {0})
get_buffer refs bn = assert (not (absent bn refs) || ltb (buffers_used refs) nbuf)

-- `LogHeader::push`; `ArrayVec::push` panics when the capacity is used up.
unfoldable pub push : LogHeader → ℕ → Run LogHeader
push h bn = do
  assert (ltb (length h.blocks) (max_log_len h.sb))
  if absent bn h.blocks
      then (do
        assert (ltb (length h.blocks) log_size)
        done (record h { blocks = h.blocks ++ (bn ∷ []) }))
      else done h

-- The loop of `LogHeader::read`, where the blocks `held` are referenced besides those of the header.
unfoldable pub push_all : List ℕ → LogHeader → List ℕ → Run LogHeader
push_all held h [] = done h
push_all held h (bn ∷ bns) = do
  get_buffer (h.blocks ++ held) bn
  h' ← push h bn
  push_all held h' bns

module _ (l : Layout) where
  -- The disk and the cache, with the blocks that others than the log reference.
  pub record Io : Type 0 where
    pub disk : ℕ → l.Bytes
    pub slots : ℕ → BlockData l.Bytes
    pub others : List ℕ
