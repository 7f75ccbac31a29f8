-- ===== src/Log/Blocks.antt =====
-- The single block accesses, by what the disk holds and what a read through the cache sees.
use ov.Prelude.{put, ℕ, List, ◌≡◌, refl, true, false, ◌&&◌, arith, done, ◌==◌, if◌then◌else◌}
use ov.BlockIo
use ov.BlockIo.{BlockData, DeviceRead}
use ov.Log.{Layout, Io}
use ov.Log.Ops.{read_block, write_block, set_block}

module _ {l : Layout} where
  -- What a read of the block through the cache gives.
  abbrev pub content : Io l → ℕ → l.Bytes
  content io i =
      if (io.slots i).valid && (io.slots i).index == i then (io.slots i).bytes else io.disk i

  -- In `io'` the disk is `d`, the contents are `c`, and others reference the blocks `os`.
  pub record Becomes (io' : Io l) (os : List ℕ) (d c : ℕ → l.Bytes) : Type 0 where
    pub disk : (j : ℕ) → io'.disk j ≡ d j
    pub contents : (j : ℕ) → content io' j ≡ c j
    pub referenced : io'.others ≡ os

  module _ (io : Io l) (i : ℕ) where
    -- The slot of block `i` once it is read.
    abbrev filled : BlockData l.Bytes
    filled = (BlockIo.read (λ j _. (io.disk j, true)) (BlockIo.lock i (io.slots i))).0

    filled_lem : (filled.index ≡ i) × (filled.valid ≡ true) × (filled.bytes ≡ content io i)
    unfolding BlockIo.read BlockIo.lock
    filled_lem = (ground arith, ground arith, ground arith)

    pub read_block-content : (read_block io i).0 ≡ content io i
    unfolding read_block
    read_block-content = filled_lem.2

    pub read_block-Becomes : Becomes (read_block io i).1 io.others io.disk (content io)
    unfolding read_block
    read_block-Becomes = record {
      disk = λ j. refl;
      contents = λ j. ground (arith, filled_lem);
      referenced = refl;
    }

    -- A block that is read and written back.
    pub flush_lem :
        (io' : Io l) × (write_block (read_block io i).1 i ≡ done io')
        × Becomes io' io.others (put io.disk i (content io i)) (content io)
    unfolding write_block read_block BlockIo.write
    flush_lem =
        let io' : Io l = record {
          disk = put io.disk i (content io i);
          slots = put (put io.slots i filled) i (record (filled) { dirty = false });
          others = io.others;
        } in
        (
          io',
          ground (arith, filled_lem),
          record {
            disk = λ j. refl;
            contents = λ j. ground (arith, filled_lem);
            referenced = refl;
          },
        )

    -- A block that is set and written.
    pub store_lem :
        (bytes : l.Bytes)
        → (io' : Io l) × (write_block (set_block io i bytes) i ≡ done io')
          × Becomes io' io.others (put io.disk i bytes) (put (content io) i bytes)
    unfolding write_block set_block BlockIo.write BlockIo.set_data BlockIo.lock
    store_lem bytes =
        let slot : BlockData l.Bytes = record {
          index = i;
          valid = true;
          dirty = true;
          bytes = bytes;
        } in
        let io' : Io l = record {
          disk = put io.disk i bytes;
          slots = put (put io.slots i slot) i (record slot { dirty = false });
          others = io.others;
        } in
        (
          io',
          ground arith,
          record { disk = λ j. refl; contents = λ j. ground arith; referenced = refl },
        )
