-- ===== src/BlockIo.antt =====
-- crates/kernel/block_io/src/lib.rs: what a `BlockRef` and a `BlockGuard` do to the `BlockData` of
-- a slot of the cache. The device is a parameter: a read gives the buffer as the driver leaves it,
-- and whether it succeeded.
pub mod Laws
pub mod Tests
use ov.Prelude.{
  ◌>>◌, ℕ, Bool, true, false, Option, none, some, Run, done, assert, ◌==◌, if◌then◌else◌,
}

module _ (Bytes : Type 0) where
  pub record BlockData : Type 0 where
    pub index : ℕ
    pub valid : Bool
    pub dirty : Bool
    pub bytes : Bytes

  -- `device.read(index, &mut data)`: the buffer afterwards, and `Ok` or `Err`.
  abbrev pub DeviceRead : Type 0
  DeviceRead = ℕ → Bytes → Bytes × Bool

-- `Default for BlockData`
abbrev pub default : {Bytes : Type 0} → Bytes → BlockData Bytes
default zeros = record { index = 0; valid = false; dirty = true; bytes = zeros }

module _ {Bytes : Type 0} where
  -- `BlockRef::lock`: a slot that was recycled for another block is not valid.
  unfoldable pub lock : ℕ → BlockData Bytes → BlockData Bytes
  lock i b = if b.index == i then b else record b { index = i; valid = false }

  -- `BlockGuard::read`
  unfoldable pub read : DeviceRead Bytes → BlockData Bytes → BlockData Bytes × Bool
  read device b = if b.valid then (b, true) else (
    record b { valid = true; dirty = false; bytes = (device b.index b.bytes).0 },
    (device b.index b.bytes).1,
  )

  -- `BlockGuard::set_data`, and `zeroed` at a block of zeros
  unfoldable pub set_data : Bytes → BlockData Bytes → BlockData Bytes
  set_data new b = record b { valid = true; dirty = true; bytes = new }

  -- `BlockGuard::try_validate`
  unfoldable pub try_validate : BlockData Bytes → Option (BlockData Bytes)
  try_validate b = if b.valid then some b else none

  -- A write through `bytes_mut` or `data_mut`.
  unfoldable pub modify : (Bytes → Bytes) → BlockData Bytes → BlockData Bytes
  modify f b = record b { dirty = true; bytes = f b.bytes }

  -- `BlockGuard::write`, on a device that takes every write: the index and bytes that it is given.
  unfoldable pub write : BlockData Bytes → Run (BlockData Bytes × (ℕ × Bytes))
  write b = do assert b.valid; done (record b { dirty = false }, (b.index, b.bytes))
