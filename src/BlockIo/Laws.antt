-- ===== src/BlockIo/Laws.antt =====
-- What a client of the block cache sees.
use ov.Prelude.{ℕ, ◌≡◌, ◌≢◌, ◌⊎◌, inl, inr, true, false, arith, ◌==◌, ==→eq, Bool-cases}
use ov.BlockIo.{BlockData, DeviceRead, lock, read, modify}

module _ {Bytes : Type 0} (device : DeviceRead Bytes) where
  -- A block that is not clean is never read over: what was written to it stays until it is written
  -- to the device, or its slot is recycled.
  pub read-modify :
      (b : BlockData Bytes) (f : Bytes → Bytes)
      → b.valid ≡ true
      → read device (modify f b) ≡ (modify f b, true)
  unfolding read modify
  read-modify b f v = ground arith

  -- A slot that a lock finds recycled, or not valid, is filled from the device, at the block asked
  -- for; any other is used as it is, whatever the device holds.
  pub read-lock :
      (i : ℕ) (b : BlockData Bytes)
      → (((b.valid ≡ true) × (b.index ≡ i)) × (read device (lock i b) ≡ (b, true)))
        ⊎ (((b.valid ≡ false) ⊎ (b.index ≢ i))
            × ((read device (lock i b)).1 ≡ (device i b.bytes).1)
            × ((read device (lock i b)).0
                ≡ record { index = i; valid = true; dirty = false; bytes = (device i b.bytes).0 }))
  unfolding read lock
  read-lock i b = elim (Bool-cases b.valid) [
    | inl v ↦ elim (Bool-cases (b.index == i)) [
      | inl e ↦ inl ((v, ==→eq _ _ e), ground arith)
      | inr e ↦ inr (inr (ground arith), ground arith, ground arith)
    ]
    | inr v ↦ inr (inl v, ground arith, ground arith)
  ]

  -- A read that fails, of a slot that was not valid, leaves the slot valid: the next read of the block succeeds, whatever
  -- the device does then.
  pub read-read_failed :
      (other : DeviceRead Bytes) (i : ℕ) (b : BlockData Bytes)
      → b.valid ≡ false
      → (read device (lock i b)).1 ≡ false
      → (read other (lock i (read device (lock i b)).0)).1 ≡ true
  unfolding read lock
  read-read_failed other i b v failed = ground arith
