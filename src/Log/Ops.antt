-- ===== src/Log/Ops.antt =====
-- The block accesses of `LogHeader`, and `Log`'s operations on top of them.
use ov.Prelude.{
  put, ℕ, ◌+◌, ◌^◌, true, List, [], ◌∷◌, ◌++◌, length, Run, done, assert, ◌==◌, ltb, ◌>>=◌, ◌>>◌,
}
use ov.BlockIo
use ov.BlockIo.{BlockData, DeviceRead}
use ov.Log.{
  SuperBlock, log_header_block, log_body_block, ReprHeader, set_len, indices, set_index, Layout,
  LogHeader, get_buffer, push_all, Io,
}

-- `for (i, br) in self.blocks.iter().enumerate() { dst.block_indices_mut()[i] = … }`
unfoldable pub fill_indices : ℕ → List ℕ → ReprHeader → Run ReprHeader
fill_indices i [] h = done h
fill_indices i (bn ∷ bns) h = do
  assert (ltb bn (2 ^ 32))
  h' ← set_index h i bn
  fill_indices (i + 1) bns h'

module _ {l : Layout} where
  -- `br.lock().read()` on the buffer `br` of block `i`: the bytes, with the slot filled. Where the
  -- buffer is not held yet, `get_buffer` comes before.
  unfoldable pub read_block : Io l → ℕ → l.Bytes × Io l
  read_block io i =
      let slot = (BlockIo.read (λ j _. (io.disk j, true)) (BlockIo.lock i (io.slots i))).0 in
      (slot.bytes, record io { slots = put io.slots i slot })

  -- `bg.write()`: the slot's bytes go to the disk.
  unfoldable pub write_block : Io l → ℕ → Run (Io l)
  write_block io i = do
    (slot, (j, bytes)) ← BlockIo.write (io.slots i)
    done (record io { disk = put io.disk j bytes; slots = put io.slots i slot })

  -- `br.lock().set_data(bytes)` on the buffer of block `i`
  unfoldable pub set_block : Io l → ℕ → l.Bytes → Io l
  set_block io i bytes = record io {
    slots = put io.slots i (BlockIo.set_data bytes (BlockIo.lock i (io.slots i)));
  }

  -- `LogHeader::write_log_body` from the block at position `i` on, where the header references the
  -- blocks `pinned`. In each round a buffer for the block of the log comes on top.
  unfoldable pub write_log_body : SuperBlock → List ℕ → ℕ → List ℕ → Io l → Run (Io l)
  write_log_body sb pinned i [] io = done io
  write_log_body sb pinned i (bn ∷ bns) io = do
    let read = read_block io bn
    let log = log_body_block sb i
    get_buffer (pinned ++ io.others) log
    io' ← write_block (set_block read.1 log read.0) log
    write_log_body sb pinned (i + 1) bns io'

  -- `LogHeader::write_log_head`: the block is zeroed, then filled through its view as a header.
  unfoldable pub write_log_head : LogHeader → Io l → Run (Io l)
  write_log_head h io = do
    let head = log_header_block h.sb
    get_buffer (h.blocks ++ io.others) head
    let zeroed = set_block io head l.zeros
    repr ← set_len (l.as_header l.zeros) (length h.blocks)
    repr' ← fill_indices 0 h.blocks repr
    let slot = BlockIo.modify (λ _. l.of_header repr') (zeroed.slots head)
    write_block (record zeroed { slots = put zeroed.slots head slot }) head

  -- `LogHeader::install_transaction`: each block is read and written where it lives, in the buffer
  -- that the header references.
  unfoldable pub install_blocks : List ℕ → Io l → Run (Io l)
  install_blocks [] io = done io
  install_blocks (bn ∷ bns) io = do
    io' ← write_block (read_block io bn).1 bn
    install_blocks bns io'

  unfoldable pub install_transaction : LogHeader → Io l → Run (LogHeader × Io l)
  install_transaction h io = do
    io' ← install_blocks h.blocks io
    done (record h { blocks = [] }, io')

  -- `LogHeader::commit`
  unfoldable pub commit : LogHeader → Io l → Run (LogHeader × Io l)
  commit h io = elim h.blocks [
    | [] ↦ done (h, io)
    | _ ∷ _ ↦ do
      body ← write_log_body h.sb h.blocks 0 h.blocks io
      head ← write_log_head h body
      (h', installed) ← install_transaction h head
      assert (length h'.blocks == 0)
      erased ← write_log_head h' installed
      done (h', erased)
  ]

  -- `LogHeader::read`: the buffer of the header block is held to the end.
  unfoldable pub read : LogHeader → Io l → Run (LogHeader × Io l)
  read h io = do
    assert (length h.blocks == 0)
    let head = log_header_block h.sb
    get_buffer (h.blocks ++ io.others) head
    let got = read_block io head
    bns ← indices (l.as_header got.0)
    h' ← push_all (head ∷ io.others) h bns
    done (h', got.1)

  -- `LogHeader::recover_from_log`
  unfoldable pub recover_from_log : LogHeader → Io l → Run (LogHeader × Io l)
  recover_from_log h io = do
    (found, io') ← read h io
    (empty, installed) ← install_transaction found io'
    erased ← write_log_head empty installed
    done (empty, erased)
