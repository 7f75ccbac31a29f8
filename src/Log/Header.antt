-- ===== src/Log/Header.antt =====
-- The header block: what `write_log_head` writes is what `read` reads, and how `push` grows it.
use ov.Prelude.{
  put, ℕ, ◌+◌, ◌^◌, ◌≤◌, ◌<◌, ◌≡◌, refl, ap, ◌∙◌, List, [], ◌∷◌, ◌++◌, arith, length, length-set,
  set, take, All, All-set, All-replicate, take_next-set, length-replicate, done, lt→ltb, le→leb,
}
use mathlib.Core.Path.{fun_ext}
use mathlib.Core.List.{append_assoc, append-nil}
use ov.BlockIo
use ov.BlockIo.{BlockData, DeviceRead}
use ov.Log.{
  max_log_count, nbuf, get_buffer, log_header_block, ReprHeader, zero_indices, zeroed_header,
  set_len, indices, set_index, Fits, Layout, LogHeader, Io,
}
use ov.Log.Ops.{write_block, set_block, fill_indices, write_log_head}
use ov.Log.Buffers.{get_buffer_lem}
use ov.Log.Blocks.{content, Becomes, store_lem}

abbrev pub IsWord : ℕ → Type 0
IsWord b = b < 2 ^ 32

-- The header that `fill_indices` leaves: `before` and then the indices written.
record Filled (h : ReprHeader) (i : ℕ) (bns : List ℕ) (r : ReprHeader) : Type 0 where
  run : fill_indices i bns h ≡ done r
  same_len : r.len ≡ h.len
  same_size : length r.block_indices ≡ length h.block_indices
  written : take h.len r.block_indices ≡ take i h.block_indices ++ bns
  words : All IsWord r.block_indices

fill_step :
    (i bn : ℕ) (bns : List ℕ) (h r : ReprHeader)
    → i < h.len
    → h.len ≤ length h.block_indices
    → IsWord bn
    → fill_indices (i + 1) bns (record h { block_indices = set h.block_indices i bn }) ≡ done r
    → fill_indices i (bn ∷ bns) h ≡ done r
unfolding fill_indices set_index
fill_step i bn bns h r lt le w run =
    rw (lt→ltb bn (2 ^ 32) w, lt→ltb i h.len lt, le→leb h.len (length h.block_indices) le) run

fill_indices_lem :
    (i : ℕ) (bns : List ℕ) (h : ReprHeader)
    → i + length bns ≡ h.len
    → h.len ≤ length h.block_indices
    → All IsWord bns
    → All IsWord h.block_indices
    → (r : ReprHeader) × Filled h i bns r
unfolding fill_indices
fill_indices_lem i [] h e le w hw = (
  h,
  record {
    run = refl;
    same_len = refl;
    same_size = refl;
    written =
        let e' : h.len ≡ i = omega arith in
        rw (append-nil (take i h.block_indices)) (ap (λ n. take n h.block_indices) e');
    words = hw;
  },
)
fill_indices_lem i (bn ∷ bns) h e le (wb, w) hw =
    let h' : ReprHeader = record h { block_indices = set h.block_indices i bn } in
    let size : length (set h.block_indices i bn) ≡ length h.block_indices =
      length-set h.block_indices i bn in
    let (r, f) =
      fill_indices_lem (i + 1) bns h' (omega arith) (omega arith) w
        (All-set IsWord h.block_indices i bn wb hw) in
    (
      r,
      record {
        run = fill_step i bn bns h r (omega arith) le wb f.run;
        same_len = f.same_len;
        same_size = f.same_size ∙ size;
        written =
            f.written
            ∙ ap (λ t. t ++ bns) (take_next-set h.block_indices i bn (omega arith))
            ∙ append_assoc (take i h.block_indices) (bn ∷ []) bns;
        words = f.words;
      },
    )

set_len_lem : (h : ReprHeader) (n : ℕ) → n < 2 ^ 32 → set_len h n ≡ done (record h { len = n })
unfolding set_len
set_len_lem h n lt = rw (lt→ltb n (2 ^ 32) lt)

indices_lem :
    (h : ReprHeader)
    → h.len ≤ length h.block_indices
    → indices h ≡ done (take h.len h.block_indices)
unfolding indices
indices_lem h le = rw (le→leb h.len (length h.block_indices) le)

length-zero_indices : length zero_indices ≡ max_log_count
unfolding zero_indices
length-zero_indices = length-replicate {A = ℕ} max_log_count 0

All-zero_indices : All IsWord zero_indices
unfolding zero_indices
All-zero_indices = All-replicate IsWord max_log_count 0 (omega arith)

-- The header of a transaction of `bns`, as it goes to the disk.
pub header_lem :
    (l : Layout) (bns : List ℕ)
    → length bns ≤ max_log_count
    → All IsWord bns
    → (zeroed r : ReprHeader) × (set_len (l.as_header l.zeros) (length bns) ≡ done zeroed)
      × (fill_indices 0 bns zeroed ≡ done r)
      × (indices r ≡ done bns)
      × Fits r
header_lem l bns le w =
    let z : ReprHeader = record { len = length bns; block_indices = zero_indices } in
    let (r, f) =
      fill_indices_lem 0 bns z (omega arith) (omega (arith, length-zero_indices)) w
        All-zero_indices in
    let same : r.len ≡ length bns = f.same_len in
    let size : length r.block_indices ≡ max_log_count = f.same_size ∙ length-zero_indices in
    (
      z,
      r,
      rw (l.as_header-zeros) (set_len_lem zeroed_header (length bns) (omega arith)),
      f.run,
      indices_lem r (omega arith) ∙ ap done (ap (λ n. take n r.block_indices) same ∙ f.written),
      record { size = size; len_fits = omega arith; indices_fit = f.words },
    )

module _ {l : Layout} where
  -- Setting a block and then overwriting it in place is setting it to the later bytes.
  refill-set_block :
      (io : Io l) (i : ℕ) (a b : l.Bytes)
      → ◌≡◌ {A = Io l}
          (record {
            disk = (set_block io i a).disk;
            slots =
                put
                  (set_block io i a).slots
                  i
                  (BlockIo.modify (λ _. b) ((set_block io i a).slots i));
            others = (set_block io i a).others;
          })
          (set_block io i b)
  unfolding set_block BlockIo.set_data BlockIo.modify BlockIo.lock
  refill-set_block io i a b =
      ap {B = Io l} (λ f. record { disk = io.disk; slots = f; others = io.others })
        (fun_ext (λ j. ground arith))

  -- For a transaction that the header block has room for, of blocks whose numbers fit 32 bits, which
  -- leave a buffer of the cache,
  -- `write_log_head` returns and replaces the header block, on the disk and in the cache, by one from which the
  -- blocks of the transaction are read back; it touches no other block.
  pub write_log_head_lem :
      (h : LogHeader) (io : Io l)
      → length h.blocks + length io.others < nbuf
      → length h.blocks ≤ max_log_count
      → All IsWord h.blocks
      → (io' : Io l) × (r : ReprHeader) × (write_log_head h io ≡ done io')
        × (indices (l.as_header (l.of_header r)) ≡ done h.blocks)
        × Becomes io' io.others
            (put io.disk (log_header_block h.sb) (l.of_header r))
            (put (content io) (log_header_block h.sb) (l.of_header r))
  unfolding write_log_head
  write_log_head_lem h io free le w =
      let buffer : get_buffer (h.blocks ++ io.others) (log_header_block h.sb) ≡ done tt =
        get_buffer_lem h.blocks io.others (log_header_block h.sb) free in
      let (z, r, zeroed, filled, got, fits) = header_lem l h.blocks le w in
      let (io', stored, becomes) = store_lem io (log_header_block h.sb) (l.of_header r) in
      (
        io',
        r,
        rw (buffer, zeroed, filled)
            (ap (λ x. write_block x (log_header_block h.sb))
                (refill-set_block io (log_header_block h.sb) l.zeros (l.of_header r))
              ∙ stored),
        rw (l.as_header-of_header r fits) got,
        becomes,
      )
