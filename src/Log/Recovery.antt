-- ===== src/Log/Recovery.antt =====
-- `LogHeader::push` and `LogHeader::recover_from_log`.
use ov.Prelude.{
  put_self, put_ne, ℕ, ◌+◌, ◌≤◌, ◌<◌, ◌≡◌, refl, ap, ◌∙◌, ◌≢◌, ◌⊎◌, inl, inr, true, false, ◌&&◌,
  not, List, [], ◌∷◌, ◌++◌, arith, length, length-append, done, panic, ◌==◌, ltb, Bool-cases,
}
use ov.Log.{
  log_size, SuperBlock, log_header_block, indices, Layout, LogHeader, absent, nbuf, get_buffer,
  push, push_all, Io,
}
use ov.Log.Ops.{read_block, install_transaction, read, recover_from_log}
use ov.Log.Blocks.{content, read_block-content, read_block-Becomes}
use ov.Log.Header.{write_log_head_lem}
use ov.Log.Buffers.{get_buffer_lem}
use ov.Log.Bodies.{install_blocks_lem}

absent-append :
    (b : ℕ) (xs : List ℕ) (y : ℕ) → absent b (xs ++ (y ∷ [])) ≡ (absent b xs && not (b == y))
absent-append b [] y = ground arith
absent-append b (x ∷ xs) y = ground (arith, absent-append b xs y)

-- Where the log is no longer than `log_size`, `push` panics exactly when the log is full, also for a block that it has already. Else the block
-- is in the header afterwards, once: one that was there changes nothing, a new one goes to the end.
pub push_lem :
    (h : LogHeader) (bn : ℕ)
    → h.sb.nlog ≤ log_size
    → ((h.sb.nlog ≤ length h.blocks) × (push h bn ≡ panic))
      ⊎ ((length h.blocks < h.sb.nlog) × (absent bn h.blocks ≡ false) × (push h bn ≡ done h))
      ⊎ ((length h.blocks < h.sb.nlog)
          × (absent bn h.blocks ≡ true)
          × (push h bn ≡ done (record h { blocks = h.blocks ++ (bn ∷ []) })))
unfolding push
push_lem h bn le = elim (Bool-cases (ltb (length h.blocks) h.sb.nlog)) [
  | inl room ↦ elim (Bool-cases (absent bn h.blocks)) [
    | inl new ↦ inr (inr (ground arith, new, ground arith))
    | inr old ↦ inr (inl (ground arith, old, ground arith))
  ]
  | inr full ↦ inl (ground arith, ground arith)
]

push_all_lem :
    (held bns : List ℕ) (h : LogHeader)
    → h.sb.nlog ≤ log_size
    → length h.blocks + length bns ≤ h.sb.nlog
    → length h.blocks + length bns + length held ≤ nbuf
    → (bs : List ℕ) × (push_all held h bns ≡ done (record h { blocks = bs }))
unfolding push_all
push_all_lem held [] h le room free = (h.blocks, refl)
push_all_lem held (bn ∷ bns) h le room free =
    let got : get_buffer (h.blocks ++ held) bn ≡ done tt =
      get_buffer_lem h.blocks held bn (omega (arith, free)) in
    elim (push_lem h bn le) [
      | inl (full, _) ↦ absurd (omega arith)
      | inr (inl (_, _, e)) ↦
          let (bs, p) = push_all_lem held bns h le (omega arith) (omega (arith, free)) in
          (bs, rw (got, e) p)
      | inr (inr (_, _, e)) ↦
          let h₁ : LogHeader = record h { blocks = h.blocks ++ (bn ∷ []) } in
          let room₁ : length (h.blocks ++ (bn ∷ [])) + length bns ≤ h.sb.nlog =
            omega (arith, length-append h.blocks (bn ∷ [])) in
          let free₁ : length (h.blocks ++ (bn ∷ [])) + length bns + length held ≤ nbuf =
            omega (arith, length-append h.blocks (bn ∷ []), free) in
          let (bs, p) = push_all_lem held bns h₁ le room₁ free₁ in (bs, rw (got, e) p)
    ]

-- Nothing in the cache differs from the disk, as after a boot.
abbrev pub IsClean : {l : Layout} → Io l → Type 0
IsClean io = (j : ℕ) → content io j ≡ io.disk j

-- Recovery as it is run after a boot, with a clean cache and an empty header in memory, when the
-- header on the disk lists no more blocks than the log has, the log is no longer than `log_size`,
-- and the blocks listed, with those that others reference, are fewer than the `nbuf` buffers of the
-- cache, one of which holds the header: it does not panic, and leaves every block but the header as it finds it on the disk,
-- whatever the log holds. The bodies in the log are not copied to the blocks that the header lists.
-- It then erases the header.
pub recover_from_log_lem :
    {l : Layout} (sb : SuperBlock) (bns : List ℕ) (io : Io l)
    → sb.nlog ≤ log_size
    → length bns ≤ sb.nlog
    → length bns + length io.others < nbuf
    → IsClean io
    → indices (l.as_header (io.disk (log_header_block sb))) ≡ done bns
    → (io' : Io l) × (recover_from_log (record { sb = sb; blocks = [] }) io
        ≡ done (record { sb = sb; blocks = [] }, io'))
      × ((j : ℕ) → log_header_block sb ≢ j → io'.disk j ≡ io.disk j)
      × (indices (l.as_header (io'.disk (log_header_block sb))) ≡ done [])
unfolding recover_from_log read install_transaction
recover_from_log_lem {l} sb bns io fits short free clean listed =
    let h : LogHeader = record { sb = sb; blocks = [] } in
    let b₀ = read_block-Becomes io sb.logstart in
    let io₀ = (read_block io sb.logstart).1 in
    let head : (read_block io sb.logstart).0 ≡ io.disk sb.logstart =
      read_block-content io sb.logstart ∙ clean sb.logstart in
    let buffer : get_buffer ([] ++ io.others) sb.logstart ≡ done tt =
      get_buffer_lem [] io.others sb.logstart (omega (arith, free)) in
    let (bs, p) =
      push_all_lem (sb.logstart ∷ io.others) bns h fits (omega arith) (omega (arith, free)) in
    let (io₁, install, b₁) = install_blocks_lem bs io₀ in
    let same : length io₁.others ≡ length io.others = ap length (b₁.referenced ∙ b₀.referenced) in
    let (io₂, r, erase, got, b₂) =
      write_log_head_lem h io₁ (omega (arith, free, same)) (omega arith) tt in
    (
      io₂,
      rw (buffer, head, listed, p, install, erase),
      λ j ne.
          b₂.disk j
          ∙ put_ne io₁.disk sb.logstart (l.of_header r) j ne
          ∙ b₁.disk j
          ∙ ground (arith, b₀.disk j, b₀.contents j, clean j),
      rw (b₂.disk sb.logstart ∙ put_self io₁.disk sb.logstart (l.of_header r)) got,
    )
