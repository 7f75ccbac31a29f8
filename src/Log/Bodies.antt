-- ===== src/Log/Bodies.antt =====
-- The two passes of `LogHeader::commit` over the blocks of the transaction: `write_log_body` and
-- `install_transaction`.
use ov.Prelude.{
  put, put_self, put_ne, ℕ, zero, suc, ◌+◌, ◌≤◌, ◌<◌, ◌≡◌, refl, ◌∙◌, ◌≢◌, ◌⊎◌, List, [], ◌∷◌, ◌++◌,
  ap, arith, length, get_or, All, All-get_or, done, if◌then◌else◌,
}
use ov.Log.{SuperBlock, log_body_block, Layout, absent, nbuf, get_buffer, Io}
use ov.Log.Buffers.{get_buffer_lem}
use ov.Log.Ops.{read_block, write_block, set_block, write_log_body, install_blocks}
use ov.Log.Blocks.{content, Becomes, read_block-content, read_block-Becomes, store_lem, flush_lem}

-- The disk after the blocks `bns` are written home.
abbrev pub installed {ℓ} : {A : Type ℓ} → List ℕ → (ℕ → A) → (ℕ → A) → ℕ → A
installed bns old new j = if absent j bns then old j else new j

-- Block `b` lies outside the `hi` blocks of the log from `logstart` on.
abbrev pub IsHome : SuperBlock → ℕ → ℕ → Type 0
IsHome sb hi b = (b < sb.logstart) ⊎ (sb.logstart + hi ≤ b)

module _ {l : Layout} where
  -- `install_transaction` writes each block of the header as the cache has it, and no other.
  pub install_blocks_lem :
      (bns : List ℕ) (io : Io l)
      → (io' : Io l) × (install_blocks bns io ≡ done io')
        × Becomes io' io.others (installed bns io.disk (content io)) (content io)
  unfolding install_blocks
  install_blocks_lem [] io =
      (io, refl, record { disk = λ j. refl; contents = λ j. refl; referenced = refl })
  install_blocks_lem (bn ∷ bns) io =
      let (io₁, first, b₁) = flush_lem io bn in
      let (io', rest, b') = install_blocks_lem bns io₁ in
      (
        io',
        rw first rest,
        record {
          disk = λ j. ground (arith, b₁.disk j, b₁.contents j, b'.disk j);
          contents = λ j. b'.contents j ∙ b₁.contents j;
          referenced = b'.referenced ∙ b₁.referenced;
        },
      )

  -- The bodies of `bns` are at the positions from `i` on, and no other block has changed.
  pub record BodyWritten (sb : SuperBlock) (i : ℕ) (bns : List ℕ) (io io' : Io l) : Type 0 where
    pub referenced : io'.others ≡ io.others
    pub below :
        (j : ℕ) → j < sb.logstart + i → (io'.disk j ≡ io.disk j) × (content io' j ≡ content io j)
    pub above :
        (j : ℕ)
        → sb.logstart + i + length bns ≤ j
        → (io'.disk j ≡ io.disk j) × (content io' j ≡ content io j)
    pub bodies :
        (k : ℕ)
        → k < length bns
        → io'.disk (log_body_block sb (i + k)) ≡ content io (get_or bns k 0)

  copy_lem :
      (io : Io l) (bn p : ℕ)
      → (io₁ : Io l) × (write_block (set_block (read_block io bn).1 p (read_block io bn).0) p
          ≡ done io₁)
        × Becomes io₁ io.others (put io.disk p (content io bn)) (put (content io) p (content io bn))
  copy_lem io bn p =
      let b₀ = read_block-Becomes io bn in
      let e : (read_block io bn).0 ≡ content io bn = read_block-content io bn in
      let (io₁, run, b₁) = store_lem (read_block io bn).1 p (read_block io bn).0 in
      (
        io₁,
        run,
        record {
          disk = λ j. ground (arith, e, b₀.disk j, b₁.disk j);
          contents = λ j. ground (arith, e, b₀.contents j, b₁.contents j);
          referenced = b₁.referenced ∙ b₀.referenced;
        },
      )

  module _ (sb : SuperBlock) (i bn : ℕ) (bns : List ℕ) (io io₁ io' : Io l)
      (b : Becomes io₁ io.others
        (put io.disk (log_body_block sb i) (content io bn))
        (put (content io) (log_body_block sb i) (content io bn)))
      (w : BodyWritten sb (i + 1) bns io₁ io') where
    untouched :
        (j : ℕ)
        → log_body_block sb i ≢ j
        → (io'.disk j ≡ io₁.disk j) × (content io' j ≡ content io₁ j)
        → (io'.disk j ≡ io.disk j) × (content io' j ≡ content io j)
    untouched j ne (d, c) = (
      d ∙ b.disk j ∙ put_ne io.disk (log_body_block sb i) (content io bn) j ne,
      c ∙ b.contents j ∙ put_ne (content io) (log_body_block sb i) (content io bn) j ne,
    )

    body_at :
        (hi k : ℕ)
        → i + length (bn ∷ bns) ≤ hi
        → All (IsHome sb hi) bns
        → k < length (bn ∷ bns)
        → io'.disk (log_body_block sb (i + k)) ≡ content io (get_or (bn ∷ bns) k 0)
    body_at hi zero le home lt =
        let e : i + 0 ≡ i = omega arith in
        let p = log_body_block sb i in
        rw e ((w.below p (omega arith)).0 ∙ b.disk p ∙ put_self io.disk p (content io bn))
    body_at hi (suc k) le home lt =
        let e : i + suc k ≡ i + 1 + k = omega arith in
        let g = get_or bns k 0 in
        let at : IsHome sb hi g = All-get_or (IsHome sb hi) bns k 0 (omega arith) home in
        rw e (
          w.bodies k (omega arith)
          ∙ b.contents g
          ∙ put_ne (content io) (log_body_block sb i) (content io bn) g (omega arith))

  pub write_log_body_lem :
      (sb : SuperBlock) (pinned : List ℕ) (i : ℕ) (bns : List ℕ) (io : Io l) (hi : ℕ)
      → length pinned + length io.others < nbuf
      → i + length bns ≤ hi
      → All (IsHome sb hi) bns
      → (io' : Io l) × (write_log_body sb pinned i bns io ≡ done io') × BodyWritten sb i bns io io'
  unfolding write_log_body
  write_log_body_lem sb pinned i [] io hi free le home = (
    io,
    refl,
    record {
      referenced = refl;
      below = λ j h. (refl, refl);
      above = λ j h. (refl, refl);
      bodies = λ k h. absurd (omega arith);
    },
  )
  write_log_body_lem sb pinned i (bn ∷ bns) io hi free le (here, home) =
      let got : get_buffer (pinned ++ io.others) (log_body_block sb i) ≡ done tt =
        get_buffer_lem pinned io.others (log_body_block sb i) free in
      let (io₁, first, b₁) = copy_lem io bn (log_body_block sb i) in
      let same : length io₁.others ≡ length io.others = ap length b₁.referenced in
      let (io', rest, w) =
        write_log_body_lem sb pinned (i + 1) bns io₁ hi (omega (arith, free, same)) (omega arith)
          home in
      (
        io',
        rw (got, first) rest,
        record {
          referenced = w.referenced ∙ b₁.referenced;
          below = λ j h.
              untouched sb i bn bns io io₁ io' b₁ w j (omega arith) (w.below j (omega arith));
          above = λ j h.
              untouched sb i bn bns io io₁ io' b₁ w j (omega arith) (w.above j (omega arith));
          bodies = λ k h. body_at sb i bn bns io io₁ io' b₁ w hi k le home h;
        },
      )
