-- ===== src/Log/Buffers.antt =====
-- When `block_io::get` finds a buffer.
use ov.Prelude.{
  ℕ, ◌+◌, ◌≤◌, ◌<◌, ◌≡◌, inl, inr, true, List, [], ◌∷◌, ◌++◌, arith, length, length-append, done,
  panic, Bool-cases,
}
use ov.Log.{nbuf, absent, buffers_used, get_buffer}

buffers_used_le : (refs : List ℕ) → buffers_used refs ≤ length refs
unfolding buffers_used
buffers_used_le [] = omega arith
buffers_used_le (b ∷ refs) = ground (arith, buffers_used_le refs)

-- Fewer references than buffers leave one for any block.
pub get_buffer_lem :
    (pinned others : List ℕ) (bn : ℕ)
    → length pinned + length others < nbuf
    → get_buffer (pinned ++ others) bn ≡ done tt
unfolding get_buffer
get_buffer_lem pinned others bn lt =
    let few = buffers_used_le (pinned ++ others) in
    let size = length-append pinned others in
    elim (Bool-cases (absent bn (pinned ++ others))) [
      | inl new ↦ ground (arith, few, size, lt)
      | inr old ↦ ground arith
    ]

-- With every buffer referenced, none for the block, `block_io::get` panics.
pub get_buffer_full :
    (refs : List ℕ) (bn : ℕ)
    → absent bn refs ≡ true
    → nbuf ≤ buffers_used refs
    → get_buffer refs bn ≡ panic
unfolding get_buffer
get_buffer_full refs bn new full = ground arith
