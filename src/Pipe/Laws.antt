-- ===== src/Pipe/Laws.antt =====
-- The pipe as a bounded queue of bytes.
use ov.Prelude.{
  ℕ, zero, suc, ◌+◌, ◌%◌, ◌≤◌, ◌<◌, ◌≡◌, refl, subst, sym, ap, ◌∙◌, ◌⊎◌, inl, inr, true, false,
  List, [], ◌∷◌, ◌++◌, arith, length, length-append, length-set, set, Bool-cases,
}
use mathlib.Core.List.{append_assoc, append-nil}
use ov.Prelude.{min}
use ov.Ring.{Stores, Stores-push}
use ov.Pipe.{pipe_size, PipeData, is_full, push_byte, written, write_waits, write_loop, read_loop}

-- The pipe holds the bytes `q`.
pub record Holds (p : PipeData) (q : List ℕ) : Type 0 where
  pub size : length p.bytes ≡ pipe_size
  pub counted : p.nwrite ≡ p.nread + length q
  pub bound : length q ≤ pipe_size
  pub stored : Stores pipe_size p.bytes p.nread q

pub push_byte-Holds :
    (p : PipeData) (q : List ℕ) (b : ℕ)
    → Holds p q
    → is_full p ≡ false
    → Holds (push_byte b p) (q ++ (b ∷ []))
push_byte-Holds p q b h room =
    let len : length (q ++ (b ∷ [])) ≡ length q + 1 = length-append q (b ∷ []) in
    let c : p.nwrite ≡ p.nread + length q = h.counted in
    let fits : length q < pipe_size = ground (arith, h.bound, c) in
    record {
      size = length-set p.bytes (p.nwrite % pipe_size) b ∙ h.size;
      counted = omega (arith, len);
      bound = omega (arith, len);
      stored =
          subst (λ j. Stores pipe_size (set p.bytes (j % pipe_size) b) p.nread (q ++ (b ∷ [])))
            (sym c) (Stores-push pipe_size p.bytes p.nread b q h.size fits h.stored);
    }

-- Of `bs` the bytes `sent` are put behind the bytes `q` of the pipe; `n` were written before.
pub record Accepts (bs : List ℕ) (n : ℕ) (p : PipeData) (q sent rest : List ℕ) (p' : PipeData)
    : Type 0 where
  pub parts : bs ≡ sent ++ rest
  pub holds : Holds p' (q ++ sent)
  pub same_read_end : p'.read_open ≡ p.read_open
  pub same_write_end : p'.write_open ≡ p.write_open
  pub outcome :
      ((rest ≡ []) × (write_loop bs n p ≡ (written (n + length sent), p')))
      ⊎ ((length (q ++ sent) ≡ pipe_size)
          × (write_loop bs n p ≡ (write_waits (n + length sent) rest, p')))

full-length : (p : PipeData) (q : List ℕ) → Holds p q → is_full p ≡ true → length q ≡ pipe_size
full-length p q h full = ground (arith, h.counted)

write_loop_nil : (n : ℕ) (p : PipeData) → write_loop [] n p ≡ (written (n + 0), p)
unfolding write_loop
write_loop_nil n p = let e : n + 0 ≡ n = omega arith in rw e

write_loop_full :
    (b : ℕ) (bs : List ℕ) (n : ℕ) (p : PipeData)
    → p.read_open ≡ true
    → is_full p ≡ true
    → write_loop (b ∷ bs) n p ≡ (write_waits (n + 0) (b ∷ bs), p)
unfolding write_loop
write_loop_full b bs n p o full = let e : n + 0 ≡ n = omega arith in rw (write_loop, o, full, e)

write_loop_next :
    (b : ℕ) (bs : List ℕ) (n : ℕ) (p : PipeData)
    → p.read_open ≡ true
    → is_full p ≡ false
    → write_loop (b ∷ bs) n p ≡ write_loop bs (n + 1) (push_byte b p)
unfolding write_loop
write_loop_next b bs n p o room = rw (write_loop, o, room)

Accepts-next :
    (b : ℕ) (bs : List ℕ) (n : ℕ) (p : PipeData) (q sent rest : List ℕ) (p' : PipeData)
    → p.read_open ≡ true
    → is_full p ≡ false
    → Accepts bs (n + 1) (push_byte b p) (q ++ (b ∷ [])) sent rest p'
    → Accepts (b ∷ bs) n p q (b ∷ sent) rest p'
Accepts-next b bs n p q sent rest p' o room a =
    let e : (q ++ (b ∷ [])) ++ sent ≡ q ++ (b ∷ sent) = append_assoc q (b ∷ []) sent in
    let m : n + 1 + length sent ≡ n + length (b ∷ sent) = omega arith in
    let step = write_loop_next b bs n p o room in
    record {
      parts = ap (◌∷◌ b) a.parts;
      holds = subst (λ x. Holds p' x) e a.holds;
      same_read_end = a.same_read_end;
      same_write_end = a.same_write_end;
      outcome = elim a.outcome [
        | inl (done_all, run) ↦ inl (done_all, step ∙ run ∙ ap (λ k. (written k, p')) m)
        | inr (full, run) ↦
            inr (ap length (sym e) ∙ full, step ∙ run ∙ ap (λ k. (write_waits k rest, p')) m)
      ];
    }

-- With the read end open, `write` puts the bytes into the pipe in their order. It ends when all are
-- written, and else waits with the others, which it does only when the pipe is full.
pub write_loop_lem :
    (bs : List ℕ) (n : ℕ) (p : PipeData) (q : List ℕ)
    → Holds p q
    → p.read_open ≡ true
    → (sent rest : List ℕ) × (p' : PipeData) × Accepts bs n p q sent rest p'
write_loop_lem [] n p q h o = (
  [],
  [],
  p,
  record {
    parts = refl;
    holds = rw (append-nil q) h;
    same_read_end = refl;
    same_write_end = refl;
    outcome = inl (refl, write_loop_nil n p);
  },
)
write_loop_lem (b ∷ bs) n p q h o = elim (Bool-cases (is_full p)) [
  | inl full ↦ (
    [],
    b ∷ bs,
    p,
    record {
      parts = refl;
      holds = rw (append-nil q) h;
      same_read_end = refl;
      same_write_end = refl;
      outcome = inr (rw (append-nil q) (full-length p q h full), write_loop_full b bs n p o full);
    },
  )
  | inr room ↦
      let (sent, rest, p', a) =
        write_loop_lem bs (n + 1) (push_byte b p) (q ++ (b ∷ [])) (push_byte-Holds p q b h room)
          o in
      (b ∷ sent, rest, p', Accepts-next b bs n p q sent rest p' o room a)
]

-- `read` takes the oldest bytes of the pipe, as many as there are, up to the length asked for.
pub read_loop_lem :
    (n : ℕ) (p : PipeData) (q : List ℕ)
    → Holds p q
    → (out rest : List ℕ) × (p' : PipeData) × (read_loop n p ≡ (out, p'))
      × (q ≡ out ++ rest)
      × (length out ≡ min n (length q))
      × Holds p' rest
unfolding read_loop
read_loop_lem zero p q h = ([], q, p, refl, refl, omega arith, h)
read_loop_lem (suc n) p [] h =
    let c : p.nwrite ≡ p.nread = omega (arith, h.counted) in
    ([], [], p, ground (arith, c), refl, omega arith, h)
read_loop_lem (suc n) p (b ∷ q) h =
    let p₁ : PipeData = record p { nread = p.nread + 1 } in
    let h₁ : Holds p₁ q = record {
      size = h.size;
      counted = omega (arith, h.counted);
      bound = omega (arith, h.bound);
      stored = h.stored.1;
    } in
    let (out, rest, p', run, parts, len, h') = read_loop_lem n p₁ q h₁ in
    (
      b ∷ out,
      rest,
      p',
      ground (arith, run, h.counted, h.stored.0),
      ap (◌∷◌ b) parts,
      omega arith,
      h',
    )
