-- ===== src/Pipe/Stream.antt =====
-- Histories of a pipe: the calls of its readers and writers, interleaved at the waits.
use ov.Prelude.{
  ℕ, ◌+◌, ◌-◌, ◌<◌, ◌≡◌, refl, subst, sym, ap, ◌∙◌, ◌⊎◌, inl, inr, Bool, true, false, List, [], ◌∷◌,
  ◌++◌, arith, length, take, ltb, Bool-cases,
}
use mathlib.Core.List.{append_assoc, append-nil}
use ov.Prelude.{min}
use ov.Pipe.{
  PipeData, close, WriteStop, written, broken_pipe, write_killed, write_waits, write_loop, Wake,
  resumed, killed, read_loop, got, must_wait, read,
}
use ov.Pipe.Laws.{Holds, write_loop_lem, read_loop_lem}

-- The pipe, all that writers say they have written to it, and all that readers got.
pub record System : Type 0 where
  pub pipe : PipeData
  pub sent : List ℕ
  pub received : List ℕ

-- How many of the bytes are in the pipe when `write` stops, where `n` were before.
abbrev pub accepted : WriteStop → ℕ → ℕ
accepted (written m) n = m - n
accepted (write_waits m bs) n = m - n
accepted broken_pipe n = 0
accepted write_killed n = 0

-- A writer with `n` bytes written goes on with `bs` up to its next stop; a reader that need not wait
-- reads; an end is closed.
pub data Step : System → System → Type 0 where
  writes :
      (s : System) (bs : List ℕ) (n : ℕ) (stop : WriteStop) (p' : PipeData)
      → write_loop bs n s.pipe ≡ (stop, p')
      → Step s (record s { pipe = p'; sent = s.sent ++ take (accepted stop n) bs })
  reads :
      (s : System) (n : ℕ) (out : List ℕ) (p' : PipeData)
      → read_loop n s.pipe ≡ (out, p')
      → Step s (record s { pipe = p'; received = s.received ++ out })
  closes : (s : System) (writable : Bool) → Step s (record s { pipe = close writable s.pipe })

-- What was sent is what was received and, behind it, what the pipe holds.
pub record IsStream (s : System) : Type 0 where
  pub queue : List ℕ
  pub holds : Holds s.pipe queue
  pub in_order : s.sent ≡ s.received ++ queue

take_all : (xs ys : List ℕ) → take (length xs) (xs ++ ys) ≡ xs
take_all [] ys = refl
take_all (x ∷ xs) ys = ap (◌∷◌ x) (take_all xs ys)

close-Holds : (w : Bool) (p : PipeData) (q : List ℕ) → Holds p q → Holds (close w p) q
unfolding close
close-Holds true p q h = record {
  size = h.size;
  counted = h.counted;
  bound = h.bound;
  stored = h.stored;
}
close-Holds false p q h = record {
  size = h.size;
  counted = h.counted;
  bound = h.bound;
  stored = h.stored;
}

-- A state that the stop `stop` of a write of `bs`, with `n` written before, leads to.
abbrev after : System → List ℕ → ℕ → WriteStop × PipeData → System
after s bs n (stop, p) = record s { pipe = p; sent = s.sent ++ take (accepted stop n) bs }

nothing_sent :
    (s : System) (bs : List ℕ) (n : ℕ) (stop : WriteStop)
    → IsStream s
    → accepted stop n ≡ 0
    → IsStream (after s bs n (stop, s.pipe))
nothing_sent s bs n stop v e = record {
  queue = v.queue;
  holds = v.holds;
  in_order = rw (e, append-nil s.sent) v.in_order;
}

write_loop_closed :
    (b : ℕ) (bs : List ℕ) (n : ℕ) (p : PipeData)
    → p.read_open ≡ false
    → (stop : WriteStop) × (accepted stop n ≡ 0) × (write_loop (b ∷ bs) n p ≡ (stop, p))
unfolding write_loop
write_loop_closed b bs n p c = elim (Bool-cases (ltb 0 n)) [
  | inl some_written ↦ (written n, omega arith, rw (write_loop, c, some_written))
  | inr none_written ↦ (broken_pipe, refl, rw (write_loop, c, none_written))
]

write_loop_empty : (n : ℕ) (p : PipeData) → write_loop [] n p ≡ (written n, p)
unfolding write_loop
write_loop_empty n p = refl

sent-IsStream :
    (s : System) (bs : List ℕ) (n : ℕ) (stop : WriteStop) (sent rest : List ℕ) (p' : PipeData)
    → (v : IsStream s) → bs ≡ sent ++ rest
    → Holds p' (v.queue ++ sent)
    → accepted stop n ≡ length sent
    → IsStream (after s bs n (stop, p'))
sent-IsStream s bs n stop sent rest p' v parts h e =
    let taken : take (accepted stop n) bs ≡ sent = rw (e, parts) (take_all sent rest) in
    record {
      queue = v.queue ++ sent;
      holds = h;
      in_order =
          ap (λ l. s.sent ++ l) taken
          ∙ ap (λ l. l ++ sent) v.in_order
          ∙ append_assoc s.received v.queue sent;
    }

write-IsStream :
    (s : System) (bs : List ℕ) (n : ℕ)
    → IsStream s
    → IsStream (after s bs n (write_loop bs n s.pipe))
write-IsStream s [] n v =
    rw (write_loop_empty n s.pipe) (nothing_sent s [] n (written n) v (omega arith))
write-IsStream s (b ∷ bs) n v = elim (Bool-cases s.pipe.read_open) [
  | inr closed ↦
      let (stop, e, run) = write_loop_closed b bs n s.pipe closed in
      rw run (nothing_sent s (b ∷ bs) n stop v e)
  | inl live ↦
      let (sent, rest, p', a) = write_loop_lem (b ∷ bs) n s.pipe v.queue v.holds live in
      elim a.outcome [
        | inl (_, run) ↦ rw run (
            sent-IsStream s (b ∷ bs) n (written (n + length sent)) sent rest p' v a.parts a.holds
              (omega arith))
        | inr (_, run) ↦ rw run (
            sent-IsStream s (b ∷ bs) n (write_waits (n + length sent) rest) sent rest p' v a.parts
              a.holds (omega arith))
      ]
]

-- A pipe is a stream: if the bytes sent are, in order, the bytes received and then those in the
-- pipe, they still are after a writer goes on to its end or next wait, a reader reads, or an end is
-- closed. No byte is lost, repeated or reordered.
pub Step-IsStream : {s t : System} → Step s t → IsStream s → IsStream t
Step-IsStream (writes s bs n stop p' run) v =
    subst (λ r. IsStream (after s bs n r)) run (write-IsStream s bs n v)
Step-IsStream (reads s n out p' run) v =
    let (out', rest, p₁, run', parts, len, h) = read_loop_lem n s.pipe v.queue v.holds in
    let e : (out', p₁) ≡ (out, p') = sym run' ∙ run in
    subst
      (λ (r : List ℕ × PipeData). IsStream (record s { pipe = r.1; received = s.received ++ r.0 }))
      e
      (record {
        queue = rest;
        holds = h;
        in_order =
            v.in_order ∙ ap (λ l. s.received ++ l) parts ∙ sym (append_assoc s.received out' rest);
      })
Step-IsStream (closes s w) v = record {
  queue = v.queue;
  holds = close-Holds w s.pipe v.queue v.holds;
  in_order = v.in_order;
}

read_ready :
    (ws : List Wake) (n : ℕ) (p : PipeData)
    → must_wait p ≡ false
    → read ws n p ≡ (got (read_loop n p).0, (read_loop n p).1)
unfolding read
read_ready [] n p e = rw (read, e)
read_ready (killed ∷ ws) n p e = rw (read, e)
read_ready (resumed p' ∷ ws) n p e = rw (read, e)

-- A reader that finds bytes, or finds the write end closed, does not wait, whatever the wakeups
-- would be: it gets the oldest bytes, as many as there are up to the length asked for, and so none
-- at the end of the stream.
pub read_lem :
    (ws : List Wake) (n : ℕ) (p : PipeData) (q : List ℕ)
    → Holds p q
    → (0 < length q) ⊎ (p.write_open ≡ false)
    → (out rest : List ℕ) × (p' : PipeData) × (read ws n p ≡ (got out, p'))
      × (q ≡ out ++ rest)
      × (length out ≡ min n (length q))
      × Holds p' rest
read_lem ws n p q h ready =
    let go : must_wait p ≡ false = ground (arith, ready, h.counted) in
    let (out, rest, p', run, parts, len, h') = read_loop_lem n p q h in
    (
      out,
      rest,
      p',
      read_ready ws n p go ∙ ap (λ (r : List ℕ × PipeData). (got r.0, r.1)) run,
      parts,
      len,
      h',
    )
