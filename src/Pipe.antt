-- ===== src/Pipe.antt =====
-- crates/kernel/ov6_kernel/src/file/pipe.rs: `PipeDataLocked` and the calls on a `PipeFile`. The
-- counters do not reach 2 ^ 64. A call that waits takes, for each wait, what it wakes up to.
pub mod Laws
pub mod Stream
pub mod Tests
use ov.Prelude.{
  ℕ, zero, suc, ◌+◌, ◌%◌, Bool, true, false, ◌&&◌, not, List, [], ◌∷◌, get_or, set, replicate, ◌==◌,
  ltb, if◌then◌else◌,
}

abbrev pub pipe_size : ℕ
pipe_size = 512

pub record PipeData : Type 0 where
  pub bytes : List ℕ
  pub nread : ℕ
  pub nwrite : ℕ
  pub read_open : Bool
  pub write_open : Bool

abbrev pub new_pipe : PipeData
new_pipe = record {
  bytes = replicate pipe_size 0;
  nread = 0;
  nwrite = 0;
  read_open = true;
  write_open = true;
}

-- `PipeFile::close`
unfoldable pub close : Bool → PipeData → PipeData
close writable p =
    if writable then record p { write_open = false } else record p { read_open = false }

abbrev pub is_full : PipeData → Bool
is_full p = p.nwrite == p.nread + pipe_size

-- The byte that a round of `write` stores.
abbrev pub push_byte : ℕ → PipeData → PipeData
push_byte b p = record p { bytes = set p.bytes (p.nwrite % pipe_size) b; nwrite = p.nwrite + 1 }

-- How `write` ends, or stops to wait with the bytes that are left.
pub data WriteStop : Type 0 where
  written : ℕ → WriteStop
  broken_pipe : WriteStop
  write_killed : WriteStop
  write_waits : ℕ → List ℕ → WriteStop

-- The loop of `write` up to its end or to the next wait: the bytes left, and how many are written.
unfoldable pub write_loop : List ℕ → ℕ → PipeData → WriteStop × PipeData
write_loop [] n p = (written n, p)
write_loop (b ∷ bs) n p =
    let rest = write_loop bs (n + 1) (push_byte b p) in
    if not p.read_open
    then (if ltb 0 n then written n else broken_pipe, p)
    else if is_full p
    then (write_waits n (b ∷ bs), p)
    else rest

pub data Wake : Type 0 where
  resumed : PipeData → Wake
  killed : Wake

-- What `write` does when the first of the wakeups comes: without one it still waits.
unfoldable pub wake_writer : List Wake → WriteStop × PipeData → WriteStop × PipeData
wake_writer [] (stop, p) = (stop, p)
wake_writer (w ∷ ws) (write_waits n bs, p) = elim w [
  | killed ↦ (write_killed, p)
  | resumed p' ↦ wake_writer ws (write_loop bs n p')
]
wake_writer (w ∷ ws) (written n, p) = (written n, p)
wake_writer (w ∷ ws) (broken_pipe, p) = (broken_pipe, p)
wake_writer (w ∷ ws) (write_killed, p) = (write_killed, p)

-- `PipeFile::write`
unfoldable pub write : List Wake → List ℕ → PipeData → WriteStop × PipeData
write ws src p = wake_writer ws (write_loop src 0 p)

-- The loop of `read`, with the number of bytes that there is still room for.
unfoldable pub read_loop : ℕ → PipeData → List ℕ × PipeData
read_loop zero p = ([], p)
read_loop (suc n) p =
    let rest = read_loop n (record p { nread = p.nread + 1 }) in
    if p.nread == p.nwrite
    then ([], p)
    else (get_or p.bytes (p.nread % pipe_size) 0 ∷ rest.0, rest.1)

pub data ReadStop : Type 0 where
  got : List ℕ → ReadStop
  read_killed : ReadStop
  read_waits : ReadStop

abbrev pub must_wait : PipeData → Bool
must_wait p = p.nread == p.nwrite && p.write_open

abbrev finish_read : ℕ → PipeData → ReadStop × PipeData
finish_read n p = let r = read_loop n p in (got r.0, r.1)

-- `PipeFile::read`, into a slice of `n` bytes.
unfoldable pub read : List Wake → ℕ → PipeData → ReadStop × PipeData
read [] n p = if must_wait p then (read_waits, p) else finish_read n p
read (killed ∷ ws) n p = if must_wait p then (read_killed, p) else finish_read n p
read (resumed p' ∷ ws) n p =
    let again = read ws n p' in if must_wait p then again else finish_read n p
