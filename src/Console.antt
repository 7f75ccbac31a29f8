-- ===== src/Console.antt =====
-- crates/kernel/ov6_kernel/src/console/mod.rs: the line buffer `Cons`, and what `handle_interrupt`
-- and `read` do to it. The echo to the UART and the process list are left out. The counters do not
-- reach 2 ^ 64.
pub mod Line
pub mod Laws
pub mod Reads
pub mod Tests
use ov.Prelude.{
  ℕ, zero, suc, ◌+◌, ◌%◌, Bool, false, ◌&&◌, ◌||◌, not, List, [], ◌∷◌, get_or, set, replicate, Run,
  done, panic, checked_minus, ◌==◌, ltb, if◌then◌else◌, ◌>>=◌, ◌>>◌,
}

abbrev pub buf_len : ℕ
buf_len = 128

abbrev pub newline : ℕ
newline = 10

abbrev pub carriage_return : ℕ
carriage_return = 13

-- `ctrl(b'D')` and so on
abbrev pub ctrl_h : ℕ
ctrl_h = 8

abbrev pub ctrl_u : ℕ
ctrl_u = 21

abbrev pub ctrl_d : ℕ
ctrl_d = 4

abbrev pub ctrl_p : ℕ
ctrl_p = 16

abbrev pub delete : ℕ
delete = 127

pub record Cons : Type 0 where
  pub buf : List ℕ
  pub r : ℕ
  pub w : ℕ
  pub e : ℕ

-- `CONSOLE_BUFFER` at the start
abbrev pub empty_cons : Cons
empty_cons = record { buf = replicate buf_len 0; r = 0; w = 0; e = 0 }

-- The loop of `CTRL_U`; the fuel bounds the rounds.
unfoldable pub kill_line : ℕ → Cons → Run Cons
kill_line zero c = panic
kill_line (suc fuel) c = if c.e == c.w then done c else (do
  i ← checked_minus c.e 1
  let rest = kill_line fuel (record c { e = i })
  if get_or c.buf (i % buf_len) 0 == newline then done c else rest)

unfoldable pub backspace : Cons → Run Cons
backspace c = if c.e == c.w then done c else (do i ← checked_minus c.e 1; done (record c { e = i }))

abbrev pub translate : ℕ → ℕ
translate c = if c == carriage_return then newline else c

-- The line is ready for `read` at its end, at an end of file, or when the buffer is full.
abbrev pub commit_line : ℕ → ℕ → Cons → Cons
commit_line b len c =
    if b == newline || b == ctrl_d || len == buf_len then record c { w = c.e } else c

abbrev pub stored : ℕ → Cons → Cons
stored b c = record c { buf = set c.buf (c.e % buf_len) b; e = c.e + 1 }

abbrev store_input : ℕ → Cons → Run Cons
store_input b c = do len ← checked_minus (stored b c).e c.r; done (commit_line b len (stored b c))

-- Any other character: it is dropped when the buffer is full.
unfoldable pub put_input : ℕ → Cons → Run Cons
put_input b c = do
  len ← checked_minus c.e c.r
  if not (b == 0) && ltb len buf_len then store_input (translate b) c else done c

unfoldable pub handle_interrupt : ℕ → Cons → Run Cons
handle_interrupt b c =
    if b == ctrl_p
    then done c
    else if b == ctrl_u
    then kill_line (suc c.e) c
    else if b == ctrl_h || b == delete
    then backspace c
    else put_input b c

-- How `read` ends, or stops to wait: the bytes that it has copied so far.
pub data ReadStop : Type 0 where
  returns : List ℕ → ReadStop
  waits : List ℕ → ReadStop

abbrev pub prepend : ℕ → Run (ReadStop × Cons) → Run (ReadStop × Cons)
prepend b panic = panic
prepend b (done (returns bs, c)) = done (returns (b ∷ bs), c)
prepend b (done (waits bs, c)) = done (waits (b ∷ bs), c)

-- The loop of `read` up to its end or to the next wait, with the length that is left in the
-- destination, and whether nothing is copied yet.
unfoldable pub read_loop : ℕ → Bool → Cons → Run (ReadStop × Cons)
read_loop zero first c = done (returns [], c)
read_loop (suc n) first c =
    let b = get_or c.buf (c.r % buf_len) 0 in
    let taken = record c { r = c.r + 1 } in
    let rest = prepend b (read_loop n false taken) in
    if c.r == c.w
    then done (waits [], c)
    else if b == ctrl_d
    then (if first
        then done (returns [], taken)
        else (do r ← checked_minus taken.r 1; done (returns [], record taken { r = r })))
    else if b == newline
    then done (returns (b ∷ []), taken)
    else rest
