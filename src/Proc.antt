-- ===== src/Proc.antt =====
-- crates/kernel/ov6_kernel/src/proc (mod.rs, ops.rs, scheduler.rs): the process table. Each function
-- is what one process does while it holds the locks. User memory, the trap frame and the saved
-- contexts are left out.
pub mod Ops
pub mod Tables
pub mod Calls
pub mod NewProcs
pub mod Steps
pub mod Wait
pub mod Waits
pub mod Forks
pub mod Exits
pub mod Tests
use ov.Prelude.{
  ℕ, zero, suc, ◌+◌, ◌%◌, ◌^◌, Bool, true, false, ◌&&◌, not, Option, none, some, List, [], ◌∷◌,
  replicate, put, ◌==◌, if◌then◌else◌,
}
use ov.Prelude.Int.{ℤ}

pub data ProcState : Type 0 where
  unused : ProcState
  used : ProcState
  sleeping : ℕ → ProcState
  runnable : ProcState
  running : ProcState
  zombie : ℤ → ProcState

pub record AlarmInfo : Type 0 where
  pub time : ℕ
  pub dur : ℕ
  pub handler : ℕ

-- `ProcPrivateData`; a file and an inode are known by a number.
pub record ProcPrivateData : Type 0 where
  pub pid : ℕ
  pub ofile : List (Option ℕ)
  pub cwd : Option ℕ
  pub trace_mask : ℕ

-- `Proc`, with its `ProcSharedData`; a parent is known by its place in the table.
pub record Proc : Type 0 where
  pub pid : Option ℕ
  pub name : List ℕ
  pub state : ProcState
  pub killed : Bool
  pub alarm : Option AlarmInfo
  pub parent : Option ℕ
  pub private : Option ProcPrivateData

-- `PROC`, the counter of `allocate_pid`, and `INIT_PROC`
pub record Table : Type 0 where
  pub procs : ℕ → Proc
  pub next_pid : ℕ
  pub init_proc : ℕ

abbrev pub nproc : ℕ
nproc = 64

abbrev pub nofile : ℕ
nofile = 16

-- A result, an error of a kind, or a panic.
pub data Result (A : Type 0) : Type 0 where
  ok : A → Result A
  no_free_proc : Result A
  no_memory : Result A
  panicked : Result A

abbrev pub is_unused : ProcState → Bool
is_unused unused = true
is_unused used = false
is_unused (sleeping chan) = false
is_unused runnable = false
is_unused running = false
is_unused (zombie status) = false

-- The loop of `lock_unused_proc`, over the places from `i`
unfoldable pub lock_unused_proc : (rounds i : ℕ) → Table → Option ℕ
lock_unused_proc zero i t = none
lock_unused_proc (suc rounds) i t =
    let rest = lock_unused_proc rounds (i + 1) t in
    if is_unused (t.procs i).state then some i else rest

abbrev pub set_proc : ℕ → Proc → Table → Table
set_proc i p t = record t { procs = put t.procs i p }

-- `Proc::free`
abbrev pub free_proc : Proc → Proc
free_proc p = record p { parent = none; pid = none; name = []; killed = false; state = unused }

abbrev pub new_private : ℕ → ProcPrivateData
new_private pid = record { pid = pid; ofile = replicate nofile none; cwd = none; trace_mask = 0 }

-- `Proc::init_private` on a new process, which asserts that there is no private data.
abbrev pub init_private : (i pid : ℕ) → Proc → Option ProcPrivateData → Table → Result ℕ × Table
init_private i pid p none t = (ok i, set_proc i (record p { private = some (new_private pid) }) t)
init_private i pid p (some private) t = (panicked, set_proc i p t)

-- `Proc::allocate` at a place, where there is memory for a page table or not.
abbrev pub allocate_at : (has_memory : Bool) → ℕ → Table → Result ℕ × Table
allocate_at has_memory i t =
    let p = record (t.procs i) { pid = some t.next_pid; state = used } in
    let t' = record t { next_pid = (t.next_pid + 1) % 2 ^ 32 } in
    if t.next_pid == 0
    then (panicked, t')
    else if not has_memory
    then (no_memory, set_proc i (free_proc p) t')
    else init_private i t.next_pid p p.private t'

unfoldable pub allocate : Bool → Table → Result ℕ × Table
allocate has_memory t = elim (lock_unused_proc nproc 0 t) [
  | none ↦ (no_free_proc, t)
  | some i ↦ allocate_at has_memory i t
]

-- What `fork` copies from the parent's `ProcPrivateData`.
abbrev pub inherit : ProcPrivateData → Option ProcPrivateData → Option ProcPrivateData
inherit parent none = none
inherit parent (some c) =
    some (record c { ofile = parent.ofile; cwd = parent.cwd; trace_mask = parent.trace_mask })

-- The first part of `fork`, under the lock of the new process: it is freed when the memory of the
-- parent cannot be cloned.
abbrev pub fork_at : (cloned : Bool) → ProcPrivateData → List ℕ → ℕ → Table → Result ℕ × Table
fork_at cloned parent name i t =
    let p = t.procs i in
    if cloned
    then (ok i, set_proc i (record p { private = inherit parent p.private; name = name }) t)
    else (no_memory, set_proc i (free_proc p) t)

abbrev pub then_fork : Bool → ProcPrivateData → List ℕ → Result ℕ × Table → Result ℕ × Table
then_fork cloned parent name (ok i, t) = fork_at cloned parent name i t
then_fork cloned parent name (no_free_proc, t) = (no_free_proc, t)
then_fork cloned parent name (no_memory, t) = (no_memory, t)
then_fork cloned parent name (panicked, t) = (panicked, t)

unfoldable pub fork_new :
    (has_memory cloned : Bool) → ProcPrivateData → List ℕ → Table → Result ℕ × Table
fork_new has_memory cloned parent name t = then_fork cloned parent name (allocate has_memory t)

-- The second part, under the wait lock, and the third
abbrev pub set_parent : (child parent : ℕ) → Table → Table
set_parent i parent t = set_proc i (record (t.procs i) { parent = some parent }) t

abbrev pub set_state : ℕ → ProcState → Table → Table
set_state i st t = set_proc i (record (t.procs i) { state = st }) t

unfoldable pub fork :
    (p : ℕ) → (has_memory cloned : Bool) → ProcPrivateData → Table → Result ℕ × Table
fork p has_memory cloned private t =
    let (res, t') = fork_new has_memory cloned private (t.procs p).name t in
    elim res [
      | ok i ↦ (ok i, set_state i runnable (set_parent i p t'))
      | no_free_proc ↦ (no_free_proc, t')
      | no_memory ↦ (no_memory, t')
      | panicked ↦ (panicked, t')
    ]
