-- ===== src/Proc/Ops.antt =====
-- crates/kernel/ov6_kernel/src/proc/ops.rs and scheduler.rs: how processes end, wait, sleep and run.
use ov.Prelude.{
  ℕ, zero, suc, ◌+◌, Bool, true, false, ◌&&◌, not, Option, none, some, List, [], ◌∷◌, ◌==◌,
  if◌then◌else◌,
}
use ov.Prelude.Int.{ℤ}
use ov.Proc.{
  ProcState, unused, used, sleeping, runnable, running, zombie, ProcPrivateData, Proc, Table, nproc,
  set_proc, free_proc, set_state,
}

-- `Proc::is_child_of`
abbrev pub is_child_of : Proc → ℕ → Bool
is_child_of p parent = elim p.parent [ none ↦ false | some q ↦ q == parent ]

-- `reparent`
unfoldable pub reparent : (old new : ℕ) → Table → Table
reparent old new t = record t {
  procs = λ i.
      if is_child_of (t.procs i) old then record (t.procs i) { parent = some new } else t.procs i;
}

abbrev pub exited : ℤ → Proc → Proc
exited status p = record p { state = zombie status; private = none }

-- `unwrap`, before the table is left as it is given
abbrev pub unwrapped : Option ℕ → Table → Option Table
unwrapped none after = none
unwrapped (some n) after = some after

-- The assertion and the unwraps of `exit`
abbrev pub exit_with : (is_init : Bool) → Option ProcPrivateData → Table → Option Table
exit_with true private after = none
exit_with false none after = none
exit_with false (some d) after = unwrapped d.cwd after

-- `exit`, up to the switch to the scheduler; `none` is a panic.
unfoldable pub exit : ℕ → ℤ → Table → Option Table
exit p status t =
    let t' = reparent p t.init_proc t in
    exit_with (p == t.init_proc) (t.procs p).private (set_proc p (exited status (t'.procs p)) t')

pub data WaitTarget : Type 0 where
  any_process : WaitTarget
  process : ℕ → WaitTarget

pub data WaitStop : Type 0 where
  reaped : ℕ → ℤ → WaitStop
  no_wait_target : WaitStop
  waits : WaitStop
  wait_panicked : WaitStop
  already_killed : WaitStop

-- A child that is waited for: it is freed if it is a zombie.
abbrev pub reap : ℕ → Table → ProcState → Option ℕ → WaitStop × Table → WaitStop × Table
reap i t (zombie status) (some pid) more = (reaped pid status, set_proc i (free_proc (t.procs i)) t)
reap i t (zombie status) none more = (wait_panicked, t)
reap i t unused pid more = more
reap i t used pid more = more
reap i t (sleeping chan) pid more = more
reap i t runnable pid more = more
reap i t running pid more = more

-- The body of the inner loop of `wait`, for a process that is a child or not.
abbrev pub wait_round :
    ℕ
    → Table
    → (child : Bool) → WaitTarget
    → Option ℕ
    → WaitStop × Table
    → WaitStop × Table
    → WaitStop × Table
wait_round i t false target pid skip more = skip
wait_round i t true any_process pid skip more = reap i t (t.procs i).state pid more
wait_round i t true (process target) none skip more = (wait_panicked, t)
wait_round i t true (process target) (some pid) skip more =
    if pid == target then reap i t (t.procs i).state (some pid) (waits, t) else skip

-- The inner loop of `wait`, over the places from `i`
unfoldable pub wait_loop :
    (rounds i : ℕ) → (found : Bool) → ℕ → WaitTarget → Table → WaitStop × Table
wait_loop zero i found p target t = (if found then waits else no_wait_target, t)
wait_loop (suc rounds) i found p target t =
    wait_round i t (is_child_of (t.procs i) p) target (t.procs i).pid
      (wait_loop rounds (i + 1) found p target t) (wait_loop rounds (i + 1) true p target t)

pub data Wake : Type 0 where
  resumed : Table → Wake
  killed : Wake

-- What `wait` does when it is woken up, each time that it waits.
unfoldable pub wake_waiter : List Wake → ℕ → WaitTarget → WaitStop × Table → WaitStop × Table
wake_waiter [] p target stop = stop
wake_waiter (w ∷ ws) p target (waits, t) = elim w [
  | killed ↦ (already_killed, t)
  | resumed t' ↦ wake_waiter ws p target (wait_loop nproc 0 false p target t')
]
wake_waiter (w ∷ ws) p target (reaped pid status, t) = (reaped pid status, t)
wake_waiter (w ∷ ws) p target (no_wait_target, t) = (no_wait_target, t)
wake_waiter (w ∷ ws) p target (wait_panicked, t) = (wait_panicked, t)
wake_waiter (w ∷ ws) p target (already_killed, t) = (already_killed, t)

unfoldable pub wait : List Wake → ℕ → WaitTarget → Table → WaitStop × Table
wait wakes p target t = wake_waiter wakes p target (wait_loop nproc 0 false p target t)

abbrev pub woken : ℕ → ProcState → ProcState
woken chan (sleeping ch) = if ch == chan then runnable else sleeping ch
woken chan unused = unused
woken chan used = used
woken chan runnable = runnable
woken chan running = running
woken chan (zombie status) = zombie status

-- `wakeup`, without the interrupts that it sends to idle cores
unfoldable pub wakeup : ℕ → Table → Table
wakeup chan t = record t {
  procs = λ i. record (t.procs i) { state = woken chan (t.procs i).state };
}

abbrev pub unslept : ProcState → ProcState
unslept (sleeping ch) = runnable
unslept unused = unused
unslept used = used
unslept runnable = runnable
unslept running = running
unslept (zombie status) = zombie status

abbrev pub has_pid : ℕ → Proc → Bool
has_pid pid p = elim p.pid [ none ↦ false | some q ↦ q == pid ]

-- `kill`, over the places from `i`; `none` is `ProcessNotFound`.
unfoldable pub kill_loop : (rounds i pid : ℕ) → Table → Option Table
kill_loop zero i pid t = none
kill_loop (suc rounds) i pid t =
    let rest = kill_loop rounds (i + 1) pid t in
    if has_pid pid (t.procs i)
    then some
        (set_proc i (record (t.procs i) { killed = true; state = unslept (t.procs i).state }) t)
    else rest

abbrev pub kill : ℕ → Table → Option Table
kill pid t = kill_loop nproc 0 pid t

-- `sleep_common`, up to the switch to the scheduler; `none` is the error of a killed process.
unfoldable pub sleep : (p chan : ℕ) → (continue_if_killed : Bool) → Table → Option Table
sleep p chan continue_if_killed t =
    if not continue_if_killed && (t.procs p).killed
    then none
    else some (set_state p (sleeping chan) t)

abbrev pub is_state : ProcState → ProcState → Bool
is_state runnable runnable = true
is_state running running = true
is_state used used = true
is_state _ _ = false

-- `yield_`, which asserts that the process runs
unfoldable pub yield_cpu : ℕ → Table → Option Table
yield_cpu p t = if is_state running (t.procs p).state then some (set_state p runnable t) else none

-- A round of `schedule` at a place; `none` is a panic.
unfoldable pub schedule_round : ℕ → Table → Option Table
schedule_round i t =
    if not (is_state runnable (t.procs i).state)
    then some t
    else unwrapped (t.procs i).pid (set_state i running t)
