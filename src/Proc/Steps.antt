-- ===== src/Proc/Steps.antt =====
-- Any order of the calls of any number of processes.
use ov.Prelude.{ℕ, ◌+◌, ◌^◌, ◌<◌, ◌≡◌, Bool, true, false, some, List}
use ov.Prelude.Int.{ℤ}
use ov.Proc.{
  used, runnable, running, ProcPrivateData, Table, nproc, fork_new, set_parent, set_state,
}
use ov.Proc.Ops.{
  exit, WaitTarget, wait_loop, wakeup, kill, sleep, is_state, yield_cpu, schedule_round,
}
use ov.Proc.Tables.{live_state, state-IsTable, link-IsTable, IsTable}
use ov.Proc.Calls.{
  exit-IsTable, wait_loop-IsTable, wakeup-IsTable, kill_loop-IsTable, sleep-IsTable, yield-IsTable,
  schedule-IsTable,
}
use ov.Proc.NewProcs.{fork-IsTable}

-- What is done while the locks are held.
pub data Step : Table → Table → Type 0 where
  fork_step :
      (t : Table) (has_memory cloned : Bool) (private : ProcPrivateData) (name : List ℕ)
      → t.next_pid + 1 < 2 ^ 32
      → Step t (fork_new has_memory cloned private name t).1
  link_step :
      (t : Table) (i p : ℕ) → is_state used (t.procs i).state ≡ true → Step t (set_parent i p t)
  start_step :
      (t : Table) (i : ℕ) → is_state used (t.procs i).state ≡ true → Step t (set_state i runnable t)
  exit_step :
      (t t' : Table) (p : ℕ) (status : ℤ)
      → is_state running (t.procs p).state ≡ true
      → exit p status t ≡ some t'
      → Step t t'
  wait_step :
      (t : Table) (p : ℕ) (target : WaitTarget) → Step t (wait_loop nproc 0 false p target t).1
  wakeup_step : (t : Table) (chan : ℕ) → Step t (wakeup chan t)
  kill_step : (t t' : Table) (pid : ℕ) → kill pid t ≡ some t' → Step t t'
  sleep_step :
      (t t' : Table) (p chan : ℕ) (continue_if_killed : Bool)
      → is_state running (t.procs p).state ≡ true
      → sleep p chan continue_if_killed t ≡ some t'
      → Step t t'
  yield_step : (t t' : Table) (p : ℕ) → yield_cpu p t ≡ some t' → Step t t'
  schedule_step : (t t' : Table) (i : ℕ) → schedule_round i t ≡ some t' → Step t t'

-- Whatever the processes call, in any order: a place of the table is unused if and only if it has no
-- process ID, and then it has no parent; no two places have one ID, and each ID was given out by the
-- counter. The counter is not at its end when a process is made.
pub Step-IsTable : (t t' : Table) → Step t t' → IsTable t → IsTable t'
Step-IsTable _ _ (fork_step t has_memory cloned private name b) w =
    fork-IsTable t has_memory cloned private name b w
Step-IsTable _ _ (link_step t i p u) w = link-IsTable t i p (live_state used (t.procs i).state u) w
Step-IsTable _ _ (start_step t i u) w =
    state-IsTable t i runnable (live_state used (t.procs i).state u) w
Step-IsTable _ _ (exit_step t t' p status u e) w = exit-IsTable t t' p status u e w
Step-IsTable _ _ (wait_step t p target) w = wait_loop-IsTable nproc 0 false p target t w
Step-IsTable _ _ (wakeup_step t chan) w = wakeup-IsTable t chan w
Step-IsTable _ _ (kill_step t t' pid e) w = kill_loop-IsTable nproc 0 pid t t' e w
Step-IsTable _ _ (sleep_step t t' p chan c u e) w = sleep-IsTable t t' p chan c u e w
Step-IsTable _ _ (yield_step t t' p e) w = yield-IsTable t t' p e w
Step-IsTable _ _ (schedule_step t t' i e) w = schedule-IsTable t t' i e w
