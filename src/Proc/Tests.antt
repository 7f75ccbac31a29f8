-- ===== src/Proc/Tests.antt =====
-- A table with the first process and its child.
use ov.Prelude.{
  ℕ, ◌≡◌, refl, sym, ap, ◌∙◌, ◌≢◌, inl, inr, true, false, Option, none, some, [], arith, put_ne,
}
use ov.Prelude.{ℕ_discrete}
use ov.Prelude.Int.{pos}
use ov.Proc.{
  ProcState, unused, sleeping, running, Proc, Table, no_memory, panicked, nproc, set_proc,
  free_proc, new_private, allocate, lock_unused_proc, fork_new,
}
use ov.Proc.Ops.{any_process, process, reaped, reparent, exited, exit, wait_loop}
use ov.Proc.Tables.{IsTable, set_proc-IsTable}
use ov.Proc.Steps.{exit_step, Step-IsTable}
use ov.Proc.Wait.{Stops}
use ov.Proc.Waits.{wait_loop_lem}
use ov.Proc.Forks.{fork_new-allocate}
use ov.Proc.Exits.{exit-wait}

abbrev no_proc : Proc
no_proc = record {
  pid = none;
  name = [];
  state = unused;
  killed = false;
  alarm = none;
  parent = none;
  private = none;
}

abbrev proc_of : ℕ → ProcState → Option ℕ → Proc
proc_of pid st parent = record no_proc {
  pid = some pid;
  state = st;
  parent = parent;
  private = some (record (new_private pid) { cwd = some 1 });
}

abbrev no_procs : Table
no_procs = record { procs = λ i. no_proc; next_pid = 3; init_proc = 0 }

abbrev with_init : Table
with_init = set_proc 0 (proc_of 1 (sleeping 5) none) no_procs

abbrev with_child : Table
with_child = set_proc 1 (proc_of 2 running (some 0)) with_init

pid_ne : {q : ℕ} → none ≡ some q → ⊥
pid_ne e = cc e

no_procs-IsTable : IsTable no_procs
no_procs-IsTable = record {
  each = λ i. inl (refl, refl, refl);
  distinct = λ i j q a b. absurd (pid_ne a);
  counting = omega arith;
}

with_init-IsTable : IsTable with_init
with_init-IsTable =
    set_proc-IsTable no_procs 0 (proc_of 1 (sleeping 5) none)
      (inr (1, refl, refl, omega arith, omega arith), λ q j e ne e'. pid_ne e') no_procs-IsTable

with_child-IsTable : IsTable with_child
with_child-IsTable =
    set_proc-IsTable with_init 1 (proc_of 2 running (some 0))
      (inr (2, refl, refl, omega arith, omega arith), λ q j e ne. fresh q j e (ℕ_discrete 0 j))
      with_init-IsTable
  where
    some_inj : (a b : ℕ) → some a ≡ some b → a ≡ b
    some_inj a b e = cc e

    fresh : (q j : ℕ) → some 2 ≡ some q → Dec (0 ≡ j) → (with_init.procs j).pid ≢ some q
    fresh q j e (yes z) e' =
        let two = some_inj 2 q e in
        let one = some_inj 1 q (ap (λ k. (with_init.procs k).pid) z ∙ e') in omega (arith, two, one)
    fresh q j e (no n) e' =
        pid_ne
          (ap (λ p. p.pid) (sym (put_ne no_procs.procs 0 (proc_of 1 (sleeping 5) none) j n)) ∙ e')

abbrev after_exit : Table
after_exit =
    set_proc 1 (exited (pos 7) ((reparent 1 0 with_child).procs 1)) (reparent 1 0 with_child)

exits : exit 1 (pos 7) with_child ≡ some after_exit
unfolding exit
exits = refl

Step-IsTable_example : IsTable after_exit
Step-IsTable_example =
    Step-IsTable with_child after_exit (exit_step with_child after_exit 1 (pos 7) refl exits)
      with_child-IsTable

wait_loop_lem_example :
    Stops 0 nproc 0 any_process with_child false (wait_loop nproc 0 false 0 any_process with_child)
wait_loop_lem_example = wait_loop_lem 0 any_process with_child with_child-IsTable

exit-wait_example :
    wait_loop nproc 0 false 0 (process 2) after_exit
    ≡ (reaped 2 (pos 7), set_proc 1 (free_proc (after_exit.procs 1)) after_exit)
exit-wait_example =
    exit-wait with_child after_exit 0 1 2 (pos 7) with_child-IsTable (omega arith)
      (λ e. omega (arith, e)) refl refl refl exits

first_free : lock_unused_proc nproc 0 with_init ≡ some 1
unfolding lock_unused_proc
first_free = refl

fork_new-allocate_example :
    let r = fork_new true false (record (new_private 1) { cwd = some 1 }) [] with_init in
    (r.0 ≡ no_memory) × ((allocate true r.1).0 ≡ panicked)
fork_new-allocate_example =
    fork_new-allocate with_init 1 (record (new_private 1) { cwd = some 1 }) [] first_free
      (omega arith) (omega arith) refl
