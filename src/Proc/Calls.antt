-- ===== src/Proc/Calls.antt =====
-- The calls of Ops keep what holds of the table.
use ov.Prelude.{
  ℕ, zero, suc, ◌+◌, ◌≡◌, refl, subst, sym, ap, ◌∙◌, inl, inr, Bool, true, false, ◌&&◌, not, Option,
  none, some, ◌==◌, Bool-cases,
}
use ov.Prelude.Int.{ℤ}
use ov.Proc.{
  ProcState, unused, used, sleeping, runnable, running, zombie, ProcPrivateData, Table, is_unused,
  set_proc, set_state,
}
use ov.Proc.Ops.{
  wait_round, waits, unwrapped, exit_with, is_child_of, reparent, exited, exit, WaitTarget,
  any_process, process, WaitStop, reap, wait_loop, woken, wakeup, unslept, has_pid, kill_loop,
  sleep, is_state, yield_cpu, schedule_round,
}
use ov.Proc.Tables.{
  each-IsTable, some_ne, free-IsTable, keep-IsTable, live_state, state-IsTable, reparent-IsTable,
  IsTable,
}

pub some-IsTable : (t t' : Table) → some t ≡ some t' → IsTable t → IsTable t'
some-IsTable t t' e w = subst IsTable (cc e) w

pub unwrapped-IsTable :
    (o : Option ℕ) (t t' : Table) → unwrapped o t ≡ some t' → IsTable t → IsTable t'
unwrapped-IsTable none t t' e w = some_ne e
unwrapped-IsTable (some n) t t' e w = some-IsTable t t' e w

pub exit_with-IsTable :
    (is_init : Bool) (private : Option ProcPrivateData) (t t' : Table)
    → exit_with is_init private t ≡ some t'
    → IsTable t
    → IsTable t'
exit_with-IsTable true private t t' e w = some_ne e
exit_with-IsTable false none t t' e w = some_ne e
exit_with-IsTable false (some d) t t' e w = unwrapped-IsTable d.cwd t t' e w

pub reparent-same :
    (t : Table) (old new i : ℕ) → ((reparent old new t).procs i).state ≡ (t.procs i).state
unfolding reparent
reparent-same t old new i = elim (Bool-cases (is_child_of (t.procs i) old)) [
  | inl child ↦ rw child refl
  | inr other ↦ rw other refl
]

pub exit-IsTable :
    (t t' : Table) (p : ℕ) (status : ℤ)
    → is_state running (t.procs p).state ≡ true
    → exit p status t ≡ some t'
    → IsTable t
    → IsTable t'
unfolding exit
exit-IsTable t t' p status run e w =
    let u = reparent p t.init_proc t in
    let live =
      ap is_unused (reparent-same t p t.init_proc p) ∙ live_state running (t.procs p).state run in
    exit_with-IsTable (p == t.init_proc) (t.procs p).private _ t' e (
      keep-IsTable u p (exited status (u.procs p)) (refl, sym live, λ n _. n)
        (reparent-IsTable t p t.init_proc w))

pub reap-IsTable :
    (i : ℕ) (t : Table) (st : ProcState) (pid : Option ℕ) (more : WaitStop × Table)
    → IsTable t
    → IsTable more.1
    → IsTable (reap i t st pid more).1
reap-IsTable i t (zombie status) (some pid) more w m = free-IsTable t i (t.procs i) w
reap-IsTable i t (zombie status) none more w m = w
reap-IsTable i t unused pid more w m = m
reap-IsTable i t used pid more w m = m
reap-IsTable i t (sleeping chan) pid more w m = m
reap-IsTable i t runnable pid more w m = m
reap-IsTable i t running pid more w m = m

pub wait_round-IsTable :
    (i : ℕ) (t : Table) (child : Bool) (target : WaitTarget) (pid : Option ℕ)
    (skip more : WaitStop × Table)
    → IsTable t
    → IsTable skip.1
    → IsTable more.1
    → IsTable (wait_round i t child target pid skip more).1
wait_round-IsTable i t false target pid skip more w s m = s
wait_round-IsTable i t true any_process pid skip more w s m =
    reap-IsTable i t (t.procs i).state pid more w m
wait_round-IsTable i t true (process target) none skip more w s m = w
wait_round-IsTable i t true (process target) (some pid) skip more w s m =
    elim (Bool-cases (pid == target)) [
      | inl same ↦ rw same (reap-IsTable i t (t.procs i).state (some pid) (waits, t) w w)
      | inr other ↦ rw other s
    ]

pub wait_loop-IsTable :
    (rounds i : ℕ) (found : Bool) (p : ℕ) (target : WaitTarget) (t : Table)
    → IsTable t
    → IsTable (wait_loop rounds i found p target t).1
unfolding wait_loop
wait_loop-IsTable zero i found p target t w = w
wait_loop-IsTable (suc rounds) i found p target t w =
    wait_round-IsTable i t (is_child_of (t.procs i) p) target (t.procs i).pid
      (wait_loop rounds (i + 1) found p target t) (wait_loop rounds (i + 1) true p target t) w
      (wait_loop-IsTable rounds (i + 1) found p target t w)
      (wait_loop-IsTable rounds (i + 1) true p target t w)

pub woken_live : (chan : ℕ) (st : ProcState) → is_unused (woken chan st) ≡ is_unused st
woken_live chan (sleeping ch) = elim (Bool-cases (ch == chan)) [
  | inl same ↦ rw same refl
  | inr other ↦ rw other refl
]
woken_live chan unused = refl
woken_live chan used = refl
woken_live chan runnable = refl
woken_live chan running = refl
woken_live chan (zombie status) = refl

pub unslept_live : (st : ProcState) → is_unused (unslept st) ≡ is_unused st
unslept_live (sleeping ch) = refl
unslept_live unused = refl
unslept_live used = refl
unslept_live runnable = refl
unslept_live running = refl
unslept_live (zombie status) = refl

pub wakeup-IsTable : (t : Table) (chan : ℕ) → IsTable t → IsTable (wakeup chan t)
unfolding wakeup
wakeup-IsTable t chan w =
    each-IsTable t (wakeup chan t) (λ i. (refl, woken_live chan (t.procs i).state, λ n _. n)) refl w

pub kill_loop-IsTable :
    (rounds i pid : ℕ) (t t' : Table) → kill_loop rounds i pid t ≡ some t' → IsTable t → IsTable t'
unfolding kill_loop
kill_loop-IsTable zero i pid t t' e w = some_ne e
kill_loop-IsTable (suc rounds) i pid t t' e w = elim (Bool-cases (has_pid pid (t.procs i))) [
  | inr other ↦ kill_loop-IsTable rounds (i + 1) pid t t' (sym (rw (kill_loop, other) refl) ∙ e) w
  | inl found ↦
      some-IsTable
        (set_proc i (record (t.procs i) { killed = true; state = unslept (t.procs i).state }) t) t'
        (sym (rw (kill_loop, found) refl) ∙ e)
        (keep-IsTable t i _ (refl, unslept_live (t.procs i).state, λ n _. n) w)
]

pub sleep-IsTable :
    (t t' : Table) (p chan : ℕ) (continue_if_killed : Bool)
    → is_state running (t.procs p).state ≡ true
    → sleep p chan continue_if_killed t ≡ some t'
    → IsTable t
    → IsTable t'
unfolding sleep
sleep-IsTable t t' p chan c run e w = elim (Bool-cases (not c && (t.procs p).killed)) [
  | inl gone ↦ some_ne (sym (rw (sleep, gone) refl) ∙ e)
  | inr stays ↦
      some-IsTable (set_state p (sleeping chan) t) t' (sym (rw (sleep, stays) refl) ∙ e)
        (state-IsTable t p (sleeping chan) (live_state running (t.procs p).state run) w)
]

pub yield-IsTable : (t t' : Table) (p : ℕ) → yield_cpu p t ≡ some t' → IsTable t → IsTable t'
unfolding yield_cpu
yield-IsTable t t' p e w = elim (Bool-cases (is_state running (t.procs p).state)) [
  | inr other ↦ some_ne (sym (rw (yield_cpu, other) refl) ∙ e)
  | inl run ↦
      some-IsTable (set_state p runnable t) t' (sym (rw (yield_cpu, run) refl) ∙ e)
        (state-IsTable t p runnable (live_state running (t.procs p).state run) w)
]

pub schedule-IsTable :
    (t t' : Table) (i : ℕ) → schedule_round i t ≡ some t' → IsTable t → IsTable t'
unfolding schedule_round
schedule-IsTable t t' i e w = elim (Bool-cases (is_state runnable (t.procs i).state)) [
  | inr other ↦ some-IsTable t t' (sym (rw (schedule_round, other) refl) ∙ e) w
  | inl ready ↦
      unwrapped-IsTable (t.procs i).pid (set_state i running t) t'
        (sym (rw (schedule_round, ready) refl) ∙ e)
        (state-IsTable t i running (live_state runnable (t.procs i).state ready) w)
]
