-- ===== src/Proc/Wait.antt =====
-- `wait`: which child it frees, and when it waits or fails.
use ov.Prelude.{ℕ, ◌≤◌, ◌<◌, ◌≡◌, ◌≢◌, ◌⊎◌, Bool, true, false, some}
use ov.Prelude.Int.{ℤ}
use ov.Proc.{zombie, Table, set_proc, free_proc}
use ov.Proc.Ops.{
  is_child_of, WaitTarget, any_process, process, WaitStop, reaped, no_wait_target, waits,
}

abbrev pub Matches : WaitTarget → ℕ → Type 0
Matches any_process pid = Unit {0}
Matches (process target) pid = pid ≡ target

-- A place that holds a child that is waited for.
pub record IsWaited (p : ℕ) (target : WaitTarget) (t : Table) (j pid : ℕ) : Type 0 where
  pub child : is_child_of (t.procs j) p ≡ true
  pub id : (t.procs j).pid ≡ some pid
  pub matches : Matches target pid

-- One of those in a range of places is a zombie, and it is the one that is freed.
pub record Reaps (lo hi p : ℕ) (target : WaitTarget) (t : Table) (r : WaitStop × Table)
    : Type 0 where
  pub place : ℕ
  pub pid : ℕ
  pub status : ℤ
  pub from : lo ≤ place
  pub to : place < hi
  pub waited : IsWaited p target t place pid
  pub ended : (t.procs place).state ≡ zombie status
  pub result : r ≡ (reaped pid status, set_proc place (free_proc (t.procs place)) t)

-- There are some, and none is a zombie.
pub record Waits (lo hi p : ℕ) (target : WaitTarget) (t : Table) (found : Bool)
    (r : WaitStop × Table) : Type 0 where
  pub some_child :
      (found ≡ true) ⊎ ((j : ℕ) × (pid : ℕ) × (lo ≤ j) × (j < hi) × IsWaited p target t j pid)
  pub none_ended :
      (j pid : ℕ) (status : ℤ)
      → lo ≤ j
      → j < hi
      → IsWaited p target t j pid
      → (t.procs j).state ≢ zombie status
  pub result : r ≡ (waits, t)

-- There is none.
pub record Fails (lo hi p : ℕ) (target : WaitTarget) (t : Table) (found : Bool)
    (r : WaitStop × Table) : Type 0 where
  pub not_found : found ≡ false
  pub no_child : (j pid : ℕ) → lo ≤ j → j < hi → IsWaited p target t j pid → ⊥
  pub result : r ≡ (no_wait_target, t)

abbrev pub Stops : (lo hi p : ℕ) → WaitTarget → Table → Bool → WaitStop × Table → Type 0
Stops lo hi p target t found r =
    Reaps lo hi p target t r ⊎ (Waits lo hi p target t found r ⊎ Fails lo hi p target t found r)
