-- ===== src/Proc/Exits.antt =====
-- A process that ends, and its parent.
use ov.Prelude.{
  ℕ, ◌<◌, ◌≡◌, refl, sym, ap, ◌∙◌, ◌≢◌, inl, inr, Bool, true, false, Option, none, some, arith,
  put_self, ◌==◌, ==_refl, ==_ne,
}
use ov.Prelude.Int.{ℤ}
use ov.Proc.{running, zombie, ProcPrivateData, Table, nproc, set_proc, free_proc}
use ov.Proc.Ops.{
  is_child_of, reparent, exited, exit, exit_with, unwrapped, process, WaitStop, reaped, wait_loop,
  is_state,
}
use ov.Proc.Tables.{IsTable}
use ov.Proc.Calls.{exit-IsTable}
use ov.Proc.Wait.{IsWaited, Stops}
use ov.Proc.Waits.{wait_loop_lem}

exit_with_lem :
    (is_init : Bool) (private : Option ProcPrivateData) (after t' : Table)
    → exit_with is_init private after ≡ some t'
    → after ≡ t'
exit_with_lem true private after t' e = absurd (none_ne e)
  where
    none_ne : none ≡ some t' → ⊥
    none_ne e = cc e
exit_with_lem false none after t' e = absurd (none_ne e)
  where
    none_ne : none ≡ some t' → ⊥
    none_ne e = cc e
exit_with_lem false (some d) after t' e = by_cwd d.cwd e
  where
    by_cwd : (cwd : Option ℕ) → unwrapped cwd after ≡ some t' → after ≡ t'
    by_cwd none e = absurd (none_ne e)
      where
        none_ne : none ≡ some t' → ⊥
        none_ne e = cc e
    by_cwd (some dir) e = cc e

-- The process that ends, where it is not its own parent.
exit_lem :
    (t t' : Table) (p c : ℕ) (status : ℤ)
    → p ≢ c
    → (t.procs c).parent ≡ some p
    → exit c status t ≡ some t'
    → t'.procs c ≡ exited status (t.procs c)
unfolding exit reparent
exit_lem t t' p c status ne parent e =
    let u = reparent c t.init_proc t in
    let after =
      exit_with_lem (c == t.init_proc) (t.procs c).private
        (set_proc c (exited status (u.procs c)) u) t' e in
    ap (λ v. v.procs c) (sym after)
    ∙ put_self u.procs c (exited status (u.procs c))
    ∙ ap (exited status) kept
  where
    other : is_child_of (t.procs c) c ≡ false
    other = rw (is_child_of, parent) (==_ne p c ne)

    kept : (reparent c t.init_proc t).procs c ≡ t.procs c
    kept = rw other refl

abbrev reaping : ℕ → ℤ → ℕ → Table → WaitStop × Table
reaping pid status i t = (reaped pid status, set_proc i (free_proc (t.procs i)) t)

-- In a table of which the invariant of the steps holds, a running process that ends is what its
-- parent, another process, gets when it then waits for its ID: `wait` returns the ID and the
-- status, and frees the place.
pub exit-wait :
    (t t' : Table) (p c pid : ℕ) (status : ℤ)
    → IsTable t
    → c < nproc
    → p ≢ c
    → (t.procs c).pid ≡ some pid
    → (t.procs c).parent ≡ some p
    → is_state running (t.procs c).state ≡ true
    → exit c status t ≡ some t'
    → wait_loop nproc 0 false p (process pid) t'
      ≡ (reaped pid status, set_proc c (free_proc (t'.procs c)) t')
exit-wait t t' p c pid status tab small ne id parent run e =
    by_stop (wait_loop_lem p (process pid) t' tab')
  where
    tab' : IsTable t'
    tab' = exit-IsTable t t' c status run e tab

    at_c : t'.procs c ≡ exited status (t.procs c)
    at_c = exit_lem t t' p c status ne parent e

    waited : IsWaited p (process pid) t' c pid
    waited = record {
      child = rw (at_c, is_child_of, parent) (==_refl p);
      id = ap (λ r. r.pid) at_c ∙ id;
      matches = refl;
    }

    zombie_now : (t'.procs c).state ≡ zombie status
    zombie_now = ap (λ r. r.state) at_c

    zombie_inj : (st : ℤ) → zombie st ≡ zombie status → st ≡ status
    zombie_inj st q = cc q

    by_stop :
        Stops 0 nproc p (process pid) t' false (wait_loop nproc 0 false p (process pid) t')
        → wait_loop nproc 0 false p (process pid) t'
          ≡ (reaped pid status, set_proc c (free_proc (t'.procs c)) t')
    by_stop (inl s) =
        let same_place : s.place ≡ c =
          tab'.distinct s.place c pid (s.waited.id ∙ ap some s.waited.matches) waited.id in
        let same_status : s.status ≡ status =
          zombie_inj s.status
            (sym s.ended ∙ ap (λ k. (t'.procs k).state) same_place ∙ zombie_now) in
        s.result
        ∙ ap (λ k. reaping k s.status s.place t') s.waited.matches
        ∙ ap (λ k. reaping pid k s.place t') same_status
        ∙ ap (λ k. reaping pid status k t') same_place
    by_stop (inr (inl s)) = absurd (s.none_ended c pid status (omega arith) small waited zombie_now)
    by_stop (inr (inr s)) = absurd (s.no_child c pid (omega arith) small waited)
