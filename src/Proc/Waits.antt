-- ===== src/Proc/Waits.antt =====
-- `wait` against what it is to do.
use ov.Prelude.{
  ℕ, zero, suc, ◌+◌, ◌≤◌, ◌<◌, ◌≡◌, refl, subst, sym, ap, ◌∙◌, ◌≢◌, ◌⊎◌, inl, inr, Bool, true,
  false, Option, none, some, arith, ◌==◌, ==→eq, Bool-cases,
}
use ov.Prelude.{ℕ_discrete}
use ov.Prelude.Int.{ℤ}
use ov.Proc.{ProcState, unused, used, sleeping, runnable, running, zombie, Proc, Table, nproc}
use ov.Proc.Ops.{
  is_child_of, WaitTarget, any_process, process, WaitStop, waits, reap, wait_round, wait_loop,
}
use ov.Proc.Tables.{IsProc, IsTable}
use ov.Proc.Wait.{IsWaited, Stops}

-- A place that no waited child holds is passed over.
skip_lem :
    (i rounds p : ℕ) (target : WaitTarget) (t : Table) (found : Bool) (r : WaitStop × Table)
    → ((pid : ℕ) → IsWaited p target t i pid → ⊥)
    → Stops (i + 1) (i + 1 + rounds) p target t found r
    → Stops i (i + suc rounds) p target t found r
skip_lem i rounds p target t found r nobody (inl s) = inl (record {
  place = s.place;
  pid = s.pid;
  status = s.status;
  from = omega (arith, s.from);
  to = omega (arith, s.to);
  waited = s.waited;
  ended = s.ended;
  result = s.result;
})
skip_lem i rounds p target t found r nobody (inr (inl s)) = inr (
    inl (record {
      some_child = children s.some_child;
      none_ended = λ j pid st lo hi w. ended j pid st lo hi w (ℕ_discrete i j);
      result = s.result;
    }))
  where
    children :
        (found ≡ true)
          ⊎ ((j : ℕ) × (pid : ℕ) × (i + 1 ≤ j) × (j < i + 1 + rounds) × IsWaited p target t j pid)
        → (found ≡ true)
          ⊎ ((j : ℕ) × (pid : ℕ) × (i ≤ j) × (j < i + suc rounds) × IsWaited p target t j pid)
    children (inl e) = inl e
    children (inr (j, pid, lo, hi, w)) = inr (j, pid, omega (arith, lo), omega (arith, hi), w)

    ended :
        (j pid : ℕ) (status : ℤ)
        → i ≤ j
        → j < i + suc rounds
        → IsWaited p target t j pid
        → Dec (i ≡ j)
        → (t.procs j).state ≢ zombie status
    ended j pid st lo hi w (yes e) z = nobody pid (subst (λ k. IsWaited p target t k pid) (sym e) w)
    ended j pid st lo hi w (no n) z =
        s.none_ended j pid st (omega (arith, n, lo)) (omega (arith, hi)) w z
skip_lem i rounds p target t found r nobody (inr (inr s)) = inr (
    inr (record {
      not_found = s.not_found;
      no_child = λ j pid lo hi w. none_at j pid lo hi w (ℕ_discrete i j);
      result = s.result;
    }))
  where
    none_at : (j pid : ℕ) → i ≤ j → j < i + suc rounds → IsWaited p target t j pid → Dec (i ≡ j) → ⊥
    none_at j pid lo hi w (yes e) = nobody pid (subst (λ k. IsWaited p target t k pid) (sym e) w)
    none_at j pid lo hi w (no n) = s.no_child j pid (omega (arith, n, lo)) (omega (arith, hi)) w

-- A waited child is freed if it is a zombie, and otherwise what `more` says must be right.
reap_lem :
    (i rounds p pid : ℕ) (target : WaitTarget) (t : Table) (found : Bool) (st : ProcState)
    (more : WaitStop × Table)
    → IsWaited p target t i pid
    → (t.procs i).state ≡ st
    → (((status : ℤ) → st ≢ zombie status) → Stops i (i + suc rounds) p target t found more)
    → Stops i (i + suc rounds) p target t found (reap i t st (some pid) more)
reap_lem i rounds p pid target t found (zombie status) more w e m = inl (record {
  place = i;
  pid = pid;
  status = status;
  from = omega arith;
  to = omega arith;
  waited = w;
  ended = e;
  result = refl;
})
reap_lem i rounds p pid target t found unused more w e m = m (λ s q. cc q)
reap_lem i rounds p pid target t found used more w e m = m (λ s q. cc q)
reap_lem i rounds p pid target t found (sleeping chan) more w e m = m (λ s q. cc q)
reap_lem i rounds p pid target t found runnable more w e m = m (λ s q. cc q)
reap_lem i rounds p pid target t found running more w e m = m (λ s q. cc q)

-- A waited child that is no zombie, before the places after it.
found_lem :
    (i rounds p pid : ℕ) (target : WaitTarget) (t : Table) (found : Bool) (r : WaitStop × Table)
    → IsTable t
    → IsWaited p target t i pid
    → ((status : ℤ) → (t.procs i).state ≢ zombie status)
    → Stops (i + 1) (i + 1 + rounds) p target t true r
    → Stops i (i + suc rounds) p target t found r
found_lem i rounds p pid target t found r tab w live (inl s) = inl (record {
  place = s.place;
  pid = s.pid;
  status = s.status;
  from = omega (arith, s.from);
  to = omega (arith, s.to);
  waited = s.waited;
  ended = s.ended;
  result = s.result;
})
found_lem i rounds p pid target t found r tab w live (inr (inl s)) = inr (
    inl (record {
      some_child = inr (i, pid, omega arith, omega arith, w);
      none_ended = λ j q st lo hi w'. ended j q st lo hi w' (ℕ_discrete i j);
      result = s.result;
    }))
  where
    ended :
        (j q : ℕ) (status : ℤ)
        → i ≤ j
        → j < i + suc rounds
        → IsWaited p target t j q
        → Dec (i ≡ j)
        → (t.procs j).state ≢ zombie status
    ended j q st lo hi w' (yes e) z = live st (ap (λ k. (t.procs k).state) e ∙ z)
    ended j q st lo hi w' (no n) z =
        s.none_ended j q st (omega (arith, n, lo)) (omega (arith, hi)) w' z
found_lem i rounds p pid target t found r tab w live (inr (inr s)) = absurd (true_ne s.not_found)
  where
    true_ne : true ≡ false → ⊥
    true_ne e = cc e

-- The only process with an ID is waited for.
only_lem :
    (i rounds p pid target : ℕ) (t : Table) (found : Bool)
    → IsTable t
    → IsWaited p (process target) t i pid
    → ((status : ℤ) → (t.procs i).state ≢ zombie status)
    → Stops i (i + suc rounds) p (process target) t found (waits, t)
only_lem i rounds p pid target t found tab w live = inr (
    inl (record {
      some_child = inr (i, pid, omega arith, omega arith, w);
      none_ended = λ j q st lo hi w' z. live st (ap (λ k. (t.procs k).state) (same j q w') ∙ z);
      result = refl;
    }))
  where
    same : (j q : ℕ) → IsWaited p (process target) t j q → i ≡ j
    same j q w' = tab.distinct i j target (w.id ∙ ap some w.matches) (w'.id ∙ ap some w'.matches)

some_pid : (p : Proc) (q r : ℕ) → p.pid ≡ some q → p.pid ≡ some r → q ≡ r
some_pid p q r e e' = cc (sym e ∙ e')

wait_round_lem :
    (i rounds p : ℕ) (target : WaitTarget) (t : Table) (found child : Bool) (pid : Option ℕ)
    (skip more : WaitStop × Table)
    → IsTable t
    → is_child_of (t.procs i) p ≡ child
    → (t.procs i).pid ≡ pid
    → Stops (i + 1) (i + 1 + rounds) p target t found skip
    → Stops (i + 1) (i + 1 + rounds) p target t true more
    → Stops i (i + suc rounds) p target t found (wait_round i t child target pid skip more)
wait_round_lem i rounds p target t found false pid skip more tab c e s m =
    skip_lem i rounds p target t found skip (λ q w. true_ne (sym w.child ∙ c)) s
  where
    true_ne : true ≡ false → ⊥
    true_ne e = cc e
wait_round_lem i rounds p target t found true none skip more tab c e s m =
    absurd (childless (tab.each i))
  where
    childless : IsProc t.next_pid (t.procs i) → ⊥
    childless (inl (_, _, no_parent)) = false_ne (sym (rw (is_child_of, no_parent) refl) ∙ c)
      where
        false_ne : false ≡ true → ⊥
        false_ne e = cc e
    childless (inr (q, id, _, _, _)) = none_ne (sym e ∙ id)
      where
        none_ne : {q : ℕ} → none ≡ some q → ⊥
        none_ne e = cc e
wait_round_lem i rounds p any_process t found true (some q) skip more tab c e s m =
    let w : IsWaited p any_process t i q = record { child = c; id = e; matches = tt } in
    reap_lem i rounds p q any_process t found (t.procs i).state more w refl
      (λ live. found_lem i rounds p q any_process t found more tab w live m)
wait_round_lem i rounds p (process target) t found true (some q) skip more tab c e s m =
    elim (Bool-cases (q == target)) [
      | inl same ↦
          let w : IsWaited p (process target) t i q = record {
            child = c;
            id = e;
            matches = ==→eq q target same;
          } in
          rw same (
            reap_lem i rounds p q (process target) t found (t.procs i).state (waits, t) w refl
              (λ live. only_lem i rounds p q target t found tab w live))
      | inr other ↦ rw other (
          skip_lem i rounds p (process target) t found skip
            (λ r w. differ (some_pid (t.procs i) q r e w.id ∙ w.matches) other) s)
    ]
  where
    differ : q ≡ target → (q == target) ≡ false → ⊥
    differ same other = ground (arith, same, other)

wait_loop-Stops :
    (rounds i p : ℕ) (found : Bool) (target : WaitTarget) (t : Table)
    → IsTable t
    → Stops i (i + rounds) p target t found (wait_loop rounds i found p target t)
unfolding wait_loop
wait_loop-Stops zero i p true target t tab = inr (
    inl (record {
      some_child = inl refl;
      none_ended = λ j q st lo hi. absurd (omega (arith, lo, hi));
      result = refl;
    }))
wait_loop-Stops zero i p false target t tab = inr (
    inr (record {
      not_found = refl;
      no_child = λ j q lo hi. absurd (omega (arith, lo, hi));
      result = refl;
    }))
wait_loop-Stops (suc rounds) i p found target t tab =
    wait_round_lem i rounds p target t found (is_child_of (t.procs i) p) (t.procs i).pid
      (wait_loop rounds (i + 1) found p target t) (wait_loop rounds (i + 1) true p target t) tab
      refl refl (wait_loop-Stops rounds (i + 1) p found target t tab)
      (wait_loop-Stops rounds (i + 1) p true target t tab)

-- In a table of which the invariant of the steps holds, the loop of `wait` never panics. It frees a
-- zombie that is a child and is asked for, and returns its ID and status, if there is one; it waits
-- if there is such a child, but none that is a zombie; it fails if there is none. It changes
-- nothing else.
pub wait_loop_lem :
    (p : ℕ) (target : WaitTarget) (t : Table)
    → IsTable t
    → Stops 0 nproc p target t false (wait_loop nproc 0 false p target t)
wait_loop_lem p target t tab = wait_loop-Stops nproc 0 p false target t tab
