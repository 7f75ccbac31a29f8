-- ===== src/Proc/Forks.antt =====
-- A process that is made and one that ends, across calls.
use ov.Prelude.{
  ℕ, zero, suc, ◌+◌, ◌%◌, ◌^◌, ◌<◌, ◌≡◌, refl, subst, sym, ap, ◌∙◌, inl, inr, true, false, Option,
  none, some, List, arith, put_self, put_ne, ==_ne, Bool-cases,
}
use ov.Prelude.{ℕ_discrete}
use ov.Proc.{
  used, ProcPrivateData, Proc, Table, ok, no_memory, panicked, nproc, is_unused, lock_unused_proc,
  set_proc, free_proc, new_private, init_private, allocate, then_fork, fork_new,
}

-- The first free place depends on which places are unused.
pub lock_unused_proc_ext :
    (rounds i : ℕ) (t t' : Table)
    → ((j : ℕ) → is_unused (t'.procs j).state ≡ is_unused (t.procs j).state)
    → lock_unused_proc rounds i t' ≡ lock_unused_proc rounds i t
unfolding lock_unused_proc
lock_unused_proc_ext zero i t t' same = refl
lock_unused_proc_ext (suc rounds) i t t' same =
    rw (lock_unused_proc, same i, lock_unused_proc_ext rounds (i + 1) t t' same) refl

pub lock_unused_proc_lem :
    (rounds i j : ℕ) (t : Table)
    → lock_unused_proc rounds i t ≡ some j
    → is_unused (t.procs j).state ≡ true
unfolding lock_unused_proc
lock_unused_proc_lem zero i j t e = absurd (none_ne e)
  where
    none_ne : none ≡ some j → ⊥
    none_ne e = cc e
lock_unused_proc_lem (suc rounds) i j t e = elim (Bool-cases (is_unused (t.procs i).state)) [
  | inr busy ↦ lock_unused_proc_lem rounds (i + 1) j t (sym (rw (lock_unused_proc, busy) refl) ∙ e)
  | inl free ↦
      let here : some i ≡ some j = sym (rw (lock_unused_proc, free) refl) ∙ e in
      subst (λ k. is_unused (t.procs k).state ≡ true) (cc here) free
]

pub init_private-none :
    (i pid : ℕ) (p : Proc) (o : Option ProcPrivateData) (t : Table)
    → o ≡ none
    → init_private i pid p o t
      ≡ (ok i, set_proc i (record p { private = some (new_private pid) }) t)
init_private-none i pid p o t e = ap (λ o. init_private i pid p o t) e

pub init_private-some :
    (i pid : ℕ) (p : Proc) (o : Option ProcPrivateData) (d : ProcPrivateData) (t : Table)
    → o ≡ some d
    → (init_private i pid p o t).0 ≡ panicked
init_private-some i pid p o d t e = ap (λ o. (init_private i pid p o t).0) e

-- `allocate` comes to `init_private`.
pub allocate_lem :
    (t : Table) (i : ℕ)
    → lock_unused_proc nproc 0 t ≡ some i
    → 0 < t.next_pid
    → allocate true t
      ≡ init_private i t.next_pid
          (record (t.procs i) { pid = some t.next_pid; state = used })
          (t.procs i).private
          (record t { next_pid = (t.next_pid + 1) % 2 ^ 32 })
unfolding allocate
allocate_lem t i e pos = rw (allocate, e, ==_ne t.next_pid 0 (λ z. omega (arith, z, pos))) refl

-- The process that `allocate` makes, and the table with it.
abbrev pub made_proc : ℕ → Table → Proc
made_proc i t = record (t.procs i) {
  pid = some t.next_pid;
  state = used;
  private = some (new_private t.next_pid);
}

abbrev pub made : ℕ → Table → Table
made i t = set_proc i (made_proc i t) (record t { next_pid = (t.next_pid + 1) % 2 ^ 32 })

-- The table after a fork whose memory could not be cloned.
abbrev pub after_failure : ℕ → Table → Table
after_failure i t = set_proc i (free_proc ((made i t).procs i)) (made i t)

pub fork_new-fails :
    (t : Table) (i : ℕ) (private : ProcPrivateData) (name : List ℕ)
    → lock_unused_proc nproc 0 t ≡ some i
    → 0 < t.next_pid
    → (t.procs i).private ≡ none
    → fork_new true false private name t ≡ (no_memory, after_failure i t)
unfolding fork_new
fork_new-fails t i private name e pos fresh = ap (then_fork false private name) (
    allocate_lem t i e pos
    ∙ init_private-none i t.next_pid (record (t.procs i) { pid = some t.next_pid; state = used })
        (t.procs i).private (record t { next_pid = (t.next_pid + 1) % 2 ^ 32 }) fresh)

-- When the memory of the parent cannot be cloned, `fork` fails, and the next `allocate`, if there is
-- memory for the new process, panics: the place that was given back is the first free one again, and
-- it still holds the private data. There is a free place, which had none before, and the counter of
-- process IDs is not at its end.
pub fork_new-allocate :
    (t : Table) (i : ℕ) (private : ProcPrivateData) (name : List ℕ)
    → lock_unused_proc nproc 0 t ≡ some i
    → 0 < t.next_pid
    → t.next_pid + 1 < 2 ^ 32
    → (t.procs i).private ≡ none
    → let r = fork_new true false private name t in
      (r.0 ≡ no_memory) × ((allocate true r.1).0 ≡ panicked)
fork_new-allocate t i private name e pos b fresh =
    let failed = fork_new-fails t i private name e pos fresh in
    (ap (λ r. r.0) failed, ap (λ r. (allocate true r.1).0) failed ∙ again)
  where
    u : Table
    u = after_failure i t

    at_place : u.procs i ≡ free_proc (made_proc i t)
    at_place =
        put_self (made i t).procs i (free_proc ((made i t).procs i))
        ∙ ap free_proc (put_self t.procs i (made_proc i t))

    same : (j : ℕ) → Dec (i ≡ j) → is_unused (u.procs j).state ≡ is_unused (t.procs j).state
    same j (yes q) =
        subst (λ j. is_unused (u.procs j).state ≡ is_unused (t.procs j).state) q
          (ap (λ p. is_unused p.state) at_place ∙ sym (lock_unused_proc_lem nproc 0 i t e))
    same j (no n) =
        ap (λ p. is_unused p.state)
          (put_ne (made i t).procs i (free_proc ((made i t).procs i)) j n
            ∙ put_ne t.procs i (made_proc i t) j n)

    again : (allocate true u).0 ≡ panicked
    again =
        ap (λ r. r.0)
          (allocate_lem u i (lock_unused_proc_ext nproc 0 t u (λ j. same j (ℕ_discrete i j)) ∙ e)
            (omega (arith, b)))
        ∙ init_private-some i u.next_pid
            (record (u.procs i) { pid = some u.next_pid; state = used }) (u.procs i).private
            (new_private t.next_pid) (record u { next_pid = (u.next_pid + 1) % 2 ^ 32 })
            (ap (λ p. p.private) at_place)
