-- ===== src/Proc/NewProcs.antt =====
-- So does making a process.
use ov.Prelude.{
  ℕ, ◌+◌, ◌%◌, ◌^◌, ◌<◌, ◌≡◌, refl, sym, ◌∙◌, inl, inr, Bool, true, false, not, Option, none, some,
  List, arith, if◌then◌else◌, ==_ne, Option-cases,
}
use ov.Proc.{
  used, ProcPrivateData, Proc, Table, Result, ok, no_free_proc, no_memory, panicked, nproc,
  is_unused, lock_unused_proc, set_proc, free_proc, new_private, init_private, allocate_at,
  allocate, inherit, then_fork, fork_new,
}
use ov.Proc.Tables.{set_proc-IsTable, some_ne, free-IsTable, keep-IsTable, IsTable}

-- The counter goes on.
pub next-IsTable :
    (t : Table)
    → t.next_pid + 1 < 2 ^ 32
    → IsTable t
    → IsTable (record t { next_pid = (t.next_pid + 1) % 2 ^ 32 })
next-IsTable t b w = record {
  each = λ i. elim (w.each i) [
    | inl nothing ↦ inl nothing
    | inr (q, e, u, lo, hi) ↦ inr (q, e, u, lo, omega (arith, hi))
  ];
  distinct = w.distinct;
  counting = omega arith;
}

-- A process with the ID that the counter has given.
pub new-IsTable :
    (t : Table) (i : ℕ) (p : Proc)
    → t.next_pid + 1 < 2 ^ 32
    → p.pid ≡ some t.next_pid
    → is_unused p.state ≡ false
    → IsTable t
    → IsTable (set_proc i p (record t { next_pid = (t.next_pid + 1) % 2 ^ 32 }))
new-IsTable t i p b e u w =
    set_proc-IsTable (record t { next_pid = (t.next_pid + 1) % 2 ^ 32 }) i p
      (
        inr (t.next_pid, e, u, w.counting, omega arith),
        λ q j e' ne e''. fresh q j (cc (sym e ∙ e')) e'',
      )
      (next-IsTable t b w)
  where
    fresh : (q j : ℕ) → t.next_pid ≡ q → (t.procs j).pid ≡ some q → ⊥
    fresh q j same e' = elim (w.each j) [
      | inl (n, _, _) ↦ some_ne (sym n ∙ e')
      | inr (q', e'', _, lo, hi) ↦
          let both : q' ≡ q = cc (sym e'' ∙ e') in omega (arith, both, same, hi)
    ]

pub init_private-IsTable :
    (t : Table) (i : ℕ) (p : Proc) (private : Option ProcPrivateData)
    → t.next_pid + 1 < 2 ^ 32
    → p.pid ≡ some t.next_pid
    → is_unused p.state ≡ false
    → IsTable t
    → IsTable
        (init_private i t.next_pid p private (record t { next_pid = (t.next_pid + 1) % 2 ^ 32 })).1
init_private-IsTable t i p none b e u w =
    new-IsTable t i (record p { private = some (new_private t.next_pid) }) b e u w
init_private-IsTable t i p (some d) b e u w = new-IsTable t i p b e u w

pub allocate_at-IsTable :
    (t : Table) (i : ℕ) (has_memory : Bool)
    → t.next_pid + 1 < 2 ^ 32
    → IsTable t
    → IsTable (allocate_at has_memory i t).1
allocate_at-IsTable t i has_memory b w =
    rw (allocate_at, ==_ne t.next_pid 0 (λ z. omega (arith, z, w.counting))) (by_memory has_memory)
  where
    p : Proc
    p = record (t.procs i) { pid = some t.next_pid; state = used }

    t' : Table
    t' = record t { next_pid = (t.next_pid + 1) % 2 ^ 32 }

    by_memory :
        (has_memory : Bool)
        → IsTable
            (if not has_memory
              then (no_memory, set_proc i (free_proc p) t')
              else init_private i t.next_pid p p.private t').1
    by_memory true = init_private-IsTable t i p p.private b refl refl w
    by_memory false = free-IsTable t' i p (next-IsTable t b w)

pub allocate-IsTable :
    (t : Table) (has_memory : Bool)
    → t.next_pid + 1 < 2 ^ 32
    → IsTable t
    → IsTable (allocate has_memory t).1
unfolding allocate
allocate-IsTable t has_memory b w = elim (Option-cases (lock_unused_proc nproc 0 t)) [
  | inl full ↦ rw (allocate, full) w
  | inr (i, e) ↦ rw (allocate, e) (allocate_at-IsTable t i has_memory b w)
]

pub fork_at-IsTable :
    (cloned : Bool) (private : ProcPrivateData) (name : List ℕ) (r : Result ℕ × Table)
    → IsTable r.1
    → IsTable (then_fork cloned private name r).1
fork_at-IsTable true private name (ok i, t) w =
    keep-IsTable t i
      (record (t.procs i) { private = inherit private (t.procs i).private; name = name })
      (refl, refl, λ n _. n) w
fork_at-IsTable false private name (ok i, t) w = free-IsTable t i (t.procs i) w
fork_at-IsTable cloned private name (no_free_proc, t) w = w
fork_at-IsTable cloned private name (no_memory, t) w = w
fork_at-IsTable cloned private name (panicked, t) w = w

pub fork-IsTable :
    (t : Table) (has_memory cloned : Bool) (private : ProcPrivateData) (name : List ℕ)
    → t.next_pid + 1 < 2 ^ 32
    → IsTable t
    → IsTable (fork_new has_memory cloned private name t).1
unfolding fork_new
fork-IsTable t has_memory cloned private name b w =
    fork_at-IsTable cloned private name (allocate has_memory t) (allocate-IsTable t has_memory b w)
