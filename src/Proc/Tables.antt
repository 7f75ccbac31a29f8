-- ===== src/Proc/Tables.antt =====
-- What holds of the process table, and the changes that keep it.
use ov.Prelude.{
  ℕ, ◌<◌, ◌≡◌, refl, subst, sym, ap, ◌∙◌, ◌≢◌, ◌⊎◌, inl, inr, true, false, Option, none, some, put,
  put_self, put_ne, if◌then◌else◌, Bool-cases,
}
use ov.Prelude.{ℕ_discrete}
use ov.Proc.{
  ProcState, unused, used, sleeping, runnable, running, zombie, Proc, Table, is_unused, set_proc,
  free_proc, set_parent, set_state,
}
use ov.Proc.Ops.{is_child_of, reparent, is_state}

-- A place is unused if and only if it has no process ID, and then it has no parent.
abbrev pub IsProc : ℕ → Proc → Type 0
IsProc next p =
    ((p.pid ≡ none) × (is_unused p.state ≡ true) × (p.parent ≡ none))
    ⊎ ((q : ℕ) × (p.pid ≡ some q) × (is_unused p.state ≡ false) × (0 < q) × (q < next))

pub record IsTable (t : Table) : Type 0 where
  pub each : (i : ℕ) → IsProc t.next_pid (t.procs i)
  pub distinct : (i j q : ℕ) → (t.procs i).pid ≡ some q → (t.procs j).pid ≡ some q → i ≡ j
  pub counting : 0 < t.next_pid

-- A process that keeps its ID, and is unused only if it was.
abbrev pub Keeps : Proc → Proc → Type 0
Keeps p p' =
    (p'.pid ≡ p.pid)
    × (is_unused p'.state ≡ is_unused p.state)
    × (p.parent ≡ none → p'.pid ≡ none → p'.parent ≡ none)

pub Keeps-IsProc : (next : ℕ) (p p' : Proc) → Keeps p p' → IsProc next p → IsProc next p'
Keeps-IsProc next p p' (id, st, par) (inl (n, u, no_parent)) =
    inl (id ∙ n, st ∙ u, par no_parent (id ∙ n))
Keeps-IsProc next p p' (id, st, par) (inr (q, e, u, lo, hi)) = inr (q, id ∙ e, st ∙ u, lo, hi)

-- A change of each process that keeps it.
pub each-IsTable :
    (t t' : Table)
    → ((i : ℕ) → Keeps (t.procs i) (t'.procs i))
    → t'.next_pid ≡ t.next_pid
    → IsTable t
    → IsTable t'
each-IsTable t t' keeps e w = record {
  each = λ i. rw e (Keeps-IsProc t.next_pid (t.procs i) (t'.procs i) (keeps i) (w.each i));
  distinct = λ i j q a b. w.distinct i j q (sym ((keeps i).0) ∙ a) (sym ((keeps j).0) ∙ b);
  counting = rw e w.counting;
}

-- A process that is set at a place.
abbrev pub IsFitting : Table → ℕ → Proc → Type 0
IsFitting t i p =
    IsProc t.next_pid p × ((q : ℕ) (j : ℕ) → p.pid ≡ some q → i ≢ j → (t.procs j).pid ≢ some q)

pub set_proc-IsTable :
    (t : Table) (i : ℕ) (p : Proc) → IsFitting t i p → IsTable t → IsTable (set_proc i p t)
set_proc-IsTable t i p (ok_p, fresh) w = record {
  each = λ j. each j (ℕ_discrete i j);
  distinct = λ a b q. distinct a b q (ℕ_discrete i a) (ℕ_discrete i b);
  counting = w.counting;
}
  where
    here : (j : ℕ) → i ≡ j → put t.procs i p j ≡ p
    here j e = rw (sym e) (put_self t.procs i p)

    old : (j q : ℕ) → i ≢ j → (put t.procs i p j).pid ≡ some q → (t.procs j).pid ≡ some q
    old j q n x = ap (λ r. r.pid) (sym (put_ne t.procs i p j n)) ∙ x

    each : (j : ℕ) → Dec (i ≡ j) → IsProc t.next_pid (put t.procs i p j)
    each j (yes e) = subst (IsProc t.next_pid) (sym (here j e)) ok_p
    each j (no n) = rw (put_ne t.procs i p j n) (w.each j)

    distinct :
        (a b q : ℕ)
        → Dec (i ≡ a)
        → Dec (i ≡ b)
        → (put t.procs i p a).pid ≡ some q
        → (put t.procs i p b).pid ≡ some q
        → a ≡ b
    distinct a b q (yes e) (yes e') x y = sym e ∙ e'
    distinct a b q (yes e) (no n) x y =
        absurd (fresh q b (ap (λ r. r.pid) (sym (here a e)) ∙ x) n (old b q n y))
    distinct a b q (no n) (yes e) x y =
        absurd (fresh q a (ap (λ r. r.pid) (sym (here b e)) ∙ y) n (old a q n x))
    distinct a b q (no n) (no n') x y = w.distinct a b q (old a q n x) (old b q n' y)

pub some_ne : {A B : Type 0} {x : A} → ◌≡◌ {A = Option A} none (some x) → B
some_ne e = absurd (cc e)

pub free-IsTable : (t : Table) (i : ℕ) (p : Proc) → IsTable t → IsTable (set_proc i (free_proc p) t)
free-IsTable t i p w =
    set_proc-IsTable t i (free_proc p) (inl (refl, refl, refl), λ q j e. some_ne e) w

pub keep-IsTable :
    (t : Table) (i : ℕ) (p : Proc) → Keeps (t.procs i) p → IsTable t → IsTable (set_proc i p t)
keep-IsTable t i p k w =
    set_proc-IsTable t i p
      (
        Keeps-IsProc t.next_pid (t.procs i) p k (w.each i),
        λ q j e ne e'. ne (w.distinct i j q (sym k.0 ∙ e) e'),
      )
      w

-- A state that is not unused.
pub live_state : (st st' : ProcState) → is_state st st' ≡ true → is_unused st' ≡ false
live_state st used e = refl
live_state st (sleeping chan) e = refl
live_state st runnable e = refl
live_state st running e = refl
live_state st (zombie status) e = refl
live_state unused unused e = absurd (cc e)
live_state used unused e = absurd (cc e)
live_state (sleeping chan) unused e = absurd (cc e)
live_state runnable unused e = absurd (cc e)
live_state running unused e = absurd (cc e)
live_state (zombie status) unused e = absurd (cc e)

pub state-IsTable :
    (t : Table) (i : ℕ) (st : ProcState)
    → is_unused (t.procs i).state ≡ is_unused st
    → IsTable t
    → IsTable (set_state i st t)
state-IsTable t i st e w =
    keep-IsTable t i (record (t.procs i) { state = st }) (refl, sym e, λ n _. n) w

pub link-IsTable :
    (t : Table) (i p : ℕ)
    → is_unused (t.procs i).state ≡ false
    → IsTable t
    → IsTable (set_parent i p t)
link-IsTable t i p e w = elim (w.each i) [
  | inl (n, u, _) ↦ absurd (cc (sym u ∙ e))
  | inr (q, id, u, lo, hi) ↦
      set_proc-IsTable t i (record (t.procs i) { parent = some p })
        (inr (q, id, u, lo, hi), λ q' j e' ne e''. ne (w.distinct i j q' e' e'')) w
]

pub reparent-IsTable : (t : Table) (old new : ℕ) → IsTable t → IsTable (reparent old new t)
unfolding reparent
reparent-IsTable t old new w = each-IsTable t (reparent old new t) (λ i. keeps (t.procs i)) refl w
  where
    keeps : (p : Proc) → Keeps p (if is_child_of p old then record p { parent = some new } else p)
    keeps p = elim (Bool-cases (is_child_of p old)) [
      | inr other ↦ rw other (refl, refl, λ n _. n)
      | inl child ↦ rw child (refl, refl, λ n _. absurd (true_ne (sym child ∙ no_child n)))
    ]
      where
        true_ne : true ≡ false → ⊥
        true_ne e = cc e

        no_child : p.parent ≡ none → is_child_of p old ≡ false
        no_child n = rw n refl
