-- ===== src/Memory/Table/Path.antt =====
-- What a change of one entry does to the lookups.
use ov.Prelude.{
  ℕ, zero, suc, ◌≤◌, ◌≡◌, refl, subst, sym, ap, ◌∙◌, ◌≢◌, ◌⊎◌, inl, inr, false, arith, put,
  put_self, put_ne, ==_refl, ==_ne, Bool-cases,
}
use ov.Prelude.{ℕ_discrete}
use ov.Memory.{◌>>=◌, Outcome, ok, err, panicked}
use ov.Memory.Addr.{level_idx}
use ov.Memory.Entry.{is_valid}
use ov.Memory.Pages.{Heap, alloc_table}
use ov.Memory.Table.{
  PtEntry, word, table, Entries, Changed, zeroed_entries, open_table, act_on, with_leaf, find_leaf,
}

-- The way to two addresses takes the same entries down to a level, or parts before.
abbrev pub Same : (top level va other : ℕ) → Type 0
Same zero level va other = level_idx 0 va ≡ level_idx 0 other
Same (suc top) level va other =
    (level_idx (suc top) va ≡ level_idx (suc top) other)
    × ((suc top ≡ level) ⊎ ((suc top ≢ level) × Same top level va other))

abbrev pub Parts : (top level va other : ℕ) → Type 0
Parts zero level va other = level_idx 0 va ≢ level_idx 0 other
Parts (suc top) level va other =
    (level_idx (suc top) va ≢ level_idx (suc top) other)
    ⊎ ((level_idx (suc top) va ≡ level_idx (suc top) other)
        × (suc top ≢ level)
        × Parts top level va other)

-- What a call that may fail does to a lookup: `Q` when it succeeds, and nothing when it does not.
abbrev pub Effect :
    (Outcome (ℕ × ℕ) → Outcome (ℕ × ℕ) → Type 0)
    → Outcome (Unit {0})
    → Outcome (ℕ × ℕ)
    → Outcome (ℕ × ℕ)
    → Type 0
Effect Q (ok x) old new = Q old new
Effect Q (err e) old new = new ≡ old
Effect Q panicked old new = new ≡ old

abbrev pub Fails : Outcome (Unit {0}) → Type 0
Fails (ok x) = ⊥
Fails (err e) = Unit {0}
Fails panicked = Unit {0}

Fails-Effect :
    (Q : Outcome (ℕ × ℕ) → Outcome (ℕ × ℕ) → Type 0) (res : Outcome (Unit {0}))
    (v : Outcome (ℕ × ℕ))
    → Fails res
    → Effect Q res v v
Fails-Effect Q (ok x) v f = absurd f
Fails-Effect Q (err e) v f = refl
Fails-Effect Q panicked v f = refl

-- Below an entry, a lookup goes on in the table that is opened.
abbrev Opens : PtEntry → Entries → Type 0
Opens e below =
    (top other : ℕ)
    → find_leaf (suc top) other e ≡ find_leaf top other (below (level_idx top other))

zeroed-Opens : (w : ℕ) → is_valid w ≡ false → Opens (word w) zeroed_entries
unfolding find_leaf
zeroed-Opens w h top other = rw h refl

table-Opens : (pa : ℕ) (es : Entries) → Opens (table pa es) es
unfolding find_leaf
table-Opens pa es top other = refl

abbrev Opened : PtEntry → Outcome (ℕ × Entries) → Type 0
Opened e (ok (pa, below)) = Opens e below
Opened e (err k) = Unit {0}
Opened e panicked = Unit {0}

open_table_lem : (e : PtEntry) (h : Heap) → Opened e (open_table e h).0
unfolding open_table
open_table_lem (table pa es) h = table-Opens pa es
open_table_lem (word w) h = elim (Bool-cases (is_valid w)) [
  | inl valid ↦ rw valid tt
  | inr invalid ↦ rw invalid (made (alloc_table h).0 invalid)
]
  where
    made :
        (o : Outcome ℕ) → is_valid w ≡ false → Opened (word w) (do pa ← o; ok (pa, zeroed_entries))
    made (ok pa) i = zeroed-Opens w i
    made (err k) i = tt
    made panicked i = tt

-- A round of `with_leaf` goes on in a table, or fails and leaves the entries as they are.
with_leaf_cases :
    (top level va : ℕ) (act : PtEntry → Heap → Changed PtEntry) (es : Entries) (h : Heap)
    → suc top ≢ level
    → let i = level_idx (suc top) va in
      ((pa : ℕ) × (below : Entries) × (h' : Heap) × (let r = with_leaf top level va act below h' in
          with_leaf (suc top) level va act es h ≡ (r.0, put es i (table pa r.1), r.2))
        × Opens (es i) below)
      ⊎ ((res : Outcome (Unit {0})) × (h' : Heap) × (with_leaf (suc top) level va act es h
            ≡ (res, es, h'))
          × Fails res)
unfolding with_leaf
with_leaf_cases top level va act es h ne =
    rw (with_leaf, ==_ne (suc top) level ne)
      (go (open_table (es (level_idx (suc top) va)) h)
        (open_table_lem (es (level_idx (suc top) va)) h))
  where
    go :
        (o : Outcome (ℕ × Entries) × Heap)
        → Opened (es (level_idx (suc top) va)) o.0
        → let i = level_idx (suc top) va in
          let whole = elim o.0 as (λ x. Changed Entries) [
            | ok (pa, below) ↦
                let r = with_leaf top level va act below o.1 in (r.0, put es i (table pa r.1), r.2)
            | err e ↦ (err e, es, o.1)
            | panicked ↦ (panicked, es, o.1)
          ] in
          ((pa : ℕ) × (below : Entries) × (h' : Heap) × (let r =
                with_leaf top level va act below h' in
              whole ≡ (r.0, put es i (table pa r.1), r.2))
            × Opens (es i) below)
          ⊎ ((res : Outcome (Unit {0})) × (h' : Heap) × (whole ≡ (res, es, h')) × Fails res)
    go (ok (pa, below), h') opens = inl (pa, below, h', refl, opens)
    go (err k, h') _ = inr (err k, h', refl, tt)
    go (panicked, h') _ = inr (panicked, h', refl, tt)

with_leaf_here :
    (top level va : ℕ) (act : PtEntry → Heap → Changed PtEntry) (es : Entries) (h : Heap)
    → suc top ≡ level
    → with_leaf (suc top) level va act es h ≡ act_on (level_idx (suc top) va) act es h
unfolding with_leaf
with_leaf_here top level va act es h e = rw (sym e, with_leaf, ==_refl (suc top)) refl

put_same : (es : Entries) (i : ℕ) (e : PtEntry) (j : ℕ) → i ≡ j → put es i e j ≡ e
put_same es i e j h = rw (sym h) (put_self es i e)

-- What a lookup finds below the entry at `i`, before and after its table is put there.
through :
    (top other i pa : ℕ) (es below below' : Entries)
    → i ≡ level_idx (suc top) other
    → Opens (es i) below
    → (find_leaf (suc top) other (es (level_idx (suc top) other))
        ≡ find_leaf top other (below (level_idx top other)))
      × (find_leaf (suc top) other (put es i (table pa below') (level_idx (suc top) other))
          ≡ find_leaf top other (below' (level_idx top other)))
through top other i pa es below below' same opens = (
  ap (λ j. find_leaf (suc top) other (es j)) (sym same) ∙ opens top other,
  ap (find_leaf (suc top) other) (put_same es i (table pa below') (level_idx (suc top) other) same)
      ∙ table-Opens pa below' top other,
)

act_on-Same :
    (Q : Outcome (ℕ × ℕ) → Outcome (ℕ × ℕ) → Type 0) (level va other : ℕ)
    (act : PtEntry → Heap → Changed PtEntry) (es : Entries) (h : Heap)
    → ((e : PtEntry) (h : Heap)
        → let r = act e h in Effect Q r.0 (find_leaf level other e) (find_leaf level other r.1))
    → level_idx level va ≡ level_idx level other
    → let r = act_on (level_idx level va) act es h in
      Effect Q r.0
        (find_leaf level other (es (level_idx level other)))
        (find_leaf level other (r.1 (level_idx level other)))
act_on-Same Q level va other act es h acts same =
    rw
      (
        put_same es (level_idx level va) (act (es (level_idx level va)) h).1 (level_idx level other)
            same,
        sym same,
      )
      (acts (es (level_idx level va)) h)

with_leaf-zero :
    (level va : ℕ) (act : PtEntry → Heap → Changed PtEntry) (es : Entries) (h : Heap)
    → with_leaf zero level va act es h ≡ act_on (level_idx 0 va) act es h
unfolding with_leaf
with_leaf-zero level va act es h = refl

-- A lookup that parts from the way to the entry is not changed.
pub with_leaf-Parts :
    (top level va other : ℕ) (act : PtEntry → Heap → Changed PtEntry) (es : Entries) (h : Heap)
    → Parts top level va other
    → find_leaf top other ((with_leaf top level va act es h).1 (level_idx top other))
      ≡ find_leaf top other (es (level_idx top other))
with_leaf-Parts zero level va other act es h p = rw (with_leaf-zero level va act es h) (
    ap (find_leaf 0 other)
      (put_ne es (level_idx 0 va) (act (es (level_idx 0 va)) h).1 (level_idx 0 other) p))
with_leaf-Parts (suc top) level va other act es h (inl ne) = elim (ℕ_discrete (suc top) level) [
  | yes e ↦ rw (with_leaf_here top level va act es h e) (
      ap (find_leaf (suc top) other) (
        put_ne es (level_idx (suc top) va) (act (es (level_idx (suc top) va)) h).1
          (level_idx (suc top) other) ne))
  | no n ↦ elim (with_leaf_cases top level va act es h n) [
    | inl (pa, below, h', e, opens) ↦ rw e (
        ap (find_leaf (suc top) other) (
          put_ne es (level_idx (suc top) va) (table pa (with_leaf top level va act below h').1)
            (level_idx (suc top) other) ne))
    | inr (res, h', e, f) ↦ rw e refl
  ]
]
with_leaf-Parts (suc top) level va other act es h (inr (same, n, p)) =
    elim (with_leaf_cases top level va act es h n) [
      | inl (pa, below, h', e, opens) ↦
          let r = with_leaf top level va act below h' in
          let (old, new) = through top other (level_idx (suc top) va) pa es below r.1 same opens in
          rw (e, old, new) (with_leaf-Parts top level va other act below h' p)
      | inr (res, h', e, f) ↦ rw e refl
    ]

-- A lookup that takes the way to the entry changes as the lookup from the entry does.
pub with_leaf-Same :
    (Q : Outcome (ℕ × ℕ) → Outcome (ℕ × ℕ) → Type 0) (top level va other : ℕ)
    (act : PtEntry → Heap → Changed PtEntry) (es : Entries) (h : Heap)
    → ((e : PtEntry) (h : Heap)
        → let r = act e h in Effect Q r.0 (find_leaf level other e) (find_leaf level other r.1))
    → level ≤ top
    → Same top level va other
    → let r = with_leaf top level va act es h in
      Effect Q r.0
        (find_leaf top other (es (level_idx top other)))
        (find_leaf top other (r.1 (level_idx top other)))
with_leaf-Same Q zero level va other act es h acts le same =
    let e : zero ≡ level = omega arith in
    rw (with_leaf-zero level va act es h, e)
      (act_on-Same Q level va other act es h acts
        (subst (λ l. level_idx l va ≡ level_idx l other) e same))
with_leaf-Same Q (suc top) level va other act es h acts le (same, inl e) =
    rw (with_leaf_here top level va act es h e, e)
      (act_on-Same Q level va other act es h acts
        (subst (λ l. level_idx l va ≡ level_idx l other) e same))
with_leaf-Same Q (suc top) level va other act es h acts le (same, inr (n, p)) =
    elim (with_leaf_cases top level va act es h n) [
      | inl (pa, below, h', e, opens) ↦
          let r = with_leaf top level va act below h' in
          let (old, new) = through top other (level_idx (suc top) va) pa es below r.1 same opens in
          rw (e, old, new) (with_leaf-Same Q top level va other act below h' acts (omega arith) p)
      | inr (res, h', e, f) ↦ rw e (Fails-Effect Q res _ f)
    ]
