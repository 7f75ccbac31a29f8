-- ===== src/Log/Space.antt =====
-- The reservation of log space: file system operations as interleaved steps.
use ov.Prelude.{
  ℕ, suc, ◌+◌, ◌-◌, ◌*◌, ◌≤◌, ◌≡◌, refl, subst, sym, ap, ◌⊎◌, inl, inr, Option, none, some, List,
  [], ◌∷◌, ◌++◌, arith, length, length-append, All, done, ◌==◌, Bool-cases,
}
use ov.Log.{max_op_blocks, log_size, LogHeader}
use ov.Log.Tx.{LogData, try_begin, end_op_release, end_op_return, write}
use ov.Log.Recovery.{push_lem}

abbrev pub sum : List ℕ → ℕ
sum [] = 0
sum (n ∷ ns) = n + sum ns

-- The log, the writes that each operation under way has left, and the header that is being
-- committed.
pub record System : Type 0 where
  pub log : LogData
  pub budgets : List ℕ
  pub committing : Option LogHeader

pub data Step : System → System → Type 0 where
  begins :
      (s : System) (d : LogData)
      → try_begin s.log ≡ some d
      → Step s (record s { log = d; budgets = max_op_blocks ∷ s.budgets })
  writes :
      (d d' : LogData) (bn n : ℕ) (before after : List ℕ) (c : Option LogHeader)
      → write d bn ≡ done d'
      → Step
          (record { log = d; budgets = before ++ (suc n ∷ after); committing = c })
          (record { log = d'; budgets = before ++ (n ∷ after); committing = c })
  ends :
      (d d' : LogData) (n : ℕ) (before after : List ℕ) (taken c : Option LogHeader)
      → end_op_release d ≡ done (d', taken)
      → Step
          (record { log = d; budgets = before ++ (n ∷ after); committing = c })
          (record { log = d'; budgets = before ++ after; committing = taken })
  commits :
      (d d' : LogData) (h : LogHeader) (budgets : List ℕ)
      → end_op_return d (record h { blocks = [] }) ≡ done d'
      → Step
          (record { log = d; budgets = budgets; committing = some h })
          (record { log = d'; budgets = budgets; committing = none })

-- On a file system whose log has `log_size` blocks: each operation is counted, and what is logged
-- and what the operations may still log fits. While the header is away nothing is under way.
abbrev pub Reserved : Option LogHeader → ℕ → List ℕ → Option LogHeader → Type 0
Reserved (some h) n budgets none =
    (h.sb.nlog ≡ log_size)
    × (length budgets ≡ n)
    × All (λ b. b ≤ max_op_blocks) budgets
    × (length h.blocks + sum budgets ≤ log_size)
Reserved none n budgets (some h) =
    (h.sb.nlog ≡ log_size) × (n ≡ 0) × (budgets ≡ []) × (length h.blocks ≤ log_size)
Reserved _ n budgets _ = ⊥

abbrev pub IsReserved : System → Type 0
IsReserved s = Reserved s.log.header s.log.outstanding s.budgets s.committing

sum-le : (ns : List ℕ) → All (λ b. b ≤ max_op_blocks) ns → sum ns ≤ length ns * max_op_blocks
sum-le [] h = omega arith
sum-le (n ∷ ns) (le, h) = omega (arith, sum-le ns h)

pub sum-middle :
    (before after : List ℕ) (n : ℕ) → sum (before ++ (n ∷ after)) ≡ n + sum (before ++ after)
sum-middle [] after n = refl
sum-middle (b ∷ before) after n = omega (arith, sum-middle before after n)

pub length-middle :
    (before after : List ℕ) (n : ℕ)
    → length (before ++ (n ∷ after)) ≡ suc (length (before ++ after))
length-middle [] after n = refl
length-middle (b ∷ before) after n = ap suc (length-middle before after n)

pub nil_of_length : (ns : List ℕ) → length ns ≡ 0 → ns ≡ []
nil_of_length [] e = refl
nil_of_length (n ∷ ns) e = absurd (omega arith)

abbrev IsSmall : ℕ → Type 0
IsSmall b = b ≤ max_op_blocks

All-pull :
    (before after : List ℕ) (n : ℕ)
    → All IsSmall (before ++ (n ∷ after))
    → IsSmall n × All IsSmall (before ++ after)
All-pull [] after n h = h
All-pull (b ∷ before) after n (top, h) =
    let (le, rest) = All-pull before after n h in (le, (top, rest))

All-push :
    (before after : List ℕ) (n : ℕ)
    → IsSmall n
    → All IsSmall (before ++ after)
    → All IsSmall (before ++ (n ∷ after))
All-push [] after n le h = (le, h)
All-push (b ∷ before) after n le (top, h) = (top, All-push before after n le h)

abbrev Holds : LogData → List ℕ → Option LogHeader → Type 0
Holds d budgets c = Reserved d.header d.outstanding budgets c

-- The cases of the calls that return.
try_begin-eq_some :
    (o : ℕ) (h : LogHeader) (d : LogData)
    → try_begin (record { outstanding = o; header = some h }) ≡ some d
    → (length h.blocks + (o + 1) * max_op_blocks ≤ log_size)
      × (record { outstanding = o + 1; header = some h } ≡ d)
unfolding try_begin
try_begin-eq_some o h d run = (ground arith, ground arith)

write-eq_done :
    (o : ℕ) (h : LogHeader) (bn : ℕ) (d : LogData)
    → h.sb.nlog ≤ log_size
    → write (record { outstanding = o; header = some h }) bn ≡ done d
    → (h' : LogHeader) × (record { outstanding = o; header = some h' } ≡ d)
      × (h'.sb.nlog ≡ h.sb.nlog)
      × (length h'.blocks ≤ length h.blocks + 1)
unfolding write
write-eq_done o h bn d le run = elim (push_lem h bn le) [
  | inl (_, e) ↦ absurd (ground arith)
  | inr (inl (_, _, e)) ↦ (h, ground arith, refl, omega arith)
  | inr (inr (_, _, e)) ↦ (
    record h { blocks = h.blocks ++ (bn ∷ []) },
    ground arith,
    refl,
    omega (arith, length-append h.blocks (bn ∷ [])),
  )
]

end_op_release-eq_done :
    (o : ℕ) (h : LogHeader) (d : LogData) (taken : Option LogHeader)
    → end_op_release (record { outstanding = o; header = some h }) ≡ done (d, taken)
    → ((o ≡ 1) × (record { outstanding = 0; header = none } ≡ d) × (some h ≡ taken))
      ⊎ ((2 ≤ o) × (record { outstanding = o - 1; header = some h } ≡ d) × (none ≡ taken))
unfolding end_op_release
end_op_release-eq_done o h d taken run = elim (Bool-cases (o - 1 == 0)) [
  | inl last ↦ inl (ground arith, ground arith, ground arith)
  | inr more ↦ inr (ground arith, ground arith, ground arith)
]

module _ (d : LogData) (budgets : List ℕ) where
  begin-Reserved :
      (o : ℕ) (h : Option LogHeader) (c : Option LogHeader)
      → try_begin (record { outstanding = o; header = h }) ≡ some d
      → Reserved h o budgets c
      → Holds d (max_op_blocks ∷ budgets) c
  unfolding try_begin
  begin-Reserved o none c run r = cc
  begin-Reserved o (some h) (some c) run r = absurd r
  begin-Reserved o (some h) none run (n, len, small, room) =
      let (fits, e) = try_begin-eq_some o h d run in
      subst (λ x. Holds x (max_op_blocks ∷ budgets) none) e
        (n, omega arith, (omega arith, small), omega (arith, sum-le budgets small))

module _ (d : LogData) (before after : List ℕ) where
  write-Reserved :
      (o : ℕ) (h c : Option LogHeader) (bn n : ℕ)
      → write (record { outstanding = o; header = h }) bn ≡ done d
      → Reserved h o (before ++ (suc n ∷ after)) c
      → Holds d (before ++ (n ∷ after)) c
  unfolding write
  write-Reserved o none c bn n run r = cc
  write-Reserved o (some h) (some c) bn n run r = absurd r
  write-Reserved o (some h) none bn n run (nlog, len, small, room) =
      let (h', e, same, grows) = write-eq_done o h bn d (omega arith) run in
      let (le, rest) = All-pull before after (suc n) small in
      subst (λ x. Holds x (before ++ (n ∷ after)) none) e
        (
          omega arith,
          omega (arith, length-middle before after n, length-middle before after (suc n)),
          All-push before after n (omega arith) rest,
          omega (arith, sum-middle before after n, sum-middle before after (suc n)),
        )

  end-Reserved :
      (o : ℕ) (h c taken : Option LogHeader) (n : ℕ)
      → end_op_release (record { outstanding = o; header = h }) ≡ done (d, taken)
      → Reserved h o (before ++ (n ∷ after)) c
      → Holds d (before ++ after) taken
  end-Reserved o none none taken n run r = absurd r
  end-Reserved o none (some c) taken n run (_, _, nil, _) =
      absurd (omega (arith, ap length nil, length-middle before after n))
  end-Reserved o (some h) (some c) taken n run r = absurd r
  end-Reserved o (some h) none taken n run (nlog, len, small, room) =
      elim (end_op_release-eq_done o h d taken run) [
        | inl (one, e, t) ↦
            subst (λ x. Holds d (before ++ after) x) t
              (subst (λ x. Holds x (before ++ after) (some h)) e
                (
                  nlog,
                  refl,
                  nil_of_length (before ++ after) (omega (arith, length-middle before after n)),
                  omega arith,
                ))
        | inr (two, e, t) ↦
            subst (λ x. Holds d (before ++ after) x) t
              (subst (λ x. Holds x (before ++ after) none) e
                (
                  nlog,
                  omega (arith, length-middle before after n),
                  (All-pull before after n small).1,
                  omega (arith, sum-middle before after n),
                ))
      ]

commit-Reserved :
    (o : ℕ) (h : Option LogHeader) (k : LogHeader) (budgets : List ℕ) (d : LogData)
    → end_op_return (record { outstanding = o; header = h }) (record k { blocks = [] }) ≡ done d
    → Reserved h o budgets (some k)
    → Holds d budgets none
unfolding end_op_return
commit-Reserved o (some h) k budgets d run r = absurd r
commit-Reserved o none k budgets d run (nlog, idle, nil, short) =
    let e : record { outstanding = o; header = some (record k { blocks = [] }) } ≡ d = cc in
    subst (λ x. Holds x budgets none) e (rw nil (nlog, sym idle, tt, omega arith))

-- Whatever order the operations run in, with at most `max_op_blocks` writes each, on a log of
-- `log_size` blocks, the reservation of log space is kept.
pub Step-IsReserved : {s t : System} → Step s t → IsReserved s → IsReserved t
Step-IsReserved (begins s d run) r =
    begin-Reserved d s.budgets s.log.outstanding s.log.header s.committing run r
Step-IsReserved (writes d d' bn n before after c run) r =
    write-Reserved d' before after d.outstanding d.header c bn n run r
Step-IsReserved (ends d d' n before after taken c run) r =
    end-Reserved d' before after d.outstanding d.header c taken n run r
Step-IsReserved (commits d d' h budgets run) r =
    commit-Reserved d.outstanding d.header h budgets d' run r
