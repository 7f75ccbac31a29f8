-- ===== src/Log/Tx.antt =====
-- `Log::begin_op`, `force_begin_op`, `end_op` and `write`, over the state that the log's lock guards.
-- A call that waits takes, for each wait, what it wakes up to: the state under the lock it holds again, or the news that its process was killed.
use ov.Prelude.{
  ℕ, ◌+◌, ◌*◌, Option, none, some, List, [], ◌∷◌, length, Run, done, panic, assert, checked_minus,
  ◌==◌, ltb, if◌then◌else◌, ◌>>=◌, ◌>>◌,
}
use ov.Log.{max_op_blocks, log_size, Layout, LogHeader, push, Io}
use ov.Log.Ops.{commit}

-- `LogData`; with no header the transaction is being committed.
pub record LogData : Type 0 where
  pub outstanding : ℕ
  pub header : Option LogHeader

-- One round of the loops of `begin_op` and `force_begin_op`: `none` to wait.
unfoldable pub try_begin : LogData → Option LogData
try_begin d = elim d.header [
  | none ↦ none
  | some h ↦
      if ltb log_size (length h.blocks + (d.outstanding + 1) * max_op_blocks)
      then none
      else some (record d { outstanding = d.outstanding + 1 })
]

pub data Wake : Type 0 where
  resumed : LogData → Wake
  killed : Wake

pub data Begin : Type 0 where
  begun : LogData → Begin
  process_killed : Begin
  waiting : Begin

-- `begin_op`, over the wakeups to come; `waiting` if it still waits when they are used up.
unfoldable pub begin_op : List Wake → LogData → Begin
begin_op [] d = elim (try_begin d) [ some d' ↦ begun d' | none ↦ waiting ]
begin_op (killed ∷ ws) d = elim (try_begin d) [ some d' ↦ begun d' | none ↦ process_killed ]
begin_op (resumed e ∷ ws) d =
    let again = begin_op ws e in elim (try_begin d) [ some d' ↦ begun d' | none ↦ again ]

-- `force_begin_op`, whose waits cannot be killed.
unfoldable pub force_begin_op : List LogData → LogData → Begin
force_begin_op [] d = elim (try_begin d) [ some d' ↦ begun d' | none ↦ waiting ]
force_begin_op (e ∷ es) d =
    let again = force_begin_op es e in elim (try_begin d) [ some d' ↦ begun d' | none ↦ again ]

-- `end_op` up to the unlock: the state, and the header that is taken to be committed.
unfoldable pub end_op_release : LogData → Run (LogData × Option LogHeader)
end_op_release d = do
  outstanding ← checked_minus d.outstanding 1
  elim d.header [
    | none ↦ panic
    | some h ↦
        if outstanding == 0
        then done (record { outstanding = outstanding; header = none }, some h)
        else done (record { outstanding = outstanding; header = some h }, none)
  ]

-- `end_op` from the second lock on.
unfoldable pub end_op_return : LogData → LogHeader → Run LogData
end_op_return d h = elim d.header [ none ↦ done (record d { header = some h }) | some _ ↦ panic ]

-- `Log::write`
unfoldable pub write : LogData → ℕ → Run LogData
write d bn = elim d.header [
  | none ↦ panic
  | some h ↦ do assert (ltb 0 d.outstanding); h' ← push h bn; done (record d { header = some h' })
]

-- `end_op` where no other call comes in between: the lock is free while the header is committed.
unfoldable pub end_op : {l : Layout} → LogData → Io l → Run (LogData × Io l)
end_op d io = do
  (d', taken) ← end_op_release d
  elim taken [
    | none ↦ done (d', io)
    | some h ↦ do (h', io') ← commit h io; d'' ← end_op_return d' h'; done (d'', io')
  ]
