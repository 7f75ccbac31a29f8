-- ===== src/Console/Laws.antt =====
-- The ring buffer of the console does what `Line` says.
use ov.Prelude.{
  ℕ, zero, suc, ◌+◌, ◌-◌, ◌%◌, ◌≤◌, ◌<◌, ◌≡◌, refl, subst, sym, ◌∙◌, ◌≢◌, ◌⊎◌, inl, inr, Bool, true,
  false, ◌&&◌, ◌||◌, not, List, [], ◌∷◌, ◌++◌, arith, length, length-append, length-set, get_or,
  set, All, done, ◌==◌, ltb, leb, le→leb, Bool-cases,
}
use mathlib.Core.List.{append_assoc, append-nil}
use ov.Ring.{Stores, Stores-push, Stores-init}
use ov.Console.{
  buf_len, newline, ctrl_h, ctrl_u, ctrl_d, ctrl_p, delete, Cons, kill_line, backspace, translate,
  commit_line, stored, put_input, handle_interrupt,
}
use ov.Console.Line.{Terminal, oldest_first, rub_out, type_in, key}

abbrev pub queue : Terminal → List ℕ
queue t = t.ready ++ oldest_first t.line

-- The buffer `c` holds the lines of `t`; the line being edited has no end of line in it.
pub record Shows (c : Cons) (t : Terminal) : Type 0 where
  pub size : length c.buf ≡ buf_len
  pub ready_counted : c.w ≡ c.r + length t.ready
  pub line_counted : c.e ≡ c.w + length t.line
  pub bound : length t.ready + length t.line ≤ buf_len
  pub stores : Stores buf_len c.buf c.r (queue t)
  pub unfinished : All (λ b. b ≢ newline) t.line

length-oldest_first : (bs : List ℕ) → length (oldest_first bs) ≡ length bs
length-oldest_first [] = refl
length-oldest_first (b ∷ bs) =
    length-append (oldest_first bs) (b ∷ []) ∙ omega (arith, length-oldest_first bs)

-- The latest character of the line, and the buffer without it.
last_lem :
    (c : Cons) (ready line : List ℕ) (b : ℕ)
    → Shows c (record { ready = ready; line = b ∷ line })
    → Shows (record c { e = c.e - 1 }) (record { ready = ready; line = line })
      × (get_or c.buf ((c.e - 1) % buf_len) 0 ≡ b)
last_lem c ready line b s =
    let parts = append_assoc ready (oldest_first line) (b ∷ []) in
    let (before, at) =
      Stores-init buf_len c.buf c.r b (ready ++ oldest_first line)
        (subst (λ q. Stores buf_len c.buf c.r q) (sym parts) s.stores) in
    let place : c.r + length (ready ++ oldest_first line) ≡ c.e - 1 = omega (
      arith,
      s.ready_counted,
      s.line_counted,
      length-append ready (oldest_first line),
      length-oldest_first line,
    ) in
    (
      record {
        size = s.size;
        ready_counted = s.ready_counted;
        line_counted = omega (arith, s.line_counted);
        bound = omega (arith, s.bound);
        stores = before;
        unfinished = s.unfinished.1;
      },
      subst (λ j. get_or c.buf (j % buf_len) 0 ≡ b) place at,
    )

backspace_lem :
    (c : Cons) (ready line : List ℕ)
    → Shows c (record { ready = ready; line = line })
    → (c' : Cons) × (backspace c ≡ done c')
      × Shows c' (record { ready = ready; line = rub_out line })
unfolding backspace
backspace_lem c ready [] s = (c, ground (arith, s.line_counted), s)
backspace_lem c ready (b ∷ line) s =
    (record c { e = c.e - 1 }, ground (arith, s.line_counted), (last_lem c ready line b s).0)

kill_line_lem :
    (fuel : ℕ) (c : Cons) (ready line : List ℕ)
    → length line < fuel
    → Shows c (record { ready = ready; line = line })
    → (c' : Cons) × (kill_line fuel c ≡ done c') × Shows c' (record { ready = ready; line = [] })
unfolding kill_line
kill_line_lem zero c ready line lt s = absurd (omega arith)
kill_line_lem (suc fuel) c ready [] lt s = (c, ground (arith, s.line_counted), s)
kill_line_lem (suc fuel) c ready (b ∷ line) lt s =
    let (before, at) = last_lem c ready line b s in
    let (c', run, shows) =
      kill_line_lem fuel (record c { e = c.e - 1 }) ready line (omega arith) before in
    (c', ground (arith, s.line_counted, at, s.unfinished.0, run), shows)

-- The buffer after a character is stored, before the test for the end of the line.
stored-Stores :
    (c : Cons) (ready line : List ℕ) (b : ℕ)
    → Shows c (record { ready = ready; line = line })
    → length ready + length line < buf_len
    → Stores buf_len (stored b c).buf c.r (ready ++ oldest_first (b ∷ line))
stored-Stores c ready line b s room =
    let q = ready ++ oldest_first line in
    let len : length q ≡ length ready + length line =
      omega (arith, length-append ready (oldest_first line), length-oldest_first line) in
    let place : c.r + length q ≡ c.e = omega (arith, s.ready_counted, s.line_counted) in
    subst (λ x. Stores buf_len (stored b c).buf c.r x)
      (append_assoc ready (oldest_first line) (b ∷ []))
      (subst (λ j. Stores buf_len (set c.buf (j % buf_len) b) c.r (q ++ (b ∷ []))) place
        (Stores-push buf_len c.buf c.r b q s.size (omega arith) s.stores))

committed_lem :
    (c : Cons) (ready line : List ℕ) (b : ℕ)
    → Shows c (record { ready = ready; line = line })
    → length ready + length line < buf_len
    → Shows
        (record (stored b c) { w = c.e + 1 })
        (record { ready = ready ++ oldest_first (b ∷ line); line = [] })
committed_lem c ready line b s room =
    let len : length (ready ++ oldest_first (b ∷ line)) ≡ length ready + length (b ∷ line) =
      omega
        (arith, length-append ready (oldest_first (b ∷ line)), length-oldest_first (b ∷ line)) in
    record {
      size = length-set c.buf (c.e % buf_len) b ∙ s.size;
      ready_counted = omega (arith, s.ready_counted, s.line_counted, len);
      line_counted = omega arith;
      bound = omega (arith, len);
      stores =
          subst (λ x. Stores buf_len (stored b c).buf c.r x)
            (sym (append-nil (ready ++ oldest_first (b ∷ line))))
            (stored-Stores c ready line b s room);
      unfinished = tt;
    }

pending_lem :
    (c : Cons) (ready line : List ℕ) (b : ℕ)
    → Shows c (record { ready = ready; line = line })
    → length ready + length line < buf_len
    → b ≢ newline
    → Shows (stored b c) (record { ready = ready; line = b ∷ line })
pending_lem c ready line b s room ne = record {
  size = length-set c.buf (c.e % buf_len) b ∙ s.size;
  ready_counted = s.ready_counted;
  line_counted = omega (arith, s.line_counted);
  bound = omega arith;
  stores = stored-Stores c ready line b s room;
  unfinished = (ne, s.unfinished);
}

abbrev ends_line : ℕ → ℕ → Bool
ends_line b len = b == newline || b == ctrl_d || len == buf_len

commit_line_lem :
    (c : Cons) (ready line : List ℕ) (b : ℕ)
    → Shows c (record { ready = ready; line = line })
    → length ready + length line < buf_len
    → Shows
        (commit_line b (c.e + 1 - c.r) (stored b c))
        (type_in b (record { ready = ready; line = line }))
commit_line_lem c ready line b s room =
    let same : c.e + 1 - c.r ≡ length ready + length (b ∷ line) =
      omega (arith, s.ready_counted, s.line_counted) in
    elim (Bool-cases (ends_line b (length ready + length (b ∷ line)))) [
      | inl ends ↦ rw (same, ends) (committed_lem c ready line b s room)
      | inr more ↦ rw (same, more) (pending_lem c ready line b s room (ground arith))
    ]

put_input_lem :
    (b : ℕ) (c : Cons) (ready line : List ℕ)
    → Shows c (record { ready = ready; line = line })
    → ((not (b == 0) && ltb (length ready + length line) buf_len ≡ true)
        × (put_input b c
            ≡ done (commit_line (translate b) (c.e + 1 - c.r) (stored (translate b) c))))
      ⊎ ((not (b == 0) && ltb (length ready + length line) buf_len ≡ false)
          × (put_input b c ≡ done c))
unfolding put_input
put_input_lem b c ready line s =
    let len : c.e - c.r ≡ length ready + length line =
      omega (arith, s.ready_counted, s.line_counted) in
    let le : leb c.r c.e ≡ true = le→leb c.r c.e (omega (arith, s.ready_counted, s.line_counted)) in
    let le' : leb c.r (c.e + 1) ≡ true =
      le→leb c.r (c.e + 1) (omega (arith, s.ready_counted, s.line_counted)) in
    elim (Bool-cases (not (b == 0) && ltb (length ready + length line) buf_len)) [
      | inl room ↦ inl (room, rw (le, len, room, le'))
      | inr full ↦ inr (full, rw (le, len, full))
    ]

-- A key does to the buffer what `key` does to the lines, and does not panic: `^U` erases the line
-- being edited and no line that is ready, a backspace its latest character, a character that finds
-- room is put behind it, and a line goes to the readers when it ends or fills the buffer.
pub handle_interrupt_lem :
    (b : ℕ) (c : Cons) (t : Terminal)
    → Shows c t
    → (c' : Cons) × (handle_interrupt b c ≡ done c') × Shows c' (key b t)
unfolding handle_interrupt
handle_interrupt_lem b c t s = elim (Bool-cases (b == ctrl_p)) [
  | inl p ↦ (c, rw p, rw p s)
  | inr p ↦ elim (Bool-cases (b == ctrl_u)) [
    | inl u ↦
        let (c', run, shows) =
          kill_line_lem (suc c.e) c t.ready t.line (omega (arith, s.line_counted)) s in
        (c', rw (p, u) run, rw (p, u) shows)
    | inr u ↦ elim (Bool-cases (b == ctrl_h || b == delete)) [
      | inl h ↦
          let (c', run, shows) = backspace_lem c t.ready t.line s in
          (c', rw (p, u, h) run, rw (p, u, h) shows)
      | inr h ↦ elim (put_input_lem b c t.ready t.line s) [
        | inl (room, run) ↦ (
          commit_line (translate b) (c.e + 1 - c.r) (stored (translate b) c),
          rw (p, u, h) run,
          rw (p, u, h, room) (commit_line_lem c t.ready t.line (translate b) s (ground arith)),
        )
        | inr (full, run) ↦ (c, rw (p, u, h) run, rw (p, u, h, full) s)
      ]
    ]
  ]
]
