-- ===== src/Console/Line.antt =====
-- The console as its users see it: the lines that are ready, and the line being edited.
use ov.Prelude.{
  ℕ, zero, suc, ◌+◌, Bool, false, ◌&&◌, ◌||◌, not, List, [], ◌∷◌, ◌++◌, length, ◌==◌, ltb,
  if◌then◌else◌,
}
use ov.Console.{
  buf_len, newline, ctrl_h, ctrl_u, ctrl_d, ctrl_p, delete, translate, ReadStop, returns, waits,
}

-- `line` is the line being edited, its latest character first.
pub record Terminal : Type 0 where
  pub ready : List ℕ
  pub line : List ℕ

abbrev pub oldest_first : List ℕ → List ℕ
oldest_first [] = []
oldest_first (b ∷ bs) = oldest_first bs ++ (b ∷ [])

abbrev pub rub_out : List ℕ → List ℕ
rub_out [] = []
rub_out (b ∷ bs) = bs

abbrev pub type_in : ℕ → Terminal → Terminal
type_in b t =
    let full = length t.ready + length (b ∷ t.line) == buf_len in
    if b == newline || b == ctrl_d || full
    then record { ready = t.ready ++ oldest_first (b ∷ t.line); line = [] }
    else record t { line = b ∷ t.line }

-- What a key does.
abbrev pub key : ℕ → Terminal → Terminal
key b t =
    if b == ctrl_p
    then t
    else if b == ctrl_u
    then record t { line = [] }
    else if b == ctrl_h || b == delete
    then record t { line = rub_out t.line }
    else if not (b == 0) && ltb (length t.ready + length t.line) buf_len
    then type_in (translate b) t
    else t

-- What a read of `n` bytes takes: a line, or as much of it as there is room for; an end of file
-- ends it, and is left for the next read unless nothing was read before it.
abbrev pub add_byte : ℕ → ReadStop × List ℕ → ReadStop × List ℕ
add_byte b (returns bs, q) = (returns (b ∷ bs), q)
add_byte b (waits bs, q) = (waits (b ∷ bs), q)

abbrev pub take_line : ℕ → Bool → List ℕ → ReadStop × List ℕ
take_line zero first q = (returns [], q)
take_line (suc n) first [] = (waits [], [])
take_line (suc n) first (b ∷ q) =
    let rest = add_byte b (take_line n false q) in
    if b == ctrl_d
    then (returns [], if first then q else b ∷ q)
    else if b == newline
    then (returns (b ∷ []), q)
    else rest
