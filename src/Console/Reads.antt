-- ===== src/Console/Reads.antt =====
-- `read` on the ring buffer of the console does what `Line` says.
use ov.Prelude.{
  ℕ, zero, suc, ◌+◌, ◌-◌, ◌≡◌, refl, inl, inr, Bool, true, false, List, [], ◌∷◌, arith, done, ◌==◌,
  leb, le→leb, ==_ne, Bool-cases,
}
use ov.Console.{newline, ctrl_d, Cons, ReadStop, returns, waits, prepend, read_loop}
use ov.Console.Line.{Terminal, add_byte, take_line}
use ov.Console.Laws.{Shows}

-- The buffer once its oldest character is read.
taken_lem :
    (c : Cons) (b : ℕ) (ready line : List ℕ)
    → Shows c (record { ready = b ∷ ready; line = line })
    → Shows (record c { r = c.r + 1 }) (record { ready = ready; line = line })
taken_lem c b ready line s = record {
  size = s.size;
  ready_counted = omega (arith, s.ready_counted);
  line_counted = s.line_counted;
  bound = omega (arith, s.bound);
  stores = s.stores.1;
  unfinished = s.unfinished;
}

prepend-add_byte :
    (b : ℕ) (x : ReadStop × List ℕ) (c : Cons)
    → prepend b (done (x.0, c)) ≡ done ((add_byte b x).0, c)
prepend-add_byte b (returns bs, q) c = refl
prepend-add_byte b (waits bs, q) c = refl

add_byte-rest : (b : ℕ) (x : ReadStop × List ℕ) → (add_byte b x).1 ≡ x.1
add_byte-rest b (returns bs, q) = refl
add_byte-rest b (waits bs, q) = refl

Takes : ℕ → Bool → Cons → List ℕ → List ℕ → Type 0
Takes n first c ready line =
    (c' : Cons) × (read_loop n first c ≡ done ((take_line n first ready).0, c'))
    × Shows c' (record { ready = (take_line n first ready).1; line = line })

module _ (n : ℕ) (c : Cons) (b : ℕ) (ready line : List ℕ)
    (s : Shows c (record { ready = b ∷ ready; line = line })) where
  there : (c.r == c.w) ≡ false
  there = ==_ne c.r c.w (omega (arith, s.ready_counted))

  read_end_of_file : (first : Bool) → (b == ctrl_d) ≡ true → Takes (suc n) first c (b ∷ ready) line
  unfolding Takes read_loop
  read_end_of_file true d =
      (record c { r = c.r + 1 }, rw (there, s.stores.0, d), rw d (taken_lem c b ready line s))
  read_end_of_file false d =
      let back : c.r + 1 - 1 ≡ c.r = omega arith in
      let le : leb 1 (c.r + 1) ≡ true = le→leb 1 (c.r + 1) (omega arith) in
      (c, rw (there, s.stores.0, d, le, back), rw d s)

  read_newline :
      (first : Bool)
      → (b == ctrl_d) ≡ false
      → (b == newline) ≡ true
      → Takes (suc n) first c (b ∷ ready) line
  unfolding Takes read_loop
  read_newline first d e = (
    record c { r = c.r + 1 },
    rw (there, s.stores.0, d, e),
    rw (d, e) (taken_lem c b ready line s),
  )

  read_next :
      (first : Bool)
      → (b == ctrl_d) ≡ false
      → (b == newline) ≡ false
      → Takes n false (record c { r = c.r + 1 }) ready line
      → Takes (suc n) first c (b ∷ ready) line
  unfolding Takes read_loop
  read_next first d e (c', run, shows) =
      let x = take_line n false ready in
      (
        c',
        rw (there, s.stores.0, d, e, run) (prepend-add_byte b x c'),
        rw (d, e, add_byte-rest b x) shows,
      )

takes_lem :
    (n : ℕ) (first : Bool) (c : Cons) (ready line : List ℕ)
    → Shows c (record { ready = ready; line = line })
    → Takes n first c ready line
unfolding Takes read_loop
takes_lem zero first c ready line s = (c, refl, s)
takes_lem (suc n) first c [] line s =
    let e : (c.r == c.w) ≡ true = ground (arith, s.ready_counted) in (c, rw e, s)
takes_lem (suc n) first c (b ∷ ready) line s =
    let rest =
      takes_lem n false (record c { r = c.r + 1 }) ready line (taken_lem c b ready line s) in
    elim (Bool-cases (b == ctrl_d)) [
      | inl d ↦ read_end_of_file n c b ready line s first d
      | inr d ↦ elim (Bool-cases (b == newline)) [
        | inl e ↦ read_newline n c b ready line s first d e
        | inr e ↦ read_next n c b ready line s first d e rest
      ]
    ]

-- A read takes from the buffer what `take_line` takes from the lines that are ready, and does not
-- panic; the line being edited is not touched.
pub read_loop-take_line :
    (n : ℕ) (first : Bool) (c : Cons) (t : Terminal)
    → Shows c t
    → (c' : Cons) × (read_loop n first c ≡ done ((take_line n first t.ready).0, c'))
      × Shows c' (record t { ready = (take_line n first t.ready).1 })
unfolding Takes
read_loop-take_line n first c t s = takes_lem n first c t.ready t.line s
