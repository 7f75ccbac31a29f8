-- ===== src/Console/Tests.antt =====
-- A console with one line ready and another begun.
use ov.Prelude.{◌≡◌, refl, true, [], ◌∷◌, arith, replicate, done}
use ov.Console.{Cons, handle_interrupt, read_loop}
use ov.Console.Line.{Terminal, key, take_line}
use ov.Console.Laws.{Shows, handle_interrupt_lem}
use ov.Console.Reads.{read_loop-take_line}

abbrev typed : Cons
typed = record { buf = 104 ∷ 105 ∷ 10 ∷ 120 ∷ replicate 124 0; r = 128; w = 131; e = 132 }

abbrev screen : Terminal
screen = record { ready = 104 ∷ 105 ∷ 10 ∷ []; line = 120 ∷ [] }

typed-Shows : Shows typed screen
typed-Shows = record {
  size = refl;
  ready_counted = refl;
  line_counted = refl;
  bound = omega arith;
  stores = (refl, (refl, (refl, (refl, tt))));
  unfinished = (omega arith, tt);
}

handle_interrupt_lem_example :
    (c' : Cons) × (handle_interrupt 21 typed ≡ done c') × Shows c' (key 21 screen)
handle_interrupt_lem_example = handle_interrupt_lem 21 typed screen typed-Shows

read_loop-take_line_example :
    (c' : Cons) × (read_loop 2 true typed ≡ done ((take_line 2 true screen.ready).0, c'))
    × Shows c' (record screen { ready = (take_line 2 true screen.ready).1 })
read_loop-take_line_example = read_loop-take_line 2 true typed screen typed-Shows
