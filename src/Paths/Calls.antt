-- ===== src/Paths/Calls.antt =====
-- Any calls of `next` and `next_back` on the components of a path
-- (`Components` of crates/common/ov6_types/src/path/mod.rs).
use ov.Prelude.{◌≡◌, refl, sym, ap, ◌∙◌, Bool, Option, List, [], ◌∷◌, Run, done, ◌>>=◌}
use ov.Paths.Slices.{Bytes}
use ov.Paths.Components.{Component, Components, components, next, next_back}
use ov.Paths.Segments.{components_of}
use ov.Paths.Front.{IsTrimmed, view, pop_front, state, next-Pops}
use ov.Paths.Back.{pop_back, components-view}
use ov.Paths.Ends.{next_back-Backs}

pub data End : Type 0 where
  front : End
  back : End

unfoldable pub call : End → Components → Run (Option Component × Components)
unfolding next next_back
call front c = done (next c)
call back c = next_back c

-- What the calls return, one after the other.
unfoldable pub calls : List End → Components → Run (List (Option Component))
unfolding call
calls [] c = done []
calls (e ∷ es) c = do (o, c') ← call e c; os ← calls es c'; done (o ∷ os)

abbrev pub take_end {ℓ} : {A : Type ℓ} → End → List A → Option A × List A
take_end front xs = pop_front xs
take_end back xs = pop_back xs

-- The same calls on a list of which each call takes an item, at the end that it names.
unfoldable pub takes {ℓ} : {A : Type ℓ} → List End → List A → List (Option A)
takes [] xs = []
takes (e ∷ es) xs = let (o, rest) = take_end e xs in o ∷ takes es rest

call-take_end :
    (e : End) (p : Bytes) (r : Bool)
    → IsTrimmed (state p r)
    → (c' : Components) × (call e (state p r) ≡ done ((take_end e (view (state p r))).0, c'))
      × (view c' ≡ (take_end e (view (state p r))).1)
      × IsTrimmed c'
unfolding call
call-take_end front p r v =
    let (o, vw, t) = next-Pops p r v in
    ((next (state p r)).1, ap (λ x. done (x, (next (state p r)).1)) o, vw, t)
call-take_end back p r v = next_back-Backs p r v

calls-takes :
    (es : List End) (p : Bytes) (r : Bool)
    → IsTrimmed (state p r)
    → calls es (state p r) ≡ done (takes es (view (state p r)))
unfolding calls takes
calls-takes [] p r v = refl
calls-takes (e ∷ es) p r v =
    let (c', run, vw, t) = call-take_end e p r v in
    rw (calls, takes, run, sym vw, calls-takes es c'.path c'.has_root_dir t)

-- However the calls from the two ends follow one another, they take the components of the path from
-- a queue with two ends: no component is lost or given twice where the two ends meet, the root comes
-- first, an empty queue stays empty, and no call panics.
pub calls-components :
    (es : List End) (p : Bytes) → calls es (components p) ≡ done (takes es (components_of p))
calls-components es p =
    let (t, vw) = components-view p in
    let c = components p in
    calls-takes es c.path c.has_root_dir t ∙ ap (λ xs. done (takes es xs)) vw
