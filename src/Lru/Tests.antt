-- ===== src/Lru/Tests.antt =====
-- A cache of two values, one of them in use.
use ov.Prelude.{◌≡◌, refl, none, some, List, [], ◌∷◌, arith, All, done}
use ov.Lru.{Entry, LruValue, new, find, recycle, get}
use ov.Lru.Sharing.{IsCoherent}
use ov.Lru.History.{Step, gets, Step-IsCoherent, here, next, Shares, Reach-Shares}

abbrev unused : List Entry
unused =
    record { key = none; slot = 0; count = 1 } ∷ record { key = none; slot = 1; count = 1 } ∷ []

abbrev one_used : List Entry
one_used =
    record { key = none; slot = 0; count = 1 } ∷ record { key = some 7; slot = 1; count = 2 } ∷ []

abbrev seven : LruValue
seven = record { key = 7; slot = 1 }

get-unused : get 7 unused ≡ some (seven, one_used)
unfolding get find recycle
get-unused = refl

new-unused : new 2 ≡ done unused
unfolding new
new-unused = refl

unused-IsCoherent : IsCoherent unused []
unused-IsCoherent = record {
  apart = (((omega arith, λ k h. absurd (ground (arith, h))), tt), (tt, tt));
  counted = (refl, (refl, tt));
  present = tt;
}

first_get :
    Step (record { list = unused; held = [] }) (record { list = one_used; held = seven ∷ [] })
first_get = gets (record { list = unused; held = [] }) 7 seven one_used get-unused

Step-IsCoherent_example : IsCoherent one_used (seven ∷ [])
Step-IsCoherent_example = Step-IsCoherent first_get unused-IsCoherent

Reach-Shares_example : All (λ u. All (λ v. Shares u v) (seven ∷ [])) (seven ∷ [])
Reach-Shares_example =
    Reach-Shares 2 unused (record { list = one_used; held = seven ∷ [] }) new-unused
      (next here first_get)
