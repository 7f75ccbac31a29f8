-- ===== src/Memory/MapJoin.antt =====
-- Parts of a range, one after the other.
use ov.Prelude.{
  ℕ, ◌+◌, ◌-◌, ◌*◌, ◌%◌, ◌≤◌, ◌<◌, ◌≡◌, refl, subst, sym, ap, ◌∙◌, ◌⊎◌, inl, inr, arith, ltb,
  ltb→lt, Bool-cases,
}
use ov.Memory.{ok, err, panicked, level_page_size}
use ov.Memory.Addr.{max_va}
use ov.Memory.Pages.{Heap}
use ov.Memory.Table.{Entries, MapTarget, find_leaf_entry}
use ov.Memory.Mapping.{IsTarget}
use ov.Memory.MapRange.{Moved, shift, map_addrs_level, map_to, then_map}
use ov.Memory.MapParts.{Part, Translates, IsAligned, run-Part}

-- Two parts, one after the other.
pub then_map-Part :
    (start perm other lo mid hi : ℕ) (target : MapTarget) (es : Entries) (r : Moved)
    (f : ℕ → MapTarget → Entries → Heap → Moved)
    → lo ≤ mid
    → mid ≤ hi
    → Part start target perm other lo mid es r
    → ((es1 : Entries) (h1 : Heap)
        → IsTarget (shift target (mid - start))
        → Part start target perm other mid hi es1 (f mid (shift target (mid - start)) es1 h1))
    → Part start target perm other lo hi es (then_map r f)
then_map-Part start perm other lo mid hi target es (err e, es1, h1) f l m (out, x) next =
    (λ z. out (first z), tt)
  where
    first : (other < lo) ⊎ (hi ≤ other) → (other < lo) ⊎ (mid ≤ other)
    first (inl lt) = inl lt
    first (inr ge) = inr (omega (arith, m, ge))
then_map-Part start perm other lo mid hi target es (panicked, es1, h1) f l m (out, x) next =
    (λ z. out (first z), tt)
  where
    first : (other < lo) ⊎ (hi ≤ other) → (other < lo) ⊎ (mid ≤ other)
    first (inl lt) = inl lt
    first (inr ge) = inr (omega (arith, m, ge))
then_map-Part start perm other lo mid hi target es (ok (va', t'), es1, h1) f l m
      (out, (e, e', it, inside)) next =
    rw (e, e')
      (join (f mid (shift target (mid - start)) es1 h1) (next es1 h1 (subst IsTarget e' it)))
  where
    first : (other < lo) ⊎ (hi ≤ other) → (other < lo) ⊎ (mid ≤ other)
    first (inl lt) = inl lt
    first (inr ge) = inr (omega (arith, m, ge))

    second : (other < lo) ⊎ (hi ≤ other) → (other < mid) ⊎ (hi ≤ other)
    second (inl lt) = inl (omega (arith, l, lt))
    second (inr ge) = inr ge

    both :
        (r : Moved)
        → Part start target perm other mid hi es1 r
        → (lo ≤ other
            → other < mid
            → Translates start target perm other
                (find_leaf_entry other es)
                (find_leaf_entry other es1))
        → (mid ≤ other
            → other < hi
            → Translates start target perm other
                (find_leaf_entry other es1)
                (find_leaf_entry other r.1))
        → lo ≤ other
        → other < hi
        → Translates start target perm other (find_leaf_entry other es) (find_leaf_entry other r.1)
    both r (out2, _) in1 in2 x y = elim (Bool-cases (ltb other mid)) [
      | inl lt ↦ rw (out2 (inl (ltb→lt other mid lt))) (in1 x (ltb→lt other mid lt))
      | inr ge ↦
          let mid_le : mid ≤ other = ground (arith, ge) in
          rw (sym (out (inr mid_le))) (in2 mid_le y)
    ]

    join :
        (r : Moved)
        → Part start target perm other mid hi es1 r
        → Part start target perm other lo hi es r
    join (err k, es2, h2) (out2, x) = (λ z. out2 (second z) ∙ out (first z), tt)
    join (panicked, es2, h2) (out2, x) = (λ z. out2 (second z) ∙ out (first z), tt)
    join (ok (va2, t2), es2, h2) (out2, (a, b, c, in2)) = (
      λ z. out2 (second z) ∙ out (first z),
      (a, b, c, both (ok (va2, t2), es2, h2) (out2, (a, b, c, in2)) inside in2),
    )

-- A part that may be empty.
pub map_to-Part :
    (level start va limit n perm other : ℕ) (target : MapTarget) (es : Entries) (h : Heap)
    → level ≤ 1
    → start ≤ va
    → va ≤ limit
    → limit - va ≡ n * level_page_size level
    → limit ≤ max_va
    → other ≤ max_va
    → perm < 1024
    → va % level_page_size level ≡ 0
    → IsAligned level target (va - start)
    → IsTarget (shift target (va - start))
    → Part start target perm other va limit es
        (map_to level limit perm va (shift target (va - start)) es h)
map_to-Part level start va limit n perm other target es h l s vl e b o p a t it =
    elim (Bool-cases (ltb va limit)) [
      | inl more ↦
          let whole : (va + (limit - va) ≡ limit) = omega (arith, vl) in
          rw (map_to, more)
            (subst
              (λ z.
                Part start target perm other va z es
                  (map_addrs_level level va (shift target (va - start)) (limit - va) perm es h))
              whole
              (run-Part level start va (limit - va) n perm other target es h l s e
                (omega (arith, vl, b)) o p a t it))
      | inr done_before ↦
          let same : va ≡ limit = ground (arith, vl, done_before) in
          rw (map_to, done_before)
            (
              λ z. refl,
              (
                same,
                ap (λ v. shift target (v - start)) same,
                it,
                λ lo hi. absurd (omega (arith, lo, hi, same)),
              ),
            )
    ]
