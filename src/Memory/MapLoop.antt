-- ===== src/Memory/MapLoop.antt =====
-- The loop of `map_addrs_level`, over all pages of a range.
use ov.Prelude.{
  ℕ, zero, suc, ◌+◌, ◌*◌, ◌/◌, ◌%◌, ◌≤◌, ◌<◌, ◌≡◌, refl, subst, sym, ap, ◌⊎◌, inl, inr, Bool, true,
  false, ◌&&◌, arith, ◌==◌, ltb, lt→ltb, ==→eq, Bool-cases,
}
use native.Mathlib.Nat.{suc-mul, zero-mul, mul-div_left}
use ov.Memory.{level_page_size}
use ov.Memory.Addr.{max_va, is_level_page_aligned}
use ov.Memory.Entry.{has_rwx}
use ov.Memory.Pages.{Heap}
use ov.Memory.Table.{Entries, MapTarget, map_page, find_leaf_entry}
use ov.Memory.Mapping.{MapsOrKeeps, IsTarget, map_page_lem}
use ov.Memory.Table.Path.{Effect}
use ov.Memory.MapRange.{is_target_aligned, map_pages, map_addrs_level}
use ov.Memory.MapRuns.{
  other_page, next_aligned, Covers, byte_add_fits, advance_cases, Covers-suc, page_size_pos,
}

map_pages_lem :
    (n level va other perm : ℕ) (target : MapTarget) (es : Entries) (h : Heap)
    → level ≤ 2
    → va % level_page_size level ≡ 0
    → va + n * level_page_size level ≤ max_va
    → other ≤ max_va
    → perm < 1024
    → IsTarget target
    → Covers level va n other perm target es
        (map_pages n level va (va + n * level_page_size level) target perm es h)
unfolding map_pages
map_pages_lem zero level va other perm target es h l a b o p t =
    let none_yet = zero-mul (level_page_size level) in
    let at_end : (ltb va (va + 0 * level_page_size level) ≡ false) = ground (arith, none_yet) in
    rw (map_pages, at_end)
      (λ x. refl, (omega (arith, none_yet), λ k lt. absurd (omega (arith, lt))))
map_pages_lem (suc n) level va other perm target es h l a b o p t =
    let size = suc-mul n (level_page_size level) in
    let pos = page_size_pos level l in
    let r = map_page level va target perm es h in
    let ends : (va + suc n * level_page_size level
        ≡ va + level_page_size level + n * level_page_size level) =
      omega (arith, size) in
    let (out, in_page) =
      map_page_lem level va other perm target es h l (omega (arith, b, size)) o p t in
    let keeps = (λ (x : (other < va) ⊎ (va + suc n * level_page_size level ≤ other)).
      out (other_page level va other l a (first x))) in
    rw (map_pages, lt→ltb va (va + suc n * level_page_size level) (omega (arith, size, pos)))
      (elim (advance_cases r.0 level va target t (omega (arith, b, size))) [
        | inl (target', e, mapped, t', sh) ↦ rw e (
            Covers-suc n level va other perm target target' es r.1
              (map_pages n level (va + level_page_size level) (va + suc n * level_page_size level)
                target' perm r.1 r.2)
              l a pos sh out
              (λ q.
                subst
                  (λ res.
                    Effect (MapsOrKeeps level other target perm) res (find_leaf_entry other es)
                      (find_leaf_entry other r.1))
                  mapped (in_page q))
              (subst
                (λ z.
                  Covers level (va + level_page_size level) n other perm target' r.1
                    (map_pages n level (va + level_page_size level) z target' perm r.1 r.2))
                (sym ends)
                (map_pages_lem n level (va + level_page_size level) other perm target' r.1 r.2 l
                  (next_aligned level va l a) (omega (arith, b, size)) o p t')))
        | inr (inl (k, e)) ↦ rw e (keeps, tt)
        | inr (inr e) ↦ rw e (keeps, tt)
      ])
  where
    first :
        (other < va) ⊎ (va + suc n * level_page_size level ≤ other)
        → (other < va) ⊎ (va + level_page_size level ≤ other)
    first (inl lt) = inl lt
    first (inr ge) = inr (omega (arith, ge, suc-mul n (level_page_size level)))

IsAligned-page :
    (level va : ℕ) → is_level_page_aligned va level ≡ true → va % level_page_size level ≡ 0
unfolding is_level_page_aligned
IsAligned-page level va h = ==→eq (va % level_page_size level) 0 h

-- `map_addrs_level` changes no lookup outside of the range, whether it succeeds or fails. If it
-- succeeds, the address has moved to the end of the range, and each page of the range, where nothing
-- was found, has a leaf with the permissions and its page of the target, in order; only a target that
-- allows it may find a page there already, which is then left as it is.
pub map_addrs_level_lem :
    (level va size other perm n : ℕ) (target : MapTarget) (es : Entries) (h : Heap)
    → level ≤ 2
    → size ≡ n * level_page_size level
    → va + size ≤ max_va
    → other ≤ max_va
    → perm < 1024
    → IsTarget target
    → Covers level va n other perm target es (map_addrs_level level va target size perm es h)
unfolding map_addrs_level
map_addrs_level_lem level va size other perm n target es h l s b o p t =
    elim (Bool-cases (is_level_page_aligned va level && is_target_aligned target level)) [
      | inr bad ↦ rw (map_addrs_level, bad) (λ x. refl, tt)
      | inl good ↦ elim (Bool-cases ((size % level_page_size level == 0) && has_rwx perm)) [
        | inr bad ↦ rw (map_addrs_level, good, bad) (λ x. refl, tt)
        | inl fine ↦
            let pages : (size / level_page_size level ≡ n) =
              rw s (mul-div_left n (page_size_pos level l)) in
            let ends : (va + size ≡ va + n * level_page_size level) = ap (λ z. va + z) s in
            rw (map_addrs_level, good, fine, byte_add_fits va size b, pages, ends)
              (map_pages_lem n level va other perm target es h l
                (IsAligned-page level va
                  (both (is_level_page_aligned va level) (is_target_aligned target level) good))
                (omega (arith, b, s)) o p t)
      ]
    ]
  where
    both : (a b : Bool) → (a && b) ≡ true → a ≡ true
    both true b h = refl
    both false b h = h
