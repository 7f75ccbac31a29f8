-- ===== src/Memory/Mapping.antt =====
-- `map_page`: what it does to every lookup.
use ov.Prelude.{
  ℕ, zero, suc, ◌+◌, ◌*◌, ◌/◌, ◌%◌, ◌^◌, ◌≤◌, ◌<◌, ◌≡◌, refl, ◌∙◌, ◌≢◌, ◌⊎◌, inl, inr, true, false,
  arith, ◌==◌, Bool-cases,
}
use ov.Prelude.{ℕ_discrete}
use ov.Memory.{
  virtual_page_not_mapped, Outcome, ok, err, panicked, page_size, level_page_size, usize_end,
}
use ov.Memory.Addr.{level_idx, max_va}
use ov.Memory.Entry.{
  flag_v, has, has_rwx, insert, urwx, is_valid, is_leaf, flags, phys_page_num, new_entry,
  set_phys_page_num_lem,
}
use ov.Memory.Pages.{Heap}
use ov.Memory.Table.{
  PtEntry, word, table, Entries, MapTarget, allocated_addr, fixed_addr, allocate_new,
  get_or_allocate, enter_page, remap, map_entry, map_page, leaf_word, find_leaf, find_leaf_entry,
}
use ov.Memory.Table.Path.{Same, Parts, Effect, with_leaf-Parts, with_leaf-Same}

-- Two addresses of one page of a level take the same way to it, and others part.
pub page-Same :
    (level va other : ℕ)
    → level ≤ 2
    → va ≤ max_va
    → other ≤ max_va
    → va / level_page_size level ≡ other / level_page_size level
    → Same 2 level va other
unfolding level_idx
page-Same zero va other l v o e =
    (omega arith, inr (omega arith, (omega arith, inr (omega arith, omega arith))))
page-Same (suc zero) va other l v o e = (omega arith, inr (omega arith, (omega arith, inl refl)))
page-Same (suc (suc zero)) va other l v o e = (omega arith, inl refl)
page-Same (suc (suc (suc n))) va other l v o e = absurd (omega arith)

pub page-Parts :
    (level va other : ℕ)
    → level ≤ 2
    → va ≤ max_va
    → other ≤ max_va
    → va / level_page_size level ≢ other / level_page_size level
    → Parts 2 level va other
unfolding level_idx
page-Parts zero va other l v o ne = elim (ℕ_discrete (level_idx 2 va) (level_idx 2 other)) [
  | no n ↦ inl n
  | yes e ↦ elim (ℕ_discrete (level_idx 1 va) (level_idx 1 other)) [
    | no n ↦ inr (e, omega arith, inl n)
    | yes e' ↦ inr (e, omega arith, inr (e', omega arith, λ q. ne (omega arith)))
  ]
]
page-Parts (suc zero) va other l v o ne = elim (ℕ_discrete (level_idx 2 va) (level_idx 2 other)) [
  | no n ↦ inl n
  | yes e ↦ inr (e, omega arith, inl (λ q. ne (omega arith)))
]
page-Parts (suc (suc zero)) va other l v o ne = inl (λ q. ne (omega arith))
page-Parts (suc (suc (suc n))) va other l v o ne = absurd (omega arith)

-- The page that a target names, and the one that an entry has.
abbrev pub Gets : MapTarget → ℕ → Type 0
Gets (allocated_addr zeroed new) w = Unit {0}
Gets (fixed_addr pa) w = phys_page_num w ≡ pa / page_size

-- A lookup finds nothing before, and afterwards a leaf of the level with the permissions.
abbrev pub Maps :
    (level other : ℕ) → MapTarget → (perm : ℕ) → Outcome (ℕ × ℕ) → Outcome (ℕ × ℕ) → Type 0
Maps level other target perm old new =
    (old ≡ err (virtual_page_not_mapped other))
    × (w : ℕ) × (new ≡ ok (level, w))
    × (flags w ≡ insert flag_v perm)
    × Gets target w

-- The page may be there already only if the target allows it, and with the same permissions.
abbrev pub MapsOrKeeps :
    (level other : ℕ) → MapTarget → (perm : ℕ) → Outcome (ℕ × ℕ) → Outcome (ℕ × ℕ) → Type 0
MapsOrKeeps level other target perm old new =
    Maps level other target perm old new ⊎ ((allocate_new target ≡ false) × (new ≡ old))

abbrev pub IsTarget : MapTarget → Type 0
IsTarget (allocated_addr zeroed new) = Unit {0}
IsTarget (fixed_addr pa) = pa < usize_end

pub insert_v_lem :
    (perm : ℕ)
    → perm < 1024
    → (insert flag_v perm < 1024)
      × (has flag_v (insert flag_v perm) ≡ true)
      × (has_rwx (insert flag_v perm) ≡ has_rwx perm)
insert_v_lem perm p = elim (Bool-cases (has flag_v perm)) [
  | inl valid ↦ rw (insert, valid) (p, valid, refl)
  | inr invalid ↦
      let e2 : ((perm + 1) / 2 ≡ perm / 2) = ground (arith, invalid) in
      let e4 : ((perm + 1) / 4 ≡ perm / 4) = ground (arith, invalid) in
      let e8 : ((perm + 1) / 8 ≡ perm / 8) = ground (arith, invalid) in
      rw (insert, invalid) (ground (arith, invalid), ground (arith, invalid), rw (e2, e4, e8) refl)
]

pub word_lem : (level other w : ℕ) → find_leaf level other (word w) ≡ leaf_word level other w
unfolding find_leaf
word_lem level other w = refl

pub new_leaf :
    (ppn perm : ℕ)
    → perm < 1024
    → (w : ℕ) × (new_entry ppn perm ≡ ok w) × (flags w ≡ perm) × (phys_page_num w ≡ ppn % 2 ^ 54)
unfolding new_entry
new_leaf ppn perm p = (ppn * 1024 % usize_end + perm, ground arith, omega arith, omega arith)

enter_page_lem :
    (level other w perm : ℕ) (target : MapTarget) (got : Outcome ℕ × Heap)
    → is_valid w ≡ false
    → perm < 1024
    → has_rwx perm ≡ true
    → ((pa : ℕ)
        → got.0 ≡ ok pa
        → (w : ℕ) → phys_page_num w ≡ pa / page_size % 2 ^ 54
        → Gets target w)
    → let r = enter_page w perm got in
      Effect
        (MapsOrKeeps level other target perm)
        r.0
        (find_leaf level other (word w))
        (find_leaf level other r.1)
enter_page_lem level other w perm target (err e, h) i p x g = refl
enter_page_lem level other w perm target (panicked, h) i p x g = refl
enter_page_lem level other w perm target (ok pa, h) i p x g =
    let (small, valid, rwx) = insert_v_lem perm p in
    let (w', made, fl, ppn) = new_leaf (pa / page_size) (insert flag_v perm) small in
    rw (enter_page, set_phys_page_num_lem w (pa / page_size) (insert flag_v perm) i valid, made)
      (inl (
        word_lem level other w ∙ rw i refl,
        w',
        word_lem level other w' ∙ rw (is_leaf, fl, valid, rwx, x) refl,
        fl,
        g pa refl w' ppn,
      ))

remap_lem :
    (level va other perm old : ℕ) (target : MapTarget) (v : Outcome (ℕ × ℕ))
    → Effect (MapsOrKeeps level other target perm) (remap va target perm old) v v
remap_lem level va other perm old target v = elim (Bool-cases (allocate_new target)) [
  | inl new ↦ rw new refl
  | inr may ↦ elim (Bool-cases (perm == urwx old)) [
    | inl same ↦ rw (remap, may, same) (inr (may, refl))
    | inr differ ↦ rw (may, differ) refl
  ]
]

map_entry_lem :
    (level va other perm : ℕ) (target : MapTarget)
    → perm < 1024
    → has_rwx perm ≡ true
    → IsTarget target
    → (e : PtEntry) (h : Heap)
    → let r = map_entry level va target perm e h in
      Effect
        (MapsOrKeeps level other target perm)
        r.0
        (find_leaf level other e)
        (find_leaf level other r.1)
unfolding map_entry
map_entry_lem level va other perm target p x t (table pa es) h =
    remap_lem level va other perm flag_v target (find_leaf level other (table pa es))
map_entry_lem level va other perm target p x t (word w) h = elim (Bool-cases (is_valid w)) [
  | inl valid ↦
      rw (map_entry, valid)
        (remap_lem level va other perm (flags w) target (find_leaf level other (word w)))
  | inr invalid ↦
      rw (map_entry, invalid)
        (enter_page_lem level other w perm target (get_or_allocate target level h) invalid p x
          (gets target t))
]
  where
    gets :
        (target : MapTarget)
        → IsTarget target
        → (pa : ℕ) → (get_or_allocate target level h).0 ≡ ok pa
        → (w : ℕ) → phys_page_num w ≡ pa / page_size % 2 ^ 54
        → Gets target w
    gets (allocated_addr zeroed new) t pa e w q = tt
    gets (fixed_addr pa') t pa e w q = let same : pa' ≡ pa = cc (e) in omega (arith, same, q, t)

-- At the levels 0, 1 and 2, for addresses up to `VirtAddr::MAX`, flags below 2 ^ 10 and a physical
-- address below 2 ^ 64: `map_page` changes no lookup outside of the page. If it succeeds, then an
-- address of the page, where nothing was found, has a leaf of the level with the permissions and
-- the page of the target; only a target that allows it may find the page there already, and then
-- nothing changes. If it fails, with whatever tables it has made, no lookup is changed.
pub map_page_lem :
    (level va other perm : ℕ) (target : MapTarget) (es : Entries) (h : Heap)
    → level ≤ 2
    → va ≤ max_va
    → other ≤ max_va
    → perm < 1024
    → IsTarget target
    → let r = map_page level va target perm es h in
      ((va / level_page_size level ≢ other / level_page_size level)
        → find_leaf_entry other r.1 ≡ find_leaf_entry other es)
      × ((va / level_page_size level ≡ other / level_page_size level)
          → Effect
              (MapsOrKeeps level other target perm)
              r.0
              (find_leaf_entry other es)
              (find_leaf_entry other r.1))
unfolding map_page find_leaf_entry
map_page_lem level va other perm target es h l v o p t = elim (Bool-cases (has_rwx perm)) [
  | inr none_of ↦ rw (map_page, none_of) (λ ne. refl, λ e. refl)
  | inl x ↦
      rw (map_page, x)
        (
          λ ne.
              with_leaf-Parts 2 level va other (map_entry level va target perm) es h
                (page-Parts level va other l v o ne),
          λ e.
              with_leaf-Same (MapsOrKeeps level other target perm) 2 level va other
                (map_entry level va target perm) es h
                (map_entry_lem level va other perm target p x t) l
                (page-Same level va other l v o e),
        )
]
