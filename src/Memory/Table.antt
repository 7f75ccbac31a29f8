-- ===== src/Memory/Table.antt =====
-- crates/kernel/ov6_kernel/src/memory/page_table/mod.rs: page tables as trees, since every table
-- below the root is owned by the one entry that points to it.
pub mod Path
use ov.Prelude.{
  ℕ, zero, suc, ◌+◌, ◌-◌, ◌*◌, ◌/◌, ◌%◌, ◌^◌, ◌≤◌, ◌<◌, ◌≡◌, refl, subst, sym, ap, ◌∙◌, ◌≢◌, ◌⊎◌,
  inl, inr, Bool, true, false, ◌&&◌, ◌||◌, not, Option, none, some, List, [], ◌∷◌, ◌++◌, map, arith,
  length, length-append, length-set, get_or, set, get_or-set_self, get_or-set_ne, get_elem?, take,
  drop, replicate, All, Fresh, Distinct, Run, done, panic, assert, checked_minus, put, put_self,
  put_ne, ◌==◌, ltb, leb, if◌then◌else◌, ltb→lt, lt→ltb, leb→le, le→leb, ==→eq, ==_refl, ==_ne,
  Bool-cases, Option-cases,
}
use ov.Memory.{
  Outcome, ok, err, panicked, ◌>>=◌, page_size, level_page_size, usize_end, KernelError,
  virtual_page_not_mapped, virtual_address_with_unexpected_perm,
}
use ov.Memory.Addr.{level_idx, byte_add, is_level_page_aligned}
use ov.Memory.Entry.{
  flag_v, has_rwx, urwx, insert, is_valid, is_leaf, flags, set_phys_page_num, new_entry,
}
use ov.Memory.Pages.{Heap, alloc, alloc_table}

-- `PtEntry`: a word that points to no table, or the table that it points to, at its address.
pub data PtEntry : Type 0 where
  word : ℕ → PtEntry
  table : ℕ → (ℕ → PtEntry) → PtEntry

-- `PageTableEntries`
abbrev pub Entries : Type 0
Entries = ℕ → PtEntry

abbrev pub zeroed_entries : Entries
zeroed_entries i = word 0

-- `MapTarget`
pub data MapTarget : Type 0 where
  allocated_addr : Bool → Bool → MapTarget
  fixed_addr : ℕ → MapTarget

-- A result, with the entry or the entries and the pages as they are left.
abbrev pub Changed : Type 0 → Type 0
Changed S = Outcome (Unit {0}) × S × Heap

-- A round of `find_or_create_leaf`: the table that an entry points to, a new one if it is not valid.
unfoldable pub open_table : PtEntry → Heap → Outcome (ℕ × Entries) × Heap
open_table (table pa es) h = (ok (pa, es), h)
open_table (word w) h =
    let (made, h') = alloc_table h in
    if is_valid w then (panicked, h) else (do pa ← made; ok (pa, zeroed_entries), h')

abbrev pub act_on : ℕ → (PtEntry → Heap → Changed PtEntry) → Entries → Heap → Changed Entries
act_on idx act es h = let (res, e, h') = act (es idx) h in (res, put es idx e, h')

-- What is done with the leaf that `find_or_create_leaf` finds at `level`, from the table of level `top`.
unfoldable pub with_leaf :
    (top level va : ℕ) → (PtEntry → Heap → Changed PtEntry) → Entries → Heap → Changed Entries
with_leaf zero level va act es h = act_on (level_idx 0 va) act es h
with_leaf (suc top) level va act es h = elim (suc top == level) [
  | true ↦ act_on (level_idx (suc top) va) act es h
  | false ↦
      let (opened, h') = open_table (es (level_idx (suc top) va)) h in
      elim opened [
        | ok (pa, below) ↦
            let (res, below', h'') = with_leaf top level va act below h' in
            (res, put es (level_idx (suc top) va) (table pa below'), h'')
        | err e ↦ (err e, es, h')
        | panicked ↦ (panicked, es, h')
      ]
]

-- `MapTarget::allocate_new`
abbrev pub allocate_new : MapTarget → Bool
allocate_new (allocated_addr zeroed new) = new
allocate_new (fixed_addr pa) = true

-- `MapTarget::get_or_allocate`
abbrev pub get_or_allocate : MapTarget → ℕ → Heap → Outcome ℕ × Heap
get_or_allocate (allocated_addr zeroed new) level h =
    if level == 0 then alloc zeroed h else (panicked, h)
get_or_allocate (fixed_addr pa) level h = (ok pa, h)

-- `set_phys_page_num` on the entry, for the page that was got.
abbrev pub enter_page : ℕ → ℕ → Outcome ℕ × Heap → Changed PtEntry
enter_page w perm (ok pa, h) = elim (set_phys_page_num w (pa / page_size) (insert flag_v perm)) [
  | ok w' ↦ (ok tt, word w', h)
  | err e ↦ (err e, word w, h)
  | panicked ↦ (panicked, word w, h)
]
enter_page w perm (err e, h) = (err e, word w, h)
enter_page w perm (panicked, h) = (panicked, word w, h)

-- What `map_page` finds in an entry that is valid.
abbrev pub remap : ℕ → MapTarget → ℕ → ℕ → Outcome (Unit {0})
remap va target perm old =
    if allocate_new target
    then panicked
    else if perm == urwx old
    then ok tt
    else err (virtual_address_with_unexpected_perm va perm (urwx old))

-- What `map_page` does with the entry.
unfoldable pub map_entry : (level va : ℕ) → MapTarget → ℕ → PtEntry → Heap → Changed PtEntry
map_entry level va target perm (word w) h =
    if is_valid w
    then (remap va target perm (flags w), word w, h)
    else enter_page w perm (get_or_allocate target level h)
map_entry level va target perm (table pa es) h = (remap va target perm flag_v, table pa es, h)

-- `PageTableEntries::map_page`
unfoldable pub map_page : (level va : ℕ) → MapTarget → ℕ → Entries → Heap → Changed Entries
map_page level va target perm es h =
    if has_rwx perm
    then with_leaf 2 level va (map_entry level va target perm) es h
    else (panicked, es, h)

-- A word that is valid and no leaf points to no table of this code.
abbrev pub leaf_word : (level va : ℕ) → ℕ → Outcome (ℕ × ℕ)
leaf_word level va w =
    if not (is_valid w)
    then err (virtual_page_not_mapped va)
    else if is_leaf w
    then ok (level, w)
    else panicked

-- The rounds of `find_leaf_entry` from an entry of a level
unfoldable pub find_leaf : (level va : ℕ) → PtEntry → Outcome (ℕ × ℕ)
find_leaf level va (word w) = leaf_word level va w
find_leaf zero va (table pa below) = panicked
find_leaf (suc level) va (table pa below) = find_leaf level va (below (level_idx level va))

-- `PageTable::find_leaf_entry`
unfoldable pub find_leaf_entry : ℕ → Entries → Outcome (ℕ × ℕ)
find_leaf_entry va es = find_leaf 2 va (es (level_idx 2 va))
