-- ===== src/Memory/Supply.antt =====
-- `map_page` where there are free pages.
use ov.Prelude.{
  ℕ, zero, suc, ◌/◌, ◌<◌, ◌≡◌, refl, sym, ◌∙◌, Bool, true, false, not, arith, if◌then◌else◌, ==_ne,
}
use ov.Memory.{virtual_page_not_mapped, Outcome, ok, err, panicked, page_size}
use ov.Memory.Addr.{level_idx}
use ov.Memory.Entry.{flag_v, has_rwx, insert, is_valid, is_leaf, set_phys_page_num_lem}
use ov.Memory.Pages.{Heap, take_page, alloc, alloc_table, non_shareable}
use ov.Memory.Table.{
  PtEntry, word, table, Entries, Changed, MapTarget, allocated_addr, fixed_addr, get_or_allocate,
  enter_page, map_entry, map_page, with_leaf, open_table, zeroed_entries, leaf_word, find_leaf,
  find_leaf_entry,
}
use ov.Memory.Mapping.{word_lem, insert_v_lem, new_leaf}

-- Some allocations in a row succeed, of pages or of tables, and what is left is enough for the rest.
abbrev pub Supplies : ℕ → (Heap → Type 0) → Heap → Type 0
Supplies zero Rest h = Rest h
Supplies (suc n) Rest h =
    (count fill : ℕ)
    → (p : ℕ) × (h' : Heap) × (take_page count fill h ≡ (ok p, h')) × Supplies n Rest h'

-- One page more than enough is enough.
abbrev pub IsMonotone : (Heap → Type 0) → Type 0
IsMonotone Rest = (h : Heap) → Supplies 1 Rest h → Rest h

Supplies-fewer :
    (Rest : Heap → Type 0) (n : ℕ) (h : Heap)
    → IsMonotone Rest
    → Supplies (suc n) Rest h
    → Supplies n Rest h
Supplies-fewer Rest zero h mono s = mono h s
Supplies-fewer Rest (suc n) h mono s = λ count fill.
    let (p, h', e, more) = s count fill in (p, h', e, Supplies-fewer Rest n h' mono more)

-- Enough for a number of pages, each with the two tables on the way to it.
abbrev pub Pages : ℕ → Heap → Type 0
Pages zero h = Unit {0}
Pages (suc n) h = Supplies 3 (Pages n) h

pub Pages-IsMonotone : (n : ℕ) → IsMonotone (Pages n)
Pages-IsMonotone zero h s = tt
Pages-IsMonotone (suc n) h s = λ count fill.
    let (p, h', e, more) = s count fill in
    (p, h', e, Supplies-fewer (Pages n) 2 h' (Pages-IsMonotone n) more)

-- A lookup that finds nothing at a word has met one that is not valid.
not_mapped_word :
    (level va w : ℕ) → leaf_word level va w ≡ err (virtual_page_not_mapped va) → is_valid w ≡ false
not_mapped_word level va w e = by_tests (is_valid w) (is_leaf w) e
  where
    by_tests :
        (valid leaf : Bool)
        → ◌≡◌ {A = Outcome (ℕ × ℕ)}
            (if not valid
              then err (virtual_page_not_mapped va)
              else if leaf
              then ok (level, w)
              else panicked)
            (err (virtual_page_not_mapped va))
        → valid ≡ false
    by_tests false leaf e = refl
    by_tests true true e = absurd (cc e)
    by_tests true false e = absurd (cc e)

-- A call that succeeds, and leaves enough for the rest.
abbrev pub Succeeds : {S : Type 0} → (Heap → Type 0) → Changed S → Type 0
Succeeds Rest r = (r.0 ≡ ok tt) × Rest r.2

-- Where a lookup finds nothing, a table is opened in which it finds nothing.
open_table-runs :
    (Rest : Heap → Type 0) (top va : ℕ) (e : PtEntry) (h : Heap)
    → IsMonotone Rest
    → Supplies (suc (suc top)) Rest h
    → find_leaf (suc top) va e ≡ err (virtual_page_not_mapped va)
    → (pa : ℕ) × (below : Entries) × ((open_table e h).0 ≡ ok (pa, below))
      × Supplies (suc top) Rest (open_table e h).1
      × (find_leaf top va (below (level_idx top va)) ≡ err (virtual_page_not_mapped va))
unfolding open_table alloc_table find_leaf
open_table-runs Rest top va (table pa es) h mono s e =
    (pa, es, refl, Supplies-fewer Rest (suc top) h mono s, e)
open_table-runs Rest top va (word w) h mono s e =
    let (p, h', taken, more) = s non_shareable 0 in
    (
      p,
      zeroed_entries,
      rw (open_table, alloc_table, taken, not_mapped_word (suc top) va w e) refl,
      rw (open_table, alloc_table, taken, not_mapped_word (suc top) va w e) more,
      refl,
    )

-- What is done with the leaf of an address where a lookup finds nothing succeeds, if it succeeds on
-- each entry that is not valid when there is a page left.
with_leaf-runs :
    (Rest : Heap → Type 0) (top va : ℕ) (act : PtEntry → Heap → Changed PtEntry) (es : Entries)
    (h : Heap)
    → IsMonotone Rest
    → Supplies (suc top) Rest h
    → find_leaf top va (es (level_idx top va)) ≡ err (virtual_page_not_mapped va)
    → ((w : ℕ) (h : Heap) → is_valid w ≡ false → Supplies 1 Rest h → Succeeds Rest (act (word w) h))
    → Succeeds Rest (with_leaf top 0 va act es h)
unfolding with_leaf find_leaf
with_leaf-runs Rest zero va act es h mono s e runs = at_entry (es (level_idx 0 va)) e
  where
    at_entry :
        (e : PtEntry)
        → find_leaf 0 va e ≡ err (virtual_page_not_mapped va)
        → Succeeds Rest (act e h)
    at_entry (word w) e = runs w h (not_mapped_word 0 va w (sym (word_lem 0 va w) ∙ e)) s
    at_entry (table pa es) e = absurd (cc e)
with_leaf-runs Rest (suc top) va act es h mono s e runs =
    let (pa, below, opened, more, nothing) =
      open_table-runs Rest top va (es (level_idx (suc top) va)) h mono s e in
    rw (with_leaf, ==_ne (suc top) 0 (λ q. omega (arith, q)), opened)
      (with_leaf-runs Rest top va act below (open_table (es (level_idx (suc top) va)) h).1 mono more
        nothing runs)

map_entry-runs :
    (Rest : Heap → Type 0) (va perm w : ℕ) (target : MapTarget) (h : Heap)
    → IsMonotone Rest
    → perm < 1024
    → is_valid w ≡ false
    → Supplies 1 Rest h
    → Succeeds Rest (map_entry 0 va target perm (word w) h)
unfolding map_entry alloc
map_entry-runs Rest va perm w target h mono p i s = rw (map_entry, i) (entered target)
  where
    enters : (pa : ℕ) (h' : Heap) → Rest h' → Succeeds Rest (enter_page w perm (ok pa, h'))
    enters pa h' left =
        let (small, valid, _) = insert_v_lem perm p in
        let (w', made, _, _) = new_leaf (pa / page_size) (insert flag_v perm) small in
        rw (enter_page, set_phys_page_num_lem w (pa / page_size) (insert flag_v perm) i valid, made)
          (refl, left)

    entered : (target : MapTarget) → Succeeds Rest (enter_page w perm (get_or_allocate target 0 h))
    entered (fixed_addr pa) = enters pa h (mono h s)
    entered (allocated_addr zeroed new) =
        let (p, h', taken, left) = s 1 (if zeroed then 0 else 5) in
        rw (get_or_allocate, alloc, taken) (enters p h' left)

-- Where a lookup finds nothing, and three pages can be allocated, `map_page` maps a page of level 0:
-- it neither fails nor panics, whichever tables on the way are missing.
pub map_page-runs :
    (Rest : Heap → Type 0) (va perm : ℕ) (target : MapTarget) (es : Entries) (h : Heap)
    → IsMonotone Rest
    → Supplies 3 Rest h
    → perm < 1024
    → has_rwx perm ≡ true
    → find_leaf_entry va es ≡ err (virtual_page_not_mapped va)
    → Succeeds Rest (map_page 0 va target perm es h)
unfolding map_page find_leaf_entry
map_page-runs Rest va perm target es h mono s p x e =
    rw (map_page, x)
      (with_leaf-runs Rest 2 va (map_entry 0 va target perm) es h mono s e
        (λ w h' i s'. map_entry-runs Rest va perm w target h' mono p i s'))
