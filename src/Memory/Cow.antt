-- ===== src/Memory/Cow.antt =====
-- `PtEntry::request_user_write` of crates/kernel/ov6_kernel/src/memory/page_table/entry.rs, what a
-- write to a copy-on-write page does.
use ov.Prelude.{
  ℕ, ◌+◌, ◌-◌, ◌*◌, ◌/◌, ◌%◌, ◌^◌, ◌<◌, ◌≡◌, refl, ap, ◌∙◌, true, false, ◌&&◌, not, List, ◌∷◌,
  arith, put, ◌==◌, leb, if◌then◌else◌, ==→eq, ==_ne,
}
use ov.Memory.{inaccessible_page, Outcome, ok, err, panicked, ◌>>=◌, page_size, usize_end}
use ov.Memory.Entry.{
  flag_w, flag_u, flag_c, has, insert, remove, phys_page_num, phys_addr, flags, new_entry,
  new_entry_lem,
}
use ov.Memory.Pages.{Heap, in_heap, take_page, alloc, drop_page, non_shareable}

-- A result, with the entry and the pages as they are left.
abbrev pub Written : Type 0
Written = Outcome (Unit {0}) × ℕ × Heap

-- `*self = PtEntry::new(..)`
abbrev pub assign : ℕ → Outcome ℕ → Outcome (Unit {0}) × Heap → Written
assign w (ok w') (res, h) = (res, w', h)
assign w (err e) (res, h) = (err e, w, h)
assign w panicked (res, h) = (panicked, w, h)

-- The page is copied to the new one; without one, the temporary `Page` is dropped all the same.
abbrev pub copy_page : (w new_flags : ℕ) → Outcome ℕ × Heap → Written
copy_page w new_flags (ok p, h) =
    assign w (new_entry (p / page_size) new_flags)
      (drop_page (phys_addr w) (record h { bytes = put h.bytes p (h.bytes (phys_addr w)) }))
copy_page w new_flags (err e, h) =
    ((do dropped ← (drop_page (phys_addr w) h).0; err e), w, (drop_page (phys_addr w) h).1)
copy_page w new_flags (panicked, h) = (panicked, w, h)

unfoldable pub request_user_write : (level va w : ℕ) → Heap → Written
request_user_write level va w h =
    if has flag_u (flags w) && has flag_w (flags w)
    then (ok tt, w, h)
    else if not (has flag_u (flags w) && has flag_c (flags w))
    then (err (inaccessible_page va), w, h)
    else (let new_flags = insert flag_w (remove flag_c (flags w)) in
        if not (level == 0)
        then (panicked, w, h)
        else if not (in_heap h (phys_addr w))
        then (panicked, w, h)
        else if h.count (phys_addr w) == 1
        then assign w (new_entry (phys_page_num w) new_flags) (ok tt, h)
        else copy_page w new_flags (alloc false h))

-- A page that is mapped copy-on-write, and counted as often as it is shared.
pub record IsShared (w : ℕ) (h : Heap) : Type 0 where
  pub word : w < 2 ^ 62
  pub user : has flag_u (flags w) ≡ true
  pub cow : has flag_c (flags w) ≡ true
  pub read_only : has flag_w (flags w) ≡ false
  pub heap : in_heap h (phys_addr w) ≡ true
  pub counted : (0 < h.count (phys_addr w)) × (h.count (phys_addr w) < non_shareable)

pub new_flags_lem :
    (f : ℕ)
    → f < 1024
    → has flag_c f ≡ true
    → has flag_w f ≡ false
    → (insert flag_w (remove flag_c f) ≡ f - 256 + 4)
      × (f - 256 + 4 < 1024)
      × (has flag_w (f - 256 + 4) ≡ true)
      × (has flag_c (f - 256 + 4) ≡ false)
      × (has flag_u (f - 256 + 4) ≡ has flag_u f)
new_flags_lem f b c w =
    let bit_c = ==→eq (f / 256 % 2) 1 c in
    let bit_w : (f / 4 % 2 ≡ 0) = ground (arith, w) in
    let no_w : (has flag_w (f - 256) ≡ false) = ground (arith, w, bit_c) in
    (
      rw (remove, c, insert, no_w) refl,
      ground (arith, bit_c),
      ground (arith, w, bit_c),
      ground (arith, w, bit_c),
      ap (λ x. x == 1) (omega (arith, bit_w, bit_c)),
    )

-- An entry that the user may write, and that is no longer copy-on-write.
abbrev pub IsWritable : ℕ → Type 0
IsWritable w =
    (has flag_w (flags w) ≡ true) × (has flag_c (flags w) ≡ false) × (has flag_u (flags w) ≡ true)

-- The entry that is written for a physical page.
pub IsWritable-entry :
    (w ppn : ℕ) (h : Heap)
    → IsShared w h
    → ppn < 2 ^ 52
    → (w' : ℕ) × (new_entry ppn (insert flag_w (remove flag_c (flags w))) ≡ ok w')
      × (phys_addr w' ≡ ppn * page_size)
      × IsWritable w'
IsWritable-entry w ppn h i b =
    let (e, small, hw, hc, hu) = new_flags_lem (flags w) (omega arith) i.cow i.read_only in
    let (w', made, _, pa, fl) = new_entry_lem ppn (flags w - 256 + 4) b small in
    (w', rw e made, pa, (rw (fl, hw) refl, rw (fl, hc) refl, ap (has flag_u) fl ∙ hu ∙ i.user))

-- The path of the code to the count, which no guard leaves.
pub request_user_write-shared :
    (va w : ℕ) (h : Heap)
    → IsShared w h
    → request_user_write 0 va w h ≡ (
        let new_flags = insert flag_w (remove flag_c (flags w)) in
        if h.count (phys_addr w) == 1
        then assign w (new_entry (phys_page_num w) new_flags) (ok tt, h)
        else copy_page w new_flags (alloc false h))
unfolding request_user_write
request_user_write-shared va w h i =
    rw (request_user_write, i.user, i.read_only, i.cow, i.heap) refl

-- Dropping one of several references.
pub drop_page-shared :
    (pa : ℕ) (h : Heap)
    → in_heap h pa ≡ true
    → 1 < h.count pa
    → h.count pa < non_shareable
    → drop_page pa h ≡ (ok tt, record h { count = put h.count pa (h.count pa - 1) })
unfolding drop_page
drop_page-shared pa h i lo hi =
    let many : (leb (h.count pa) 1 ≡ false) = ground (arith, lo) in
    rw
      (
        drop_page,
        i,
        ==_ne (h.count pa) non_shareable (λ q. omega (arith, q, hi)),
        ==_ne (h.count pa) 0 (λ q. omega (arith, q, lo)),
        many,
      )
      refl

-- A page that `alloc` gives, with the count 0.
pub record IsFree (p : ℕ) (ps : List ℕ) (h : Heap) : Type 0 where
  pub first : h.free ≡ p ∷ ps
  pub heap : in_heap h p ≡ true
  pub unused : h.count p ≡ 0
  pub bound : p < usize_end
  pub aligned : p % page_size ≡ 0

abbrev pub allocated : ℕ → List ℕ → Heap → Heap
allocated p ps h = record h { free = ps; count = put h.count p 1; bytes = put h.bytes p (λ i. 5) }

pub alloc_lem :
    (p : ℕ) (ps : List ℕ) (h : Heap) → IsFree p ps h → alloc false h ≡ (ok p, allocated p ps h)
unfolding alloc
alloc_lem p ps h i = rw (alloc, take_page, i.first, i.heap, i.unused) refl
