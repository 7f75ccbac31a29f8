-- ===== src/Memory/Writes.antt =====
-- User writes to pages that are copy-on-write.
use ov.Prelude.{
  ℕ, ◌-◌, ◌/◌, ◌<◌, ◌≡◌, refl, sym, ap, ◌∙◌, ◌≢◌, ◌⊎◌, inl, inr, false, List, [], arith, put,
  put_self, put_ne, ◌==◌, ==→eq, Bool-cases,
}
use ov.Memory.{no_free_page, ok, err, page_size}
use ov.Memory.Entry.{flag_w, flag_c, insert, remove, phys_page_num, phys_addr, flags}
use ov.Memory.Pages.{Heap, take_page, alloc}
use ov.Memory.Cow.{
  copy_page, request_user_write, IsShared, IsWritable, IsWritable-entry, request_user_write-shared,
  drop_page-shared, IsFree, allocated, alloc_lem,
}

-- What the pages are after a shared page is copied to a free one.
pub record IsCopied (pa p : ℕ) (h h' : Heap) : Type 0 where
  pub copied : h'.bytes p ≡ h.bytes pa
  pub kept : h'.bytes pa ≡ h.bytes pa
  pub own : h'.count p ≡ 1
  pub released : h'.count pa ≡ h.count pa - 1

shared_ne : (w p : ℕ) (ps : List ℕ) (h : Heap) → IsShared w h → IsFree p ps h → p ≢ phys_addr w
shared_ne w p ps h i f e =
    let zero_count : (h.count (phys_addr w) ≡ 0) = ap h.count (sym e) ∙ f.unused in
    omega (arith, zero_count, i.counted.0)

copy_page_lem :
    (w p : ℕ) (ps : List ℕ) (h : Heap)
    → IsShared w h
    → IsFree p ps h
    → 1 < h.count (phys_addr w)
    → (w' : ℕ) × (h' : Heap) × (copy_page w
          (insert flag_w (remove flag_c (flags w)))
          (alloc false h)
        ≡ (ok tt, w', h'))
      × (phys_addr w' ≡ p)
      × IsWritable w'
      × IsCopied (phys_addr w) p h h'
copy_page_lem w p ps h i f many =
    let ne = shared_ne w p ps h i f in
    let same_bytes = put_ne h.bytes p (λ i. 5) (phys_addr w) ne in
    let same_count = put_ne h.count p 1 (phys_addr w) ne in
    let (w', made, pa, writable) =
      IsWritable-entry w (p / page_size) h i (omega (arith, f.bound)) in
    let h2 = record (allocated p ps h) {
      bytes = put (put h.bytes p (λ i. 5)) p (put h.bytes p (λ i. 5) (phys_addr w));
    } in
    let dropped =
      drop_page-shared (phys_addr w) h2 i.heap (rw same_count many) (rw same_count i.counted.1) in
    (
      w',
      record h2 { count = put h2.count (phys_addr w) (h2.count (phys_addr w) - 1) },
      rw (alloc_lem p ps h f, copy_page, made, dropped) refl,
      pa ∙ omega (arith, f.aligned),
      writable,
      record {
        copied =
            put_self (put h.bytes p (λ i. 5)) p (put h.bytes p (λ i. 5) (phys_addr w)) ∙ same_bytes;
        kept =
            put_ne (put h.bytes p (λ i. 5)) p (put h.bytes p (λ i. 5) (phys_addr w)) (phys_addr w)
              ne
            ∙ same_bytes;
        own =
            put_ne (put h.count p 1) (phys_addr w) (put h.count p 1 (phys_addr w) - 1) p
              (λ q. ne (sym q))
            ∙ put_self h.count p 1;
        released =
            put_self (put h.count p 1) (phys_addr w) (put h.count p 1 (phys_addr w) - 1)
            ∙ ap (λ x. x - 1) same_count;
      },
    )

-- A user write to a page that is mapped copy-on-write, whose count is neither 0 nor that of a page
-- that is not shareable, makes the entry writable, if there is a free page, and does not panic. The
-- only owner keeps the page; an owner of a shared page gets a page of its own, which holds the same
-- bytes, while the shared one keeps its bytes and loses one reference.
pub request_user_write_lem :
    (va w p : ℕ) (ps : List ℕ) (h : Heap)
    → IsShared w h
    → IsFree p ps h
    → (w' : ℕ) × (h' : Heap) × (request_user_write 0 va w h ≡ (ok tt, w', h'))
      × IsWritable w'
      × (((h.count (phys_addr w) ≡ 1) × (phys_addr w' ≡ phys_addr w) × (h' ≡ h))
          ⊎ ((1 < h.count (phys_addr w)) × (phys_addr w' ≡ p) × IsCopied (phys_addr w) p h h'))
request_user_write_lem va w p ps h i f = elim (Bool-cases (h.count (phys_addr w) == 1)) [
  | inl one ↦
      let (w', made, pa, writable) =
        IsWritable-entry w (phys_page_num w) h i (omega (arith, i.word)) in
      (
        w',
        h,
        request_user_write-shared va w h i ∙ rw (one, made) refl,
        writable,
        inl (==→eq (h.count (phys_addr w)) 1 one, pa ∙ omega (arith, i.word), refl),
      )
  | inr more ↦
      let many : 1 < h.count (phys_addr w) = ground (arith, more, i.counted.0) in
      let (w', h', e, pa, writable, c) = copy_page_lem w p ps h i f many in
      (w', h', request_user_write-shared va w h i ∙ rw more e, writable, inr (many, pa, c))
]

-- Without a free page, a user write to a copy-on-write page that has more than one reference fails
-- and leaves the entry as it is, but it has dropped the reference that the entry stands for: the
-- count is one too small from then on.
pub request_user_write-no_page :
    (va w : ℕ) (h : Heap)
    → IsShared w h
    → 1 < h.count (phys_addr w)
    → h.free ≡ []
    → let r = request_user_write 0 va w h in
      (r.0 ≡ err no_free_page) × (r.1 ≡ w) × (r.2.count (phys_addr w) ≡ h.count (phys_addr w) - 1)
unfolding alloc
request_user_write-no_page va w h i many none_left =
    let shared : (h.count (phys_addr w) == 1) ≡ false = ground (arith, many) in
    rw
      (
        request_user_write-shared va w h i,
        shared,
        alloc,
        take_page,
        none_left,
        copy_page,
        drop_page-shared (phys_addr w) h i.heap many i.counted.1,
      )
      (refl, refl, put_self h.count (phys_addr w) (h.count (phys_addr w) - 1))
