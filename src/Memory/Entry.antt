-- ===== src/Memory/Entry.antt =====
-- crates/kernel/ov6_kernel/src/memory/page_table/entry.rs: the words of a page table.
-- The flags are the ten low bits, the physical page number is above them.
use ov.Prelude.{
  ℕ, ◌+◌, ◌-◌, ◌*◌, ◌/◌, ◌%◌, ◌^◌, ◌<◌, ◌≡◌, refl, ap, inl, inr, Bool, true, false, ◌&&◌, ◌||◌,
  arith, ◌==◌, ltb, if◌then◌else◌, ==→eq, Bool-cases,
}
use ov.Memory.{Outcome, ok, panicked, page_size, usize_end}

abbrev pub flag_v : ℕ
flag_v = 1

abbrev pub flag_r : ℕ
flag_r = 2

abbrev pub flag_w : ℕ
flag_w = 4

abbrev pub flag_x : ℕ
flag_x = 8

abbrev pub flag_u : ℕ
flag_u = 16

abbrev pub flag_c : ℕ
flag_c = 256

-- `contains`, of one flag
abbrev pub has : ℕ → ℕ → Bool
has flag flags = flags / flag % 2 == 1

-- `insert`, of one flag
abbrev pub insert : ℕ → ℕ → ℕ
insert flag flags = if has flag flags then flags else flags + flag

-- `remove`, of one flag
abbrev pub remove : ℕ → ℕ → ℕ
remove flag flags = if has flag flags then flags - flag else flags

-- `intersects(RWX)`
abbrev pub has_rwx : ℕ → Bool
has_rwx flags = has flag_r flags || (has flag_w flags || has flag_x flags)

-- `& URWX`
abbrev pub urwx : ℕ → ℕ
urwx flags = flags / 2 % 16 * 2

-- `PtEntry::new`
unfoldable pub new_entry : ℕ → ℕ → Outcome ℕ
new_entry ppn flags = if ltb flags 1024 then ok (ppn * 1024 % usize_end + flags) else panicked

abbrev pub phys_page_num : ℕ → ℕ
phys_page_num w = w / 1024

abbrev pub phys_addr : ℕ → ℕ
phys_addr w = phys_page_num w * page_size % usize_end

abbrev pub flags : ℕ → ℕ
flags w = w % 1024

abbrev pub is_valid : ℕ → Bool
is_valid w = has flag_v (flags w)

abbrev pub is_leaf : ℕ → Bool
is_leaf w = is_valid w && has_rwx (flags w)

-- `set_phys_page_num`
unfoldable pub set_phys_page_num : ℕ → ℕ → ℕ → Outcome ℕ
set_phys_page_num w ppn perm =
    if is_valid w then panicked else if has flag_v perm then new_entry ppn perm else panicked

-- `make_copy_on_write`
unfoldable pub make_copy_on_write : ℕ → Outcome ℕ
make_copy_on_write w =
    if has flag_w (flags w)
    then new_entry (phys_page_num w) (insert flag_c (remove flag_w (flags w)))
    else ok w

-- An entry that is made of a page number of a physical address and of flags gives both back, and it
-- is valid or a leaf as its flags say.
pub new_entry_lem :
    (ppn perm : ℕ)
    → ppn < 2 ^ 52
    → perm < 1024
    → (w : ℕ) × (new_entry ppn perm ≡ ok w)
      × (phys_page_num w ≡ ppn)
      × (phys_addr w ≡ ppn * page_size)
      × (flags w ≡ perm)
unfolding new_entry
new_entry_lem ppn perm hp hf =
    (ppn * 1024 % usize_end + perm, ground arith, omega arith, omega arith, omega arith)

pub set_phys_page_num_lem :
    (w ppn perm : ℕ)
    → is_valid w ≡ false
    → has flag_v perm ≡ true
    → set_phys_page_num w ppn perm ≡ new_entry ppn perm
unfolding set_phys_page_num
set_phys_page_num_lem w ppn perm h hv = rw (h, hv) refl

-- Entries that differ by what is taken from and added to their flags.
marked :
    (w f : ℕ)
    → w < 2 ^ 62
    → f < 1024
    → (f / 4 % 2 ≡ 0)
    → (f / 2 % 2 ≡ w % 1024 / 2 % 2)
    → (f / 16 % 2 ≡ w % 1024 / 16 % 2)
    → (f % 2 ≡ w % 1024 % 2)
    → (w' : ℕ) × (new_entry (phys_page_num w) f ≡ ok w')
      × (phys_page_num w' ≡ phys_page_num w)
      × (has flag_w (flags w') ≡ false)
      × (has flag_r (flags w') ≡ has flag_r (flags w))
      × (has flag_u (flags w') ≡ has flag_u (flags w))
      × (is_valid w' ≡ is_valid w)
marked w f h hf e4 e2 e16 e1 =
    let (w', made, ppn, _, fl) = new_entry_lem (phys_page_num w) f (omega arith) hf in
    (
      w',
      made,
      ppn,
      rw (fl, e4) refl,
      ap (λ x. x == 1) (omega (arith, fl, e2)),
      ap (λ x. x == 1) (omega (arith, fl, e16)),
      ap (λ x. x == 1) (omega (arith, fl, e1)),
    )

-- Making a page copy-on-write keeps the physical page and takes the permission to write away; what
-- was not writable is left as it is. It never panics.
pub make_copy_on_write_lem :
    (w : ℕ)
    → w < 2 ^ 62
    → (w' : ℕ) × (make_copy_on_write w ≡ ok w')
      × (phys_page_num w' ≡ phys_page_num w)
      × (has flag_w (flags w') ≡ false)
      × (has flag_r (flags w') ≡ has flag_r (flags w))
      × (has flag_u (flags w') ≡ has flag_u (flags w))
      × (is_valid w' ≡ is_valid w)
unfolding make_copy_on_write
make_copy_on_write_lem w h = elim (Bool-cases (has flag_w (flags w))) [
  | inr ro ↦ (w, ground arith, refl, ro, refl, refl, refl)
  | inl writable ↦
      let bit = ==→eq (w % 1024 / 4 % 2) 1 writable in
      elim (Bool-cases (has flag_c (remove flag_w (flags w)))) [
        | inl cow ↦
            rw (insert, cow, writable)
              (marked w (w % 1024 - 4) h (omega arith) (omega (arith, bit)) (omega (arith, bit))
                (omega (arith, bit)) (omega (arith, bit)))
        | inr fresh ↦
            rw (insert, fresh, writable)
              (marked w (w % 1024 - 4 + 256) h (ground (arith, fresh, writable))
                (omega (arith, bit)) (omega (arith, bit)) (omega (arith, bit)) (omega (arith, bit)))
      ]
]
