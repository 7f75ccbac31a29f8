-- ===== src/Memory.antt =====
-- crates/kernel/ov6_kernel/src/memory: addresses, page table entries, page tables and the pages that
-- they share. A `usize` is a number below 2 ^ 64.
pub mod Addr
pub mod Ranges
pub mod Entry
pub mod Table
pub mod Pages
pub mod Mapping
pub mod MapRange
pub mod MapRuns
pub mod MapLoop
pub mod MapParts
pub mod MapJoin
pub mod MapAll
pub mod Supply
pub mod Liveness
pub mod Cow
pub mod Writes
pub mod Tests
use ov.Prelude.{
  ℕ, zero, suc, ◌+◌, ◌-◌, ◌*◌, ◌/◌, ◌%◌, ◌^◌, ◌≤◌, ◌<◌, ◌≡◌, refl, subst, sym, ap, ◌∙◌, ◌≢◌, ◌⊎◌,
  inl, inr, Bool, true, false, ◌&&◌, ◌||◌, not, Option, none, some, List, [], ◌∷◌, ◌++◌, map, arith,
  length, length-append, length-set, get_or, set, get_or-set_self, get_or-set_ne, get_elem?, take,
  drop, replicate, All, Fresh, Distinct, Run, done, panic, assert, checked_minus, put, put_self,
  put_ne, ◌==◌, ltb, leb, if◌then◌else◌, ltb→lt, lt→ltb, leb→le, le→leb, ==→eq, ==_refl, ==_ne,
  Bool-cases, Option-cases,
}

-- The errors of `KernelError` that these modules return.
pub data KernelError : Type 0 where
  no_free_page : KernelError
  too_large_virtual_address : ℕ → KernelError
  virtual_address_underflow : KernelError
  virtual_page_not_mapped : ℕ → KernelError
  inaccessible_page : ℕ → KernelError
  virtual_address_with_unexpected_perm : ℕ → ℕ → ℕ → KernelError

-- `Result<A, KernelError>`, or a panic.
pub data Outcome (A : Type 0) : Type 0 where
  ok : A → Outcome A
  err : KernelError → Outcome A
  panicked : Outcome A

infixl 5 ◌>>=◌
abbrev pub ◌>>=◌ : {A B : Type 0} → Outcome A → (A → Outcome B) → Outcome B
ok a >>= f = f a
err e >>= f = err e
panicked >>= f = panicked

abbrev pub page_size : ℕ
page_size = 4096

-- `level_page_size`
abbrev pub level_page_size : ℕ → ℕ
level_page_size level = page_size * 2 ^ (level * 9)

abbrev pub usize_end : ℕ
usize_end = 2 ^ 64
