-- ===== src/FreeList.antt =====
-- The intrusive free list of crates/kernel/page_alloc and crates/kernel/slab_allocator: each free
-- block begins with a `Run`, which holds the address of the next free block.
use ov.Prelude.{
  ℕ, ◌≡◌, refl, subst, Option, none, some, List, [], ◌∷◌, arith, ◌==◌, if◌then◌else◌, Fresh,
}

-- The memory as the allocators see it: the `next` field of the `Run` at an address.
abbrev pub Memory : Type 0
Memory = ℕ → Option ℕ

-- `run.as_mut().next = v`
abbrev pub write_next : Memory → ℕ → Option ℕ → Memory
write_next m p v q = if p == q then v else m q

-- The list that starts at `head` runs through the addresses `xs` and ends.
abbrev pub Chain : Memory → Option ℕ → List ℕ → Type 0
Chain m head [] = head ≡ none
Chain m head (x ∷ xs) = (head ≡ some x) × Chain m (m x) xs

-- What two memories agree on along `xs` they agree on as a chain.
abbrev pub Agree : Memory → Memory → List ℕ → Type 0
Agree m n [] = Unit {0}
Agree m n (x ∷ xs) = (m x ≡ n x) × Agree m n xs

pub Chain-Agree :
    (m n : Memory) (head : Option ℕ) (xs : List ℕ)
    → Agree m n xs
    → Chain m head xs
    → Chain n head xs
Chain-Agree m n head [] a c = c
Chain-Agree m n head (x ∷ xs) (e, a) (here, c) =
    (here, Chain-Agree m n (n x) xs a (subst (λ h. Chain m h xs) e c))

pub Agree-write_next :
    (m : Memory) (p : ℕ) (v : Option ℕ) (xs : List ℕ) → Fresh p xs → Agree m (write_next m p v) xs
Agree-write_next m p v [] f = tt
Agree-write_next m p v (x ∷ xs) (ne, f) = (ground arith, Agree-write_next m p v xs f)

-- Writing the `Run` of a block that is not on the list, and putting it in front.
pub Chain-push :
    (m : Memory) (head : Option ℕ) (p : ℕ) (xs : List ℕ)
    → Fresh p xs
    → Chain m head xs
    → Chain (write_next m p head) (some p) (p ∷ xs)
Chain-push m head p xs f c =
    let e : write_next m p head p ≡ head = ground arith in
    (refl, rw e (Chain-Agree m (write_next m p head) head xs (Agree-write_next m p head xs f) c))
