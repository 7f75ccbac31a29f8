-- ===== src/Prelude/Panics.antt =====
-- Code that may panic: a failed `assert!`, an `unwrap` of nothing, or an overflow that the checked
-- arithmetic of the development profile traps.
use Prim.Native.Nat.{ℕ, ◌-◌}
use mathlib.Core.Bool.{Bool, true, false}
use ov.Prelude.Tests.{leb, if◌then◌else◌}

pub data Run {ℓ} (A : Type ℓ) : Type ℓ where
  done : A → Run A
  panic : Run A

infixl 5 ◌>>=◌ ◌>>◌
abbrev pub ◌>>=◌ {ℓ κ} : {A : Type ℓ} {B : Type κ} → Run A → (A → Run B) → Run B
done a >>= f = f a
panic >>= f = panic

abbrev pub ◌>>◌ {ℓ} : {B : Type ℓ} → Run (Unit {0}) → Run B → Run B
m >> k = m >>= λ _. k

abbrev pub assert : Bool → Run (Unit {0})
assert true = done tt
assert false = panic

-- `a - b` on `usize`, which traps below zero.
abbrev pub checked_minus : ℕ → ℕ → Run ℕ
checked_minus a b = if leb b a then done (a - b) else panic
