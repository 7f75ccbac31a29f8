-- ===== src/Prelude/Int.antt =====
-- Signed integers over the native numbers. `negsuc n` is -(n + 1).
use Prim.Native.Nat.{ℕ, ◌^◌, ◌<◌}
use mathlib.Core.Bool.{Bool}
use ov.Prelude.Tests.{ltb}

pub data ℤ : Type 0 where
  pos : ℕ → ℤ
  negsuc : ℕ → ℤ

-- The values of a signed integer of `w + 1` bits.
abbrev pub IsSigned : ℕ → ℤ → Type 0
IsSigned w (pos n) = n < 2 ^ w
IsSigned w (negsuc n) = n < 2 ^ w

abbrev pub is_signed : ℕ → ℤ → Bool
is_signed w (pos n) = ltb n (2 ^ w)
is_signed w (negsuc n) = ltb n (2 ^ w)
