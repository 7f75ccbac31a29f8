-- ===== src/Syscall.antt =====
-- crates/common/ov6_syscall/src: how the values of a system call travel in registers. `Register<T, N>`
-- is `Regs N`; a register is a number below 2 ^ 64.
pub mod Values
pub mod Errors
pub mod Codecs
pub mod Compound
pub mod Calls
pub mod Dispatch
pub mod RoundTrip
pub mod Tests
use ov.Prelude.{ℕ, zero, suc, ◌^◌, ◌<◌, ◌≡◌}
use ov.Prelude.Int.{ℤ, pos, negsuc}

abbrev pub word : ℕ
word = 2 ^ 64

abbrev pub IsWord : ℕ → Type 0
IsWord n = n < word

-- `RegisterDecodeError`
pub data RegisterDecodeError : Type 0 where
  int_conversion : RegisterDecodeError
  invalid_syscall_error_no : ℤ → RegisterDecodeError
  invalid_open_flags : ℕ → RegisterDecodeError
  invalid_designator : ℕ → RegisterDecodeError
  unexpected_zero : RegisterDecodeError

-- The outcome of `try_decode`: a value, an error, or a panic on the way.
pub data Decoded (A : Type 0) : Type 0 where
  ok : A → Decoded A
  err : RegisterDecodeError → Decoded A
  panicked : Decoded A

infixl 5 ◌>>=◌
abbrev pub ◌>>=◌ : {A B : Type 0} → Decoded A → (A → Decoded B) → Decoded B
ok a >>= f = f a
err e >>= f = err e
panicked >>= f = panicked

abbrev pub Regs : ℕ → Type 0
Regs zero = Unit {0}
Regs (suc zero) = ℕ
Regs (suc (suc zero)) = ℕ × ℕ
Regs (suc (suc (suc zero))) = ℕ × ℕ × ℕ
Regs (suc (suc (suc (suc n)))) = ℕ × ℕ × ℕ × ℕ

-- `impl RegisterValue for V` with `n` registers: the two functions, the values that the Rust type
-- has, and the promise that decoding undoes encoding.
pub record RegisterValue (n : ℕ) (V : Type 0) : Type 1 where
  pub encode : V → Regs n
  pub try_decode : Regs n → Decoded V
  pub IsValue : V → Type 0
  pub decode-encode : (v : V) → IsValue v → try_decode (encode v) ≡ ok v
