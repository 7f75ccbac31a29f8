-- ===== src/Syscall/Values.antt =====
-- The values that take a register of their own, or two: crates/common/ov6_syscall/src/register.rs,
-- error.rs, and the types of lib.rs.
use ov.Prelude.{ℕ, ◌+◌, ◌-◌, ◌*◌, ◌/◌, ◌%◌, ◌^◌, ◌&&◌, Option, none, some, ◌==◌, ltb, if◌then◌else◌}
use Prim.Native.Nat.{bit_and}
use ov.Prelude.Int.{ℤ, pos, negsuc, is_signed}
use ov.Syscall.{
  word, int_conversion, invalid_open_flags, invalid_designator, unexpected_zero, Decoded, ok, err,
  panicked, ◌>>=◌, Regs,
}

-- `usize`, and the types that wrap one: `RawFd`, `UserRef<T>` and `UserMutRef<T>` by their address.
-- `u64` has the same bytes.
unfoldable pub encode_usize : ℕ → Regs 1
encode_usize n = n

unfoldable pub decode_usize : Regs 1 → Decoded ℕ
decode_usize a = ok a

-- `isize`, by `cast_unsigned` and `cast_signed`; `i64` has the same bytes.
unfoldable pub encode_isize : ℤ → Regs 1
encode_isize (pos n) = n
encode_isize (negsuc n) = word - (n + 1)

unfoldable pub decode_isize : Regs 1 → Decoded ℤ
decode_isize a = if ltb a (2 ^ 63) then ok (pos a) else ok (negsuc (word - a - 1))

-- `u8`, `u16` and `u32`: `impl_number!` with `usize`, at a width of `w` bits.
unfoldable pub decode_unsigned : ℕ → Regs 1 → Decoded ℕ
decode_unsigned w a = do n ← decode_usize a; if ltb n (2 ^ w) then ok n else err int_conversion

-- `i8`, `i16` and `i32`: `impl_number!` with `isize`, at a width of `w + 1` bits.
unfoldable pub decode_signed : ℕ → Regs 1 → Decoded ℤ
decode_signed w a = do n ← decode_isize a; if is_signed w n then ok n else err int_conversion

-- `Option<NonZero<u…>>`, over the number's own decoder: `some n` stands for an `n` that is not 0.
unfoldable pub encode_nonzero : Option ℕ → Regs 1
encode_nonzero none = encode_usize 0
encode_nonzero (some n) = encode_usize n

unfoldable pub decode_nonzero : (Regs 1 → Decoded ℕ) → Regs 1 → Decoded (Option ℕ)
decode_nonzero decode a = do n ← decode a; if n == 0 then ok none else ok (some n)

-- `ProcId`, a `NonZero<u32>`.
unfoldable pub encode_proc_id : ℕ → Regs 1
encode_proc_id pid = encode_nonzero (some pid)

unfoldable pub decode_proc_id : Regs 1 → Decoded ℕ
decode_proc_id a = do
  pid ← decode_nonzero (decode_unsigned 32) a
  elim pid [ none ↦ err unexpected_zero | some n ↦ ok n ]

pub data WaitTarget : Type 0 where
  any_process : WaitTarget
  process : ℕ → WaitTarget

unfoldable pub encode_wait_target : WaitTarget → Regs 2
encode_wait_target any_process = (0, 0)
encode_wait_target (process pid) = (1, encode_proc_id pid)

unfoldable pub decode_wait_target : Regs 2 → Decoded WaitTarget
decode_wait_target (a0, a1) =
    let pid = (do n ← decode_proc_id a1; ok (process n)) in
    if a0 == 0 && a1 == 0
    then ok any_process
    else if a0 == 1
    then pid
    else err (invalid_designator a0)

-- `OpenFlags`: the bits of the five flags.
abbrev pub open_flags : ℕ
open_flags = 0x000 + 0x001 + 0x002 + 0x200 + 0x400

-- `OpenFlags::from_bits`, which refuses a bit that is no flag's.
unfoldable pub open_flags_from_bits : ℕ → Option ℕ
open_flags_from_bits bits = if bit_and bits open_flags == bits then some bits else none

-- `ok_or(RegisterDecodeError::InvalidOpenFlags(bits))`
abbrev pub ok_or_invalid : ℕ → Option ℕ → Decoded ℕ
ok_or_invalid bits none = err (invalid_open_flags bits)
ok_or_invalid bits (some f) = ok f

unfoldable pub decode_open_flags : Regs 1 → Decoded ℕ
decode_open_flags a = do bits ← decode_usize a; ok_or_invalid bits (open_flags_from_bits bits)

-- `SocketAddrV4`: an address of 32 bits and a port of 16.
pub record SocketAddrV4 : Type 0 where
  pub ip : ℕ
  pub port : ℕ

-- `(hi << 32) | lo`, where `lo` is below 2 ^ 32.
unfoldable pub encode_socket_addr : SocketAddrV4 → Regs 1
encode_socket_addr s = s.ip * 2 ^ 32 + s.port

unfoldable pub decode_socket_addr : Regs 1 → Decoded SocketAddrV4
decode_socket_addr a = do
  v ← decode_usize a
  let hi = v / 2 ^ 32
  let lo = v % 2 ^ 32
  if ltb hi (2 ^ 32)
      then (if ltb lo (2 ^ 16) then ok (record { ip = hi; port = lo }) else err int_conversion)
      else panicked

-- `core::time::Duration`
pub record Duration : Type 0 where
  pub secs : ℕ
  pub nanos : ℕ

abbrev pub nanos_per_sec : ℕ
nanos_per_sec = 1_000_000_000

-- `Duration::new` carries whole seconds over, and panics if they overflow.
unfoldable pub new_duration : ℕ → ℕ → Decoded Duration
new_duration secs nanos =
    if ltb nanos nanos_per_sec
    then ok (record { secs = secs; nanos = nanos })
    else if ltb (secs + nanos / nanos_per_sec) word
    then ok (record { secs = secs + nanos / nanos_per_sec; nanos = nanos % nanos_per_sec })
    else panicked

unfoldable pub encode_duration : Duration → Regs 2
encode_duration d = (encode_usize d.secs, encode_usize d.nanos)

unfoldable pub decode_duration : Regs 2 → Decoded Duration
decode_duration (a0, a1) = do
  secs ← decode_usize a0
  nanos ← decode_unsigned 32 a1
  new_duration secs nanos

-- `UserSlice<T>` and `UserMutSlice<T>`
pub record UserSlice : Type 0 where
  pub addr : ℕ
  pub len : ℕ

unfoldable pub encode_slice : UserSlice → Regs 2
encode_slice s = (encode_usize s.addr, encode_usize s.len)

unfoldable pub decode_slice : Regs 2 → Decoded UserSlice
decode_slice (a0, a1) = do
  addr ← decode_usize a0
  len ← decode_usize a1
  ok (record { addr = addr; len = len })
