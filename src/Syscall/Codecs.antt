-- ===== src/Syscall/Codecs.antt =====
-- The values are `RegisterValue`s: decoding undoes encoding.
use ov.Prelude.{ℕ, ◌^◌, ◌<◌, ◌≡◌, refl, ap, true, Option, none, some, arith, lt→ltb, ==_ne}
use Prim.Native.Nat.{bit_and}
use ov.Prelude.Int.{ℤ, pos, negsuc, IsSigned, is_signed}
use ov.Syscall.{IsWord, Decoded, ok, Regs, RegisterValue}
use ov.Syscall.Values.{
  encode_usize, decode_usize, encode_isize, decode_isize, decode_unsigned, decode_signed,
  encode_nonzero, decode_nonzero, encode_proc_id, decode_proc_id, WaitTarget, any_process, process,
  encode_wait_target, decode_wait_target, open_flags, ok_or_invalid, open_flags_from_bits,
  decode_open_flags, SocketAddrV4, encode_socket_addr, decode_socket_addr, Duration, nanos_per_sec,
  new_duration, encode_duration, decode_duration, UserSlice, encode_slice, decode_slice,
}
use ov.Syscall.Errors.{SyscallError, encode_error, decode_error, decode-encode_error}

pub usize_lem : (n : ℕ) → IsWord n → decode_usize (encode_usize n) ≡ ok n
unfolding decode_usize encode_usize
usize_lem n h = refl

pub isize_lem : (z : ℤ) → IsSigned 63 z → decode_isize (encode_isize z) ≡ ok z
unfolding decode_isize encode_isize
isize_lem (pos n) h = ground arith
isize_lem (negsuc n) h = ground arith

pub unsigned_lem : (w n : ℕ) → n < 2 ^ w → decode_unsigned w (encode_usize n) ≡ ok n
unfolding decode_unsigned decode_usize encode_usize
unsigned_lem w n h = rw (lt→ltb n (2 ^ w) h)

pub is_signed_lem : (w : ℕ) (z : ℤ) → IsSigned w z → is_signed w z ≡ true
is_signed_lem w (pos n) h = lt→ltb n (2 ^ w) h
is_signed_lem w (negsuc n) h = lt→ltb n (2 ^ w) h

pub signed_lem :
    (w : ℕ) (z : ℤ) → IsSigned 63 z → IsSigned w z → decode_signed w (encode_isize z) ≡ ok z
unfolding decode_signed
signed_lem w z wide h = rw (isize_lem z wide, is_signed_lem w z h)

-- What a `NonZero<u…>` of `w` bits can be.
abbrev pub IsNonZero : ℕ → ℕ → Type 0
IsNonZero w n = (0 < n) × (n < 2 ^ w)

abbrev pub IsOptional : (ℕ → Type 0) → Option ℕ → Type 0
IsOptional P none = Unit {0}
IsOptional P (some n) = P n

pub nonzero_lem :
    (decode : Regs 1 → Decoded ℕ) (w : ℕ)
    → ((n : ℕ) → n < 2 ^ w → decode (encode_usize n) ≡ ok n)
    → (o : Option ℕ) → 0 < 2 ^ w
    → IsOptional (IsNonZero w) o
    → decode_nonzero decode (encode_nonzero o) ≡ ok o
unfolding decode_nonzero encode_nonzero
nonzero_lem decode w law none room h = rw (law 0 room)
nonzero_lem decode w law (some n) room (above, lt) = rw (law n lt, ==_ne n 0 (omega arith))

pub proc_id_lem : (n : ℕ) → IsNonZero 32 n → decode_proc_id (encode_proc_id n) ≡ ok n
unfolding decode_proc_id encode_proc_id
proc_id_lem n h =
    rw (nonzero_lem (decode_unsigned 32) 32 (unsigned_lem 32) (some n) (omega arith) h)

abbrev pub IsTarget : WaitTarget → Type 0
IsTarget any_process = Unit {0}
IsTarget (process n) = IsNonZero 32 n

pub wait_target_lem :
    (t : WaitTarget) → IsTarget t → decode_wait_target (encode_wait_target t) ≡ ok t
unfolding decode_wait_target encode_wait_target
wait_target_lem any_process h = refl
wait_target_lem (process n) h = rw (proc_id_lem n h)

-- An `OpenFlags` has no bits but the flags'.
abbrev pub IsOpenFlags : ℕ → Type 0
IsOpenFlags bits = bit_and bits open_flags ≡ bits

pub from_bits_lem : (f : ℕ) → IsOpenFlags f → open_flags_from_bits f ≡ some f
unfolding open_flags_from_bits
from_bits_lem f h = ground arith

pub open_flags_lem : (f : ℕ) → IsOpenFlags f → decode_open_flags (encode_usize f) ≡ ok f
unfolding decode_open_flags decode_usize encode_usize
open_flags_lem f h = ap (ok_or_invalid f) (from_bits_lem f h)

abbrev pub IsSocketAddr : SocketAddrV4 → Type 0
IsSocketAddr s = (s.ip < 2 ^ 32) × (s.port < 2 ^ 16)

pub socket_addr_lem :
    (s : SocketAddrV4) → IsSocketAddr s → decode_socket_addr (encode_socket_addr s) ≡ ok s
unfolding decode_socket_addr encode_socket_addr decode_usize
socket_addr_lem s h = ground arith

abbrev pub IsDuration : Duration → Type 0
IsDuration d = IsWord d.secs × (d.nanos < nanos_per_sec)

pub duration_lem : (d : Duration) → IsDuration d → decode_duration (encode_duration d) ≡ ok d
unfolding decode_duration encode_duration new_duration decode_usize encode_usize
duration_lem d h = rw (unsigned_lem 32 d.nanos (omega arith)) (ground arith)

pub slice_lem : (s : UserSlice) → decode_slice (encode_slice s) ≡ ok s
unfolding decode_slice encode_slice decode_usize encode_usize
slice_lem s = refl

-- The implementations of `RegisterValue`, one for each type of a system call's signature.
abbrev pub usize_value : RegisterValue 1 ℕ
usize_value = record {
  encode = encode_usize;
  try_decode = decode_usize;
  IsValue = IsWord;
  decode-encode = usize_lem;
}

abbrev pub isize_value : RegisterValue 1 ℤ
isize_value = record {
  encode = encode_isize;
  try_decode = decode_isize;
  IsValue = IsSigned 63;
  decode-encode = isize_lem;
}

abbrev pub unsigned_value : ℕ → RegisterValue 1 ℕ
unsigned_value w = record {
  encode = encode_usize;
  try_decode = decode_unsigned w;
  IsValue = λ n. n < 2 ^ w;
  decode-encode = unsigned_lem w;
}

pub i32_lem : (z : ℤ) → IsSigned 31 z → decode_signed 31 (encode_isize z) ≡ ok z
i32_lem (pos n) h = signed_lem 31 (pos n) (omega arith) h
i32_lem (negsuc n) h = signed_lem 31 (negsuc n) (omega arith) h

abbrev pub i32_value : RegisterValue 1 ℤ
i32_value = record {
  encode = encode_isize;
  try_decode = decode_signed 31;
  IsValue = IsSigned 31;
  decode-encode = i32_lem;
}

abbrev pub error_value : RegisterValue 1 SyscallError
error_value = record {
  encode = encode_error;
  try_decode = decode_error;
  IsValue = λ e. Unit {0};
  decode-encode = λ e _. decode-encode_error e;
}

abbrev pub proc_id_value : RegisterValue 1 ℕ
proc_id_value = record {
  encode = encode_proc_id;
  try_decode = decode_proc_id;
  IsValue = IsNonZero 32;
  decode-encode = proc_id_lem;
}

abbrev pub optional_proc_id_value : RegisterValue 1 (Option ℕ)
optional_proc_id_value = record {
  encode = encode_nonzero;
  try_decode = decode_nonzero (decode_unsigned 32);
  IsValue = IsOptional (IsNonZero 32);
  decode-encode = λ o h. nonzero_lem (decode_unsigned 32) 32 (unsigned_lem 32) o (omega arith) h;
}

abbrev pub wait_target_value : RegisterValue 2 WaitTarget
wait_target_value = record {
  encode = encode_wait_target;
  try_decode = decode_wait_target;
  IsValue = IsTarget;
  decode-encode = wait_target_lem;
}

abbrev pub open_flags_value : RegisterValue 1 ℕ
open_flags_value = record {
  encode = encode_usize;
  try_decode = decode_open_flags;
  IsValue = IsOpenFlags;
  decode-encode = open_flags_lem;
}

abbrev pub socket_addr_value : RegisterValue 1 SocketAddrV4
socket_addr_value = record {
  encode = encode_socket_addr;
  try_decode = decode_socket_addr;
  IsValue = IsSocketAddr;
  decode-encode = socket_addr_lem;
}

abbrev pub duration_value : RegisterValue 2 Duration
duration_value = record {
  encode = encode_duration;
  try_decode = decode_duration;
  IsValue = IsDuration;
  decode-encode = duration_lem;
}

abbrev pub slice_value : RegisterValue 2 UserSlice
slice_value = record {
  encode = encode_slice;
  try_decode = decode_slice;
  IsValue = λ s. IsWord s.addr × IsWord s.len;
  decode-encode = λ s _. slice_lem s;
}
