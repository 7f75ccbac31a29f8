-- ===== src/Syscall/RoundTrip.antt =====
-- A system call from the user's registers to the kernel and back: what `Dispatch` does with
-- registers that the user library made, and with any others.
use ov.Prelude.{
  ℕ, zero, suc, ◌+◌, ◌-◌, ◌/◌, ◌^◌, ◌≤◌, ◌<◌, ◌≡◌, refl, ap, ◌∙◌, none, some, arith, done, panic,
}
use ov.Syscall.{word, ok, panicked, Regs}
use ov.Syscall.Values.{nanos_per_sec, new_duration, decode_duration, decode_usize, decode_unsigned}
use ov.Syscall.Calls
use ov.Syscall.Calls.{SyscallCode, Arg, arg_regs, arg_value, Return, return_regs, return_value}
use ov.Syscall.Dispatch.{
  UserRegisters, load, take_regs, to_return_value, store, code_number, from_repr, Handlers, answer,
  handle, dispatch, syscall, call_registers, call_result,
}

from_repr-code_number : (c : SyscallCode) → from_repr (code_number c) ≡ some c
unfolding from_repr code_number
from_repr-code_number Calls.fork = refl
from_repr-code_number Calls.exit = refl
from_repr-code_number Calls.wait = refl
from_repr-code_number Calls.pipe = refl
from_repr-code_number Calls.read = refl
from_repr-code_number Calls.kill = refl
from_repr-code_number Calls.exec = refl
from_repr-code_number Calls.fstat = refl
from_repr-code_number Calls.chdir = refl
from_repr-code_number Calls.dup = refl
from_repr-code_number Calls.sbrk = refl
from_repr-code_number Calls.sleep = refl
from_repr-code_number Calls.«open» = refl
from_repr-code_number Calls.write = refl
from_repr-code_number Calls.mknod = refl
from_repr-code_number Calls.unlink = refl
from_repr-code_number Calls.link = refl
from_repr-code_number Calls.mkdir = refl
from_repr-code_number Calls.close = refl
from_repr-code_number Calls.alarm_set = refl
from_repr-code_number Calls.alarm_clear = refl
from_repr-code_number Calls.signal_return = refl
from_repr-code_number Calls.bind = refl
from_repr-code_number Calls.unbind = refl
from_repr-code_number Calls.recv = refl
from_repr-code_number Calls.send = refl
from_repr-code_number Calls.get_system_info = refl
from_repr-code_number Calls.reboot = refl
from_repr-code_number Calls.halt = refl
from_repr-code_number Calls.abort = refl
from_repr-code_number Calls.trace = refl
from_repr-code_number Calls.dump_kernel_page_table = refl
from_repr-code_number Calls.dump_user_page_table = refl

take_regs-load :
    (n k : ℕ) (r : Regs n) (ur : UserRegisters) → take_regs n (record (load n r ur) { a7 = k }) ≡ r
unfolding take_regs load
take_regs-load zero k r ur = refl
take_regs-load (suc zero) k r ur = refl
take_regs-load (suc (suc zero)) k (r0, r1) ur = refl
take_regs-load (suc (suc (suc zero))) k (r0, r1, r2) ur = refl
take_regs-load (suc (suc (suc (suc n)))) k (r0, r1, r2, r3) ur = refl

take_regs-store :
    (c : SyscallCode) (r : Regs (return_regs c)) (ur : UserRegisters)
    → take_regs (return_regs c) (store (to_return_value c r) ur) ≡ r
unfolding take_regs store to_return_value
take_regs-store Calls.fork r ur = refl
take_regs-store Calls.exit r ur = refl
take_regs-store Calls.wait r ur = refl
take_regs-store Calls.pipe r ur = refl
take_regs-store Calls.read r ur = refl
take_regs-store Calls.kill r ur = refl
take_regs-store Calls.exec r ur = refl
take_regs-store Calls.fstat r ur = refl
take_regs-store Calls.chdir r ur = refl
take_regs-store Calls.dup r ur = refl
take_regs-store Calls.sbrk r ur = refl
take_regs-store Calls.sleep r ur = refl
take_regs-store Calls.«open» r ur = refl
take_regs-store Calls.write r ur = refl
take_regs-store Calls.mknod r ur = refl
take_regs-store Calls.unlink r ur = refl
take_regs-store Calls.link r ur = refl
take_regs-store Calls.mkdir r ur = refl
take_regs-store Calls.close r ur = refl
take_regs-store Calls.alarm_set r ur = refl
take_regs-store Calls.alarm_clear r ur = refl
take_regs-store Calls.signal_return r ur = refl
take_regs-store Calls.bind r ur = refl
take_regs-store Calls.unbind r ur = refl
take_regs-store Calls.recv r ur = refl
take_regs-store Calls.send r ur = refl
take_regs-store Calls.get_system_info r ur = refl
take_regs-store Calls.reboot r ur = refl
take_regs-store Calls.halt r ur = refl
take_regs-store Calls.abort r ur = refl
take_regs-store Calls.trace r ur = refl
take_regs-store Calls.dump_kernel_page_table r ur = refl
take_regs-store Calls.dump_user_page_table r ur = refl

take_regs-call_registers :
    (c : SyscallCode) (a : Arg c) (ur : UserRegisters)
    → take_regs (arg_regs c) (call_registers c a ur) ≡ (arg_value c).encode a
unfolding call_registers
take_regs-call_registers c a ur =
    take_regs-load (arg_regs c) (code_number c) ((arg_value c).encode a) ur

handle-call_registers :
    (call : Handlers) (c : SyscallCode) (a : Arg c) (r : Return c) (ur : UserRegisters)
    → (arg_value c).IsValue a
    → call c a ≡ some r
    → handle c call (call_registers c a ur)
      ≡ done (some (to_return_value c ((return_value c).encode r)))
unfolding handle answer
handle-call_registers call c a r ur valid called =
    rw (handle, take_regs-call_registers c a ur, (arg_value c).decode-encode a valid, called)

-- The registers that the user library finds when the call has returned `r`.
abbrev pub returned : (c : SyscallCode) → Arg c → Return c → UserRegisters → UserRegisters
returned c a r ur = store (to_return_value c ((return_value c).encode r)) (call_registers c a ur)

syscall-call_registers :
    (call : Handlers) (c : SyscallCode) (a : Arg c) (r : Return c) (ur : UserRegisters)
    → (arg_value c).IsValue a
    → call c a ≡ some r
    → syscall call (call_registers c a ur) ≡ done (some (returned c a r ur))
unfolding syscall call_registers
syscall-call_registers call c a r ur valid called =
    ap (dispatch call (call_registers c a ur)) (from_repr-code_number c)
    ∙ rw (handle-call_registers call c a r ur valid called)

-- For every system call, with every argument and result that their types allow: the kernel decodes
-- what the user library encoded, runs the handler of that call on that argument, and, if the handler
-- returns, the user library decodes the handler's result. No step panics.
pub call_result-syscall :
    (call : Handlers) (c : SyscallCode) (a : Arg c) (r : Return c) (ur : UserRegisters)
    → (arg_value c).IsValue a
    → call c a ≡ some r
    → (return_value c).IsValue r
    → (ur' : UserRegisters) × (syscall call (call_registers c a ur) ≡ done (some ur'))
      × (call_result c ur' ≡ ok r)
unfolding call_result
call_result-syscall call c a r ur valid called good = (
  returned c a r ur,
  syscall-call_registers call c a r ur valid called,
  rw (call_result, take_regs-store c ((return_value c).encode r) (call_registers c a ur))
      ((return_value c).decode-encode r good),
)

-- A number that is no system call's runs no handler and changes `a0` alone.
pub syscall_unknown :
    (call : Handlers) (ur : UserRegisters)
    → from_repr ur.a7 ≡ none
    → syscall call ur ≡ done (some (record ur { a0 = word - 1 }))
unfolding syscall
syscall_unknown call ur h = rw h

overflowing_duration :
    (secs nanos : ℕ)
    → secs < word
    → nanos < 2 ^ 32
    → word ≤ secs + nanos / nanos_per_sec
    → decode_duration (secs, nanos) ≡ panicked
unfolding decode_duration new_duration decode_usize decode_unsigned
overflowing_duration secs nanos h0 h1 h2 = ground arith

-- A user process can panic the kernel: a `Sleep` whose first two registers, taken as seconds and
-- 32 bits of nanoseconds, add up to more seconds than 64 bits hold panics in `syscall`.
pub syscall-sleep_panic :
    (call : Handlers) (ur : UserRegisters)
    → ur.a7 ≡ code_number Calls.sleep
    → ur.a0 < word
    → ur.a1 < 2 ^ 32
    → word ≤ ur.a0 + ur.a1 / nanos_per_sec
    → syscall call ur ≡ panic
unfolding syscall handle answer decode_duration decode_usize decode_unsigned take_regs
syscall-sleep_panic call ur is_sleep h0 h1 h2 =
    ap (dispatch call ur) (ap from_repr is_sleep ∙ from_repr-code_number Calls.sleep)
    ∙ rw (handle, overflowing_duration ur.a0 ur.a1 h0 h1 h2)
