-- ===== src/Syscall/Dispatch.antt =====
-- crates/kernel/ov6_kernel/src/syscall/mod.rs and crates/user/ov6_user_lib/src/os/ov6/syscall/ffi.rs:
-- a system call from the user's registers to the kernel and back. What the kernel does for a call
-- is a parameter; the printing of a traced call is left out. `Exec` and `SignalReturn` have result
-- types of the kernel's own, which code a failure as here and on success hold the registers of
-- another context; only what comes back to the caller is modelled.
use ov.Prelude.{ℕ, zero, suc, ◌-◌, Option, none, some, Run, done, panic, ◌==◌, if◌then◌else◌, ◌>>=◌}
use mathlib.Core.Option
use ov.Syscall.{word, Decoded, ok, err, panicked, Regs}
use ov.Syscall.Errors.{unknown}
use ov.Syscall.Compound.{failure}
use ov.Syscall.Calls
use ov.Syscall.Calls.{SyscallCode, Arg, arg_regs, arg_value, Return, return_regs, return_value}

-- The registers of a `TrapFrame` that a system call uses.
pub record UserRegisters : Type 0 where
  pub a0 : ℕ
  pub a1 : ℕ
  pub a2 : ℕ
  pub a3 : ℕ
  pub a7 : ℕ

-- `CallWithArg`: the registers of the argument go in from `a0` on.
unfoldable pub load : (n : ℕ) → Regs n → UserRegisters → UserRegisters
load zero r ur = ur
load (suc zero) r ur = record ur { a0 = r }
load (suc (suc zero)) (r0, r1) ur = record ur { a0 = r0; a1 = r1 }
load (suc (suc (suc zero))) (r0, r1, r2) ur = record ur { a0 = r0; a1 = r1; a2 = r2 }
load (suc (suc (suc (suc n)))) (r0, r1, r2, r3) ur = record ur {
  a0 = r0;
  a1 = r1;
  a2 = r2;
  a3 = r3;
}

-- `Arg::decode_arg` takes them out again, and so does `FromArray` with the result.
unfoldable pub take_regs : (n : ℕ) → UserRegisters → Regs n
take_regs zero ur = tt
take_regs (suc zero) ur = ur.a0
take_regs (suc (suc zero)) ur = (ur.a0, ur.a1)
take_regs (suc (suc (suc zero))) ur = (ur.a0, ur.a1, ur.a2)
take_regs (suc (suc (suc (suc n)))) ur = (ur.a0, ur.a1, ur.a2, ur.a3)

pub data ReturnValue : Type 0 where
  ret0 : ReturnValue
  ret1 : ℕ → ReturnValue
  ret2 : ℕ → ℕ → ReturnValue

-- `From<Register<T, N>> for ReturnValue`, for the result of each call.
unfoldable pub to_return_value : (c : SyscallCode) → Regs (return_regs c) → ReturnValue
to_return_value Calls.fork (r0, r1) = ret2 r0 r1
to_return_value Calls.exit r = ret0
to_return_value Calls.wait (r0, r1) = ret2 r0 r1
to_return_value Calls.pipe (r0, r1) = ret2 r0 r1
to_return_value Calls.read (r0, r1) = ret2 r0 r1
to_return_value Calls.kill (r0, r1) = ret2 r0 r1
to_return_value Calls.exec (r0, r1) = ret2 r0 r1
to_return_value Calls.fstat (r0, r1) = ret2 r0 r1
to_return_value Calls.chdir (r0, r1) = ret2 r0 r1
to_return_value Calls.dup (r0, r1) = ret2 r0 r1
to_return_value Calls.sbrk (r0, r1) = ret2 r0 r1
to_return_value Calls.sleep (r0, r1) = ret2 r0 r1
to_return_value Calls.«open» (r0, r1) = ret2 r0 r1
to_return_value Calls.write (r0, r1) = ret2 r0 r1
to_return_value Calls.mknod (r0, r1) = ret2 r0 r1
to_return_value Calls.unlink (r0, r1) = ret2 r0 r1
to_return_value Calls.link (r0, r1) = ret2 r0 r1
to_return_value Calls.mkdir (r0, r1) = ret2 r0 r1
to_return_value Calls.close (r0, r1) = ret2 r0 r1
to_return_value Calls.alarm_set (r0, r1) = ret2 r0 r1
to_return_value Calls.alarm_clear (r0, r1) = ret2 r0 r1
to_return_value Calls.signal_return (r0, r1) = ret2 r0 r1
to_return_value Calls.bind (r0, r1) = ret2 r0 r1
to_return_value Calls.unbind (r0, r1) = ret2 r0 r1
to_return_value Calls.recv (r0, r1) = ret2 r0 r1
to_return_value Calls.send (r0, r1) = ret2 r0 r1
to_return_value Calls.get_system_info (r0, r1) = ret2 r0 r1
to_return_value Calls.reboot (r0, r1) = ret2 r0 r1
to_return_value Calls.halt (r0, r1) = ret2 r0 r1
to_return_value Calls.abort (r0, r1) = ret2 r0 r1
to_return_value Calls.trace r = ret0
to_return_value Calls.dump_kernel_page_table r = ret0
to_return_value Calls.dump_user_page_table r = ret0

-- `ReturnValue::store`
unfoldable pub store : ReturnValue → UserRegisters → UserRegisters
store ret0 ur = record ur { a0 = 0 }
store (ret1 r0) ur = record ur { a0 = r0 }
store (ret2 r0 r1) ur = record ur { a0 = r0; a1 = r1 }

-- `SyscallCode as usize`
unfoldable pub code_number : SyscallCode → ℕ
code_number Calls.fork = 1
code_number Calls.exit = 2
code_number Calls.wait = 3
code_number Calls.pipe = 4
code_number Calls.read = 5
code_number Calls.kill = 6
code_number Calls.exec = 7
code_number Calls.fstat = 8
code_number Calls.chdir = 9
code_number Calls.dup = 10
code_number Calls.sbrk = 11
code_number Calls.sleep = 12
code_number Calls.«open» = 13
code_number Calls.write = 14
code_number Calls.mknod = 15
code_number Calls.unlink = 16
code_number Calls.link = 17
code_number Calls.mkdir = 18
code_number Calls.close = 19
code_number Calls.alarm_set = 20
code_number Calls.alarm_clear = 21
code_number Calls.signal_return = 22
code_number Calls.bind = 23
code_number Calls.unbind = 24
code_number Calls.recv = 25
code_number Calls.send = 26
code_number Calls.get_system_info = 27
code_number Calls.reboot = 28
code_number Calls.halt = 29
code_number Calls.abort = 30
code_number Calls.trace = 31
code_number Calls.dump_kernel_page_table = 32
code_number Calls.dump_user_page_table = 33

-- `SyscallCode::from_repr`, which `strum` derives: the call with the number.
unfoldable pub from_repr : ℕ → Option SyscallCode
from_repr n =
    if n == 1
    then some Calls.fork
    else if n == 2
    then some Calls.exit
    else if n == 3
    then some Calls.wait
    else if n == 4
    then some Calls.pipe
    else if n == 5
    then some Calls.read
    else if n == 6
    then some Calls.kill
    else if n == 7
    then some Calls.exec
    else if n == 8
    then some Calls.fstat
    else if n == 9
    then some Calls.chdir
    else if n == 10
    then some Calls.dup
    else if n == 11
    then some Calls.sbrk
    else if n == 12
    then some Calls.sleep
    else if n == 13
    then some Calls.«open»
    else if n == 14
    then some Calls.write
    else if n == 15
    then some Calls.mknod
    else if n == 16
    then some Calls.unlink
    else if n == 17
    then some Calls.link
    else if n == 18
    then some Calls.mkdir
    else if n == 19
    then some Calls.close
    else if n == 20
    then some Calls.alarm_set
    else if n == 21
    then some Calls.alarm_clear
    else if n == 22
    then some Calls.signal_return
    else if n == 23
    then some Calls.bind
    else if n == 24
    then some Calls.unbind
    else if n == 25
    then some Calls.recv
    else if n == 26
    then some Calls.send
    else if n == 27
    then some Calls.get_system_info
    else if n == 28
    then some Calls.reboot
    else if n == 29
    then some Calls.halt
    else if n == 30
    then some Calls.abort
    else if n == 31
    then some Calls.trace
    else if n == 32
    then some Calls.dump_kernel_page_table
    else if n == 33
    then some Calls.dump_user_page_table
    else none

-- `e.into_return()`: a call whose argument does not decode returns `Unknown`; where the result
-- is no `Result`, the argument always decodes.
unfoldable pub rejected : (c : SyscallCode) → Option (Return c)
rejected Calls.fork = some (failure unknown)
rejected Calls.exit = none
rejected Calls.wait = some (failure unknown)
rejected Calls.pipe = some (failure unknown)
rejected Calls.read = some (failure unknown)
rejected Calls.kill = some (failure unknown)
rejected Calls.exec = some (failure unknown)
rejected Calls.fstat = some (failure unknown)
rejected Calls.chdir = some (failure unknown)
rejected Calls.dup = some (failure unknown)
rejected Calls.sbrk = some (failure unknown)
rejected Calls.sleep = some (failure unknown)
rejected Calls.«open» = some (failure unknown)
rejected Calls.write = some (failure unknown)
rejected Calls.mknod = some (failure unknown)
rejected Calls.unlink = some (failure unknown)
rejected Calls.link = some (failure unknown)
rejected Calls.mkdir = some (failure unknown)
rejected Calls.close = some (failure unknown)
rejected Calls.alarm_set = some (failure unknown)
rejected Calls.alarm_clear = some (failure unknown)
rejected Calls.signal_return = some (failure unknown)
rejected Calls.bind = some (failure unknown)
rejected Calls.unbind = some (failure unknown)
rejected Calls.recv = some (failure unknown)
rejected Calls.send = some (failure unknown)
rejected Calls.get_system_info = some (failure unknown)
rejected Calls.reboot = some (failure unknown)
rejected Calls.halt = some (failure unknown)
rejected Calls.abort = some (failure unknown)
rejected Calls.trace = none
rejected Calls.dump_kernel_page_table = none
rejected Calls.dump_user_page_table = none

-- What the kernel does for each call: its result, or `none` where the caller does not come back from
-- the call, as from `Exit`.
abbrev pub Handlers : Type 0
Handlers = (c : SyscallCode) → Arg c → Option (Return c)

-- The result of `SyscallExt::handle`, before it is encoded.
unfoldable pub answer : (c : SyscallCode) → Handlers → Decoded (Arg c) → Run (Option (Return c))
answer c call (ok a) = done (call c a)
answer c call (err e) = elim (rejected c) [ none ↦ panic | some r ↦ done (some r) ]
answer c call panicked = panic

-- `SyscallExt::handle`
unfoldable pub handle : (c : SyscallCode) → Handlers → UserRegisters → Run (Option ReturnValue)
handle c call ur = do
  r ← answer c call ((arg_value c).try_decode (take_regs (arg_regs c) ur))
  done (Option.map (λ v. to_return_value c ((return_value c).encode v)) r)

abbrev pub dispatch : Handlers → UserRegisters → Option SyscallCode → Run (Option UserRegisters)
dispatch call ur none = done (some (record ur { a0 = word - 1 }))
dispatch call ur (some c) = do ret ← handle c call ur; done (Option.map (λ v. store v ur) ret)

-- `syscall`
unfoldable pub syscall : Handlers → UserRegisters → Run (Option UserRegisters)
syscall call ur = dispatch call ur (from_repr ur.a7)

-- `SyscallExt::try_call` of the user library: the registers before the call, and the result after.
unfoldable pub call_registers : (c : SyscallCode) → Arg c → UserRegisters → UserRegisters
call_registers c a ur =
    let loaded = load (arg_regs c) ((arg_value c).encode a) ur in
    record loaded { a7 = code_number c }

unfoldable pub call_result : (c : SyscallCode) → UserRegisters → Decoded (Return c)
call_result c ur = (return_value c).try_decode (take_regs (return_regs c) ur)
