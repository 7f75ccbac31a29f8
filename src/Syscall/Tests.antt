-- ===== src/Syscall/Tests.antt =====
-- Some system calls with their registers.
use ov.Prelude.{◌-◌, ◌≡◌, refl, none, some, arith, done}
use ov.Syscall.{word, ok}
use ov.Syscall.Values.{UserSlice}
use ov.Syscall.Compound.{success}
use ov.Syscall.Calls
use ov.Syscall.Calls.{SyscallCode, Arg, Return}
use ov.Syscall.Dispatch.{UserRegisters, code_number, Handlers, syscall, call_registers, call_result}
use ov.Syscall.RoundTrip.{call_result-syscall}

abbrev registers : UserRegisters
registers = record { a0 = 1; a1 = 2; a2 = 3; a3 = 4; a7 = 0 }

-- A kernel that comes back from `Fork`, `Read` and `Trace` alone.
abbrev kernel : Handlers
kernel Calls.fork a = some (success (some 7))
kernel Calls.read (fd, slice) = some (success slice.len)
kernel Calls.trace a = some tt
kernel _ a = none

abbrev slice : UserSlice
slice = record { addr = 65536; len = 512 }

call_result-syscall_example :
    (ur' : UserRegisters) × (syscall kernel (call_registers Calls.read (3, slice) registers)
      ≡ done (some ur'))
    × (call_result Calls.read ur' ≡ ok (success 512))
call_result-syscall_example =
    call_result-syscall kernel Calls.read (3, slice) (success 512) registers
      (omega arith, (omega arith, omega arith)) refl (omega arith)

abbrev asleep : UserRegisters
asleep = record { a0 = word - 1; a1 = 1_000_000_000; a2 = 0; a3 = 0; a7 = 12 }

asleep-code : asleep.a7 ≡ code_number Calls.sleep
unfolding code_number
asleep-code = refl
