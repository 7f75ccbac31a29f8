-- ===== src/Syscall/Calls.antt =====
-- crates/common/ov6_syscall/src/syscall.rs: the arguments and the result of each system call, and
-- `SyscallCode` of lib.rs. A parameter type plays no part in the registers.
use ov.Prelude.{ℕ, refl, Option}
use ov.Prelude.Int.{ℤ}
use ov.Syscall.{ok, panicked, RegisterValue}
use ov.Syscall.Values.{WaitTarget, SocketAddrV4, Duration, UserSlice}
use ov.Syscall.Errors.{SyscallError}
use ov.Syscall.Codecs.{
  usize_value, isize_value, unsigned_value, i32_value, error_value, proc_id_value,
  optional_proc_id_value, wait_target_value, open_flags_value, socket_addr_value, duration_value,
  slice_value,
}
use ov.Syscall.Compound.{
  Result, result_01, result_11, tuple_11, tuple_12, tuple_21, tuple_22, tuple_211, tuple_112,
}

-- `()`
abbrev pub unit_value : RegisterValue 0 (Unit {0})
unit_value = record {
  encode = λ _. tt;
  try_decode = λ _. ok tt;
  IsValue = λ _. Unit {0};
  decode-encode = λ _ _. refl;
}

-- `Infallible`, which has no value: its `try_decode` is `unreachable!()`.
abbrev pub infallible_value : RegisterValue 0 ⊥
infallible_value = record {
  encode = λ v. absurd v;
  try_decode = λ _. panicked;
  IsValue = λ _. Unit {0};
  decode-encode = λ v _. absurd v;
}

pub data SyscallCode : Type 0 where
  fork exit wait pipe read kill exec fstat chdir dup sbrk sleep «open» write mknod unlink link mkdir
        close alarm_set alarm_clear signal_return bind unbind recv send get_system_info reboot halt
        abort trace dump_kernel_page_table dump_user_page_table :
      SyscallCode

-- `Syscall::Arg`. One argument stands for the tuple of one, which is coded the same.
abbrev pub Arg : SyscallCode → Type 0
Arg fork = Unit {0}
Arg exit = ℤ
Arg wait = WaitTarget × ℕ
Arg pipe = ℕ
Arg read = ℕ × UserSlice
Arg kill = ℕ
Arg exec = UserSlice × UserSlice
Arg fstat = ℕ × ℕ
Arg chdir = UserSlice
Arg dup = ℕ
Arg sbrk = ℤ
Arg sleep = Duration
Arg «open» = UserSlice × ℕ
Arg write = ℕ × UserSlice
Arg mknod = UserSlice × ℕ × ℕ
Arg unlink = UserSlice
Arg link = UserSlice × UserSlice
Arg mkdir = UserSlice
Arg close = ℕ
Arg alarm_set = Duration × ℕ
Arg alarm_clear = Unit {0}
Arg signal_return = Unit {0}
Arg bind = ℕ
Arg unbind = ℕ
Arg recv = ℕ × ℕ × UserSlice
Arg send = ℕ × SocketAddrV4 × UserSlice
Arg get_system_info = ℕ
Arg reboot = Unit {0}
Arg halt = ℕ
Arg abort = ℕ
Arg trace = ℕ
Arg dump_kernel_page_table = Unit {0}
Arg dump_user_page_table = Unit {0}

abbrev pub arg_regs : SyscallCode → ℕ
arg_regs fork = 0
arg_regs exit = 1
arg_regs wait = 3
arg_regs pipe = 1
arg_regs read = 3
arg_regs kill = 1
arg_regs exec = 4
arg_regs fstat = 2
arg_regs chdir = 2
arg_regs dup = 1
arg_regs sbrk = 1
arg_regs sleep = 2
arg_regs «open» = 3
arg_regs write = 3
arg_regs mknod = 4
arg_regs unlink = 2
arg_regs link = 4
arg_regs mkdir = 2
arg_regs close = 1
arg_regs alarm_set = 3
arg_regs alarm_clear = 0
arg_regs signal_return = 0
arg_regs bind = 1
arg_regs unbind = 1
arg_regs recv = 4
arg_regs send = 4
arg_regs get_system_info = 1
arg_regs reboot = 0
arg_regs halt = 1
arg_regs abort = 1
arg_regs trace = 1
arg_regs dump_kernel_page_table = 0
arg_regs dump_user_page_table = 0

abbrev pub arg_value : (c : SyscallCode) → RegisterValue (arg_regs c) (Arg c)
arg_value fork = unit_value
arg_value exit = i32_value
arg_value wait = tuple_21 wait_target_value usize_value
arg_value pipe = usize_value
arg_value read = tuple_12 usize_value slice_value
arg_value kill = proc_id_value
arg_value exec = tuple_22 slice_value slice_value
arg_value fstat = tuple_11 usize_value usize_value
arg_value chdir = slice_value
arg_value dup = usize_value
arg_value sbrk = isize_value
arg_value sleep = duration_value
arg_value «open» = tuple_21 slice_value open_flags_value
arg_value write = tuple_12 usize_value slice_value
arg_value mknod = tuple_211 slice_value (unsigned_value 32) (unsigned_value 16)
arg_value unlink = slice_value
arg_value link = tuple_22 slice_value slice_value
arg_value mkdir = slice_value
arg_value close = usize_value
arg_value alarm_set = tuple_21 duration_value usize_value
arg_value alarm_clear = unit_value
arg_value signal_return = unit_value
arg_value bind = unsigned_value 16
arg_value unbind = unsigned_value 16
arg_value recv = tuple_112 (unsigned_value 16) usize_value slice_value
arg_value send = tuple_112 (unsigned_value 16) socket_addr_value slice_value
arg_value get_system_info = usize_value
arg_value reboot = unit_value
arg_value halt = unsigned_value 16
arg_value abort = unsigned_value 16
arg_value trace = usize_value
arg_value dump_kernel_page_table = unit_value
arg_value dump_user_page_table = unit_value

-- `Syscall::Return`
abbrev pub Return : SyscallCode → Type 0
Return fork = Result (Option ℕ) SyscallError
Return exit = ⊥
Return wait = Result ℕ SyscallError
Return pipe = Result (Unit {0}) SyscallError
Return read = Result ℕ SyscallError
Return kill = Result (Unit {0}) SyscallError
Return exec = Result ⊥ SyscallError
Return fstat = Result (Unit {0}) SyscallError
Return chdir = Result (Unit {0}) SyscallError
Return dup = Result ℕ SyscallError
Return sbrk = Result ℕ SyscallError
Return sleep = Result (Unit {0}) SyscallError
Return «open» = Result ℕ SyscallError
Return write = Result ℕ SyscallError
Return mknod = Result (Unit {0}) SyscallError
Return unlink = Result (Unit {0}) SyscallError
Return link = Result (Unit {0}) SyscallError
Return mkdir = Result (Unit {0}) SyscallError
Return close = Result (Unit {0}) SyscallError
Return alarm_set = Result (Unit {0}) SyscallError
Return alarm_clear = Result (Unit {0}) SyscallError
Return signal_return = Result ⊥ SyscallError
Return bind = Result (Unit {0}) SyscallError
Return unbind = Result (Unit {0}) SyscallError
Return recv = Result ℕ SyscallError
Return send = Result ℕ SyscallError
Return get_system_info = Result (Unit {0}) SyscallError
Return reboot = Result ⊥ SyscallError
Return halt = Result ⊥ SyscallError
Return abort = Result ⊥ SyscallError
Return trace = Unit {0}
Return dump_kernel_page_table = Unit {0}
Return dump_user_page_table = Unit {0}

abbrev pub return_regs : SyscallCode → ℕ
return_regs fork = 2
return_regs exit = 0
return_regs wait = 2
return_regs pipe = 2
return_regs read = 2
return_regs kill = 2
return_regs exec = 2
return_regs fstat = 2
return_regs chdir = 2
return_regs dup = 2
return_regs sbrk = 2
return_regs sleep = 2
return_regs «open» = 2
return_regs write = 2
return_regs mknod = 2
return_regs unlink = 2
return_regs link = 2
return_regs mkdir = 2
return_regs close = 2
return_regs alarm_set = 2
return_regs alarm_clear = 2
return_regs signal_return = 2
return_regs bind = 2
return_regs unbind = 2
return_regs recv = 2
return_regs send = 2
return_regs get_system_info = 2
return_regs reboot = 2
return_regs halt = 2
return_regs abort = 2
return_regs trace = 0
return_regs dump_kernel_page_table = 0
return_regs dump_user_page_table = 0

abbrev pub return_value : (c : SyscallCode) → RegisterValue (return_regs c) (Return c)
return_value fork = result_11 error_value optional_proc_id_value
return_value exit = infallible_value
return_value wait = result_11 error_value proc_id_value
return_value pipe = result_01 error_value unit_value
return_value read = result_11 error_value usize_value
return_value kill = result_01 error_value unit_value
return_value exec = result_01 error_value infallible_value
return_value fstat = result_01 error_value unit_value
return_value chdir = result_01 error_value unit_value
return_value dup = result_11 error_value usize_value
return_value sbrk = result_11 error_value usize_value
return_value sleep = result_01 error_value unit_value
return_value «open» = result_11 error_value usize_value
return_value write = result_11 error_value usize_value
return_value mknod = result_01 error_value unit_value
return_value unlink = result_01 error_value unit_value
return_value link = result_01 error_value unit_value
return_value mkdir = result_01 error_value unit_value
return_value close = result_01 error_value unit_value
return_value alarm_set = result_01 error_value unit_value
return_value alarm_clear = result_01 error_value unit_value
return_value signal_return = result_01 error_value infallible_value
return_value bind = result_01 error_value unit_value
return_value unbind = result_01 error_value unit_value
return_value recv = result_11 error_value usize_value
return_value send = result_11 error_value usize_value
return_value get_system_info = result_01 error_value unit_value
return_value reboot = result_01 error_value infallible_value
return_value halt = result_01 error_value infallible_value
return_value abort = result_01 error_value infallible_value
return_value trace = unit_value
return_value dump_kernel_page_table = unit_value
return_value dump_user_page_table = unit_value
