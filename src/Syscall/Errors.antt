-- ===== src/Syscall/Errors.antt =====
-- crates/common/ov6_syscall/src/error.rs: `SyscallError`, as an `isize` in a register.
use ov.Prelude.{◌≡◌, refl, Option, none, some, ◌==◌, if◌then◌else◌}
use ov.Prelude.Int.{ℤ, pos, negsuc}
use ov.Syscall.{invalid_syscall_error_no, Decoded, ok, err, ◌>>=◌, Regs}
use ov.Syscall.Values.{encode_isize, decode_isize}

pub data SyscallError : Type 0 where
  not_permitted fs_entry_not_found process_not_found io device_not_found argument_list_too_long
        exec_format bad_file_descriptor no_child_process resource_tempolary_unavailable
        out_of_memory permission_denied bad_address resource_busy already_exists crosses_devices
        no_such_device not_a_directory is_a_directory invalid_input too_many_open_files_system
        too_many_open_files executable_file_busy file_too_large storage_full not_seekable
        read_only_filesystem too_many_links broken_pipe invalid_filename directory_not_empty
        message_too_long addr_in_use unknown :
      SyscallError

-- The discriminants.
unfoldable pub discriminant : SyscallError → ℤ
discriminant not_permitted = pos 1
discriminant fs_entry_not_found = pos 2
discriminant process_not_found = pos 3
discriminant io = pos 5
discriminant device_not_found = pos 6
discriminant argument_list_too_long = pos 7
discriminant exec_format = pos 8
discriminant bad_file_descriptor = pos 9
discriminant no_child_process = pos 10
discriminant resource_tempolary_unavailable = pos 11
discriminant out_of_memory = pos 12
discriminant permission_denied = pos 13
discriminant bad_address = pos 14
discriminant resource_busy = pos 16
discriminant already_exists = pos 17
discriminant crosses_devices = pos 18
discriminant no_such_device = pos 19
discriminant not_a_directory = pos 20
discriminant is_a_directory = pos 21
discriminant invalid_input = pos 22
discriminant too_many_open_files_system = pos 23
discriminant too_many_open_files = pos 24
discriminant executable_file_busy = pos 26
discriminant file_too_large = pos 27
discriminant storage_full = pos 28
discriminant not_seekable = pos 29
discriminant read_only_filesystem = pos 30
discriminant too_many_links = pos 31
discriminant broken_pipe = pos 32
discriminant invalid_filename = pos 36
discriminant directory_not_empty = pos 39
discriminant message_too_long = pos 90
discriminant addr_in_use = pos 98
discriminant unknown = negsuc 0

-- `from_repr`, which `strum` derives: the error with the discriminant.
unfoldable pub from_repr : ℤ → Option SyscallError
from_repr (negsuc n) = if n == 0 then some unknown else none
from_repr (pos n) =
    if n == 1
    then some not_permitted
    else if n == 2
    then some fs_entry_not_found
    else if n == 3
    then some process_not_found
    else if n == 5
    then some io
    else if n == 6
    then some device_not_found
    else if n == 7
    then some argument_list_too_long
    else if n == 8
    then some exec_format
    else if n == 9
    then some bad_file_descriptor
    else if n == 10
    then some no_child_process
    else if n == 11
    then some resource_tempolary_unavailable
    else if n == 12
    then some out_of_memory
    else if n == 13
    then some permission_denied
    else if n == 14
    then some bad_address
    else if n == 16
    then some resource_busy
    else if n == 17
    then some already_exists
    else if n == 18
    then some crosses_devices
    else if n == 19
    then some no_such_device
    else if n == 20
    then some not_a_directory
    else if n == 21
    then some is_a_directory
    else if n == 22
    then some invalid_input
    else if n == 23
    then some too_many_open_files_system
    else if n == 24
    then some too_many_open_files
    else if n == 26
    then some executable_file_busy
    else if n == 27
    then some file_too_large
    else if n == 28
    then some storage_full
    else if n == 29
    then some not_seekable
    else if n == 30
    then some read_only_filesystem
    else if n == 31
    then some too_many_links
    else if n == 32
    then some broken_pipe
    else if n == 36
    then some invalid_filename
    else if n == 39
    then some directory_not_empty
    else if n == 90
    then some message_too_long
    else if n == 98
    then some addr_in_use
    else none

unfoldable pub encode_error : SyscallError → Regs 1
encode_error e = encode_isize (discriminant e)

unfoldable pub decode_error : Regs 1 → Decoded SyscallError
decode_error a = do
  n ← decode_isize a
  elim (from_repr n) [ none ↦ err (invalid_syscall_error_no n) | some e ↦ ok e ]

pub decode-encode_error : (e : SyscallError) → decode_error (encode_error e) ≡ ok e
unfolding decode_error encode_error from_repr discriminant encode_isize decode_isize
decode-encode_error not_permitted = refl
decode-encode_error fs_entry_not_found = refl
decode-encode_error process_not_found = refl
decode-encode_error io = refl
decode-encode_error device_not_found = refl
decode-encode_error argument_list_too_long = refl
decode-encode_error exec_format = refl
decode-encode_error bad_file_descriptor = refl
decode-encode_error no_child_process = refl
decode-encode_error resource_tempolary_unavailable = refl
decode-encode_error out_of_memory = refl
decode-encode_error permission_denied = refl
decode-encode_error bad_address = refl
decode-encode_error resource_busy = refl
decode-encode_error already_exists = refl
decode-encode_error crosses_devices = refl
decode-encode_error no_such_device = refl
decode-encode_error not_a_directory = refl
decode-encode_error is_a_directory = refl
decode-encode_error invalid_input = refl
decode-encode_error too_many_open_files_system = refl
decode-encode_error too_many_open_files = refl
decode-encode_error executable_file_busy = refl
decode-encode_error file_too_large = refl
decode-encode_error storage_full = refl
decode-encode_error not_seekable = refl
decode-encode_error read_only_filesystem = refl
decode-encode_error too_many_links = refl
decode-encode_error broken_pipe = refl
decode-encode_error invalid_filename = refl
decode-encode_error directory_not_empty = refl
decode-encode_error message_too_long = refl
decode-encode_error addr_in_use = refl
decode-encode_error unknown = refl
