-- ===== src/Lib.antt =====
-- ov6, a Unix-like operating system for RISC-V in Rust: a model of parts of its kernel, and what is
-- proved of them.
--
-- Code that may panic returns a `Run` (Prelude/Panics.antt). Words of 32 and 64 bits are natural
-- numbers with their bounds and wrap-arounds written out. A lock's critical section is one step.
--
-- FreeList.antt and PageAlloc.antt: crates/kernel/page_alloc/src/page_frame_allocator.rs. The memory
-- is an argument and a result: the `next` pointer at each address. `new` runs its loop on fuel, one
-- more than the end address, which is more rounds than there are pages; `new_lem` proves that it is
-- enough. The constant assertion on the size of `Run` and the `NonNull` pointers of the range are tests
-- at the start of `new`. History.antt interleaves the calls of any number of callers.
-- Slab.antt: crates/kernel/slab_allocator/src/lib.rs, over the same memory, with the same fuel, and
-- with a panic where its loop comes to a null pointer.
-- BlockIo.antt: crates/kernel/block_io/src/lib.rs, what is done with a slot of the block cache once
-- it is found. The device is a parameter.
-- Lru.antt: crates/kernel/lru/src/lib.rs, the list that chooses a slot for a block. A value is known
-- by its slot, and its `Arc`'s strong count is a field; Lru/History.antt interleaves the calls of any
-- number of users.
-- Log.antt: crates/kernel/ov6_kernel/src/fs/log.rs, with the super block and the header block of
-- crates/common/ov6_fs_types/src/lib.rs. Log/Ops.antt is `LogHeader` over the block cache, and
-- Log/Tx.antt is `Log`. The views that the `dataview` crate gives of a block's bytes are the
-- parameter `Layout`. The disk takes every read and write, as the driver's error type
-- `Infallible` says. `block_io::get` panics when all `nbuf` buffers of the cache are referenced and none
-- is for the block: `get_buffer` tests that on the blocks that the log references and those that others
-- do, which are a field of `Io`. Log/Full.antt is a commit that finds no buffer. A wait on the condition variable is an element of a list of wakeups.
-- Syscall.antt: crates/common/ov6_syscall/src (register.rs, error.rs, syscall.rs and the types of
-- lib.rs), how the arguments and results of the 33 system calls are coded in registers;
-- Syscall/Dispatch.antt is the way of a call from the user library
-- (crates/user/ov6_user_lib/src/os/ov6/syscall/ffi.rs) to the kernel
-- (crates/kernel/ov6_kernel/src/syscall/mod.rs) and back. What the kernel does for a call is a
-- parameter.
-- Ring.antt, Pipe.antt and Console.antt: the ring buffers of
-- crates/kernel/ov6_kernel/src/file/pipe.rs and crates/kernel/ov6_kernel/src/console/mod.rs.
-- A pipe's writer that waits goes on from the state that it wakes up to; Pipe/Stream.antt interleaves
-- readers and writers. Console/Line.antt is what the console looks like to a user; its loop of
-- control-u runs on fuel, one more than the edit index.
-- Memory.antt: crates/kernel/ov6_kernel/src/memory. Memory/Addr.antt is addr.rs, Memory/Entry.antt and
-- Memory/Cow.antt are page_table/entry.rs, Memory/Pages.antt is page_manager.rs with the free pages as a
-- list, and Memory/Table.antt and Memory/MapRange.antt are page_table/mod.rs. A page table is a tree,
-- since one entry owns each table below the root: what the code does with a `&mut PtEntry` that it finds
-- is a function that is done there. The loop of map_addrs_level has a round for each page; a round
-- too few would be a panic.
-- Proc.antt: crates/kernel/ov6_kernel/src/proc, the process table and the calls on it. Each function is
-- what is done while the locks are held, up to the switch to the scheduler; Proc/Steps.antt interleaves
-- them. Whether there is memory for a new process is an argument.
-- Shell.antt: crates/user/ov6_utilities/src/bin/sh. Shell/Tokenizer.antt is tokenizer.rs and
-- Shell/Parser.antt is parser.rs, over what the tokenizer's iterator yields up to the first error,
-- since the parser reads no further. A line is a `Str` of Shell/Utf8.antt, bytes with a proof that they
-- are UTF-8, as `Parser::new` takes a `&str`; a cursor is the bytes that are left. The iteration has a unit of
-- fuel for each byte and one more, and the parser, whose calls nest, 4 n + 5 for n tokens;
-- Shell/Progress.antt and Shell/Total.antt prove that they are enough.
-- Paths.antt: crates/common/ov6_types/src/path. A path is its bytes; Paths/Components.antt is
-- `Components` of mod.rs, and Paths/Path.antt the operations of `Path` and of `PathBuf` in
-- path_buf.rs; Paths/Extension.antt is the parts of a file name. Paths/Segments.antt says what the components of a path are. The loop that trims has a
-- round for each byte of the path, and the loop that compares two paths one for each byte of the base
-- and two more, which is above the number of its components.
--
-- Not modelled: the iterators over page tables and unmapping, user address spaces, exec,
-- inodes, the network, what the shell does with a command, setting the extension of a path, and the
-- user library; locks, drivers, traps and assembly, which are below the level of these models;
-- tests and host tools.
pub mod BlockIo
pub mod Console
pub mod FreeList
pub mod Log
pub mod Lru
pub mod Memory
pub mod PageAlloc
pub mod Paths
pub mod Pipe
pub mod Prelude
pub mod Proc
pub mod Ring
pub mod Shell
pub mod Slab
pub mod Syscall
