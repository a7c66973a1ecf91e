-- ===== src/Lib.antt =====
-- neoproot: a user-space chroot. It traces a process with ptrace, translates its system calls as
-- they enter and leave the kernel, and emulates those that the host refuses. This library models
-- the parts of it that keep state of their own, and proves what makes them correct.
--
-- The parts and their files (paths from the root of the repository):
--
-- - Base: the shared library. Base/Lists has lists over the native numbers, Base/Int signed
--   numbers, Base/Every predicates of all elements, Base/Words arithmetic on 64-bit words, Base/Bits
--   the bitwise operations.
-- - Tracee/Regs: src/tracee/reg.cpp and src/syscall/sysnum.c for arm64. A `Regs` is the banks
--   CURRENT, ORIGINAL and MODIFIED; `peek_reg`, `poke_reg`, `get_sysnum` and `set_sysnum` are the
--   functions of those names.
-- - Heap: src/syscall/heap.c, the emulated program break. `Program` is what its two handlers
--   reach: the heap, the static page size, the mappings of the loaded program, the registers.
--   Heap/Calls composes entry, kernel and exit to one call, Heap/Refine gives the abstract
--   machine that a history of calls implements. A first call with no mapping (a read out of
--   bounds in the source) and a failing assertion are `none`.
-- - FakeId: the credential calls of src/extension/fake_id0/fake_id0.c. The macros SETXID, SETREXID,
--   SETRESXID and SETFSXID are functions on one family of ids (`Ids`), `handle` is the switch of
--   handle_sysexit_end. FakeId/Confined is about sequences of calls, FakeId/Linux compares with
--   the rules of the manual pages.
-- - Sysvipc/State: src/extension/sysvipc/sysvipc_internal.h and the wake-up of sysvipc.c. The macros
--   LOOKUP_IPC_OBJECT and IPC_OBJECT_ID, and the loop that finds a key, are functions over any
--   array of objects: the record `Object` says what an entry has. The list of tracees is an
--   explicit list of configurations, and a caller finds its own entry by its pid.
-- - Sysvipc/Semaphore: src/extension/sysvipc/sysvipc_sem.c, every handler of it. A handler takes and
--   gives back a `World`; the caller's pid and the registers that it reads are arguments.
-- - Sysvipc/Message: src/extension/sysvipc/sysvipc_msg.c, every handler of it. Message holds the
--   queue and do_msgrcv, Message/Calls msgget, msgsnd and msgctl, Message/Receive msgrcv and
--   sysvipc_msgrcv_retry, the second attempt of a receiver that was woken. A failing assertion of
--   the retry is the outcome `aborted`. The record `Memory` is what tracee memory gives and takes.
-- - Sysvipc/SharedMemory: src/extension/sysvipc/sysvipc_shm.c. SharedMemory holds the segments, the
--   mappings and their destructor, Calls shmget, shmdt, shmctl, fork and exit, Attach sysvipc_shmat,
--   Steps sysvipc_shmat_chain with a function for each case and each label, and the record `Answers`
--   for the tracee's memory and the helper process. One list holds the mappings of all processes: the
--   two linked lists of the source are its parts.
-- - Sysvipc/Waits: src/extension/sysvipc/sysvipc.c, with the two helpers of src/tracee/seccomp.c that
--   it calls, and what src/syscall/exit.c does with the status of the event at a call's exit. sysvipc_syscall_common is `syscall_common`, the events of sysvipc_callback are the
--   functions of Waits/Events; the handlers of the calls are the fields of a record.
-- - Path: src/path/path.c, compare_paths2, substitute_path_prefix and join_paths, on paths as lists of
--   bytes. The loop over vectors of 16 bytes and the loop over the rest are separate functions.
-- - Bindings: src/path/binding.c. `Fs` holds the three lists, what is cached, and the translated
--   descriptors, which a change of the bindings clears. Bindings has the
--   lookups and get_root, Bindings/Insort the insertions and removals, `spot` being the loop of
--   insort_binding. qsort is a parameter, of which Bindings/Longest asks that it permutes and sorts.
-- - Cwd: src/path/path.c, the working directory of a tracee. `View` has the bindings with the directory and
--   its alias; get_reported_cwd, refresh_cwd_alias_prefix, rebase_cwd_alias and chop_finality are the
--   functions of those names, the early returns of rebase_cwd_alias being the steps `rebase_from` to
--   `rebase_to`.
-- - Dirfds: src/path/path.c, the cache of translated directory descriptors. Dirfds has the lookup,
--   remember_translated_dirfd and the functions that forget, Dirfds/Copies those that copy entries
--   with their host descriptors. Every loop over the slots is recursion on the number of slots left.
-- - Seccomp: src/syscall/seccomp.c. Seccomp has the functions that put statements into a program,
--   Filters set_seccomp_filters with its two passes over the calls, Merge and Lists the list that
--   enable_syscall_filtering makes. The machine of the kernel is the record `Bpf` in Seccomp/Machine,
--   an interpreter with the laws of the four opcodes; Seccomp/Policy says which calls stop.
-- - PortSwitch: src/extension/port_switch/port_switch.c. `Switch` is the memory of the tracee, the static
--   variable and what is printed; the callback's event at the end of an entry is `syscall_enter_end`.
-- - Shebang: src/execve/shebang.c. `extract_shebang` takes the first line of a script apart, `expand` is the
--   loop of expand_shebang with the rounds that are left, MAXSYMLINKS at first, which the host's C library sets.
-- - HiddenFiles: src/extension/hidden_files/hidden_files.c. `filter_dirents` is the loop over the entries that a
--   getdents gave, as bytes; it has as many steps as there are bytes, and each entry takes some.
-- - Chain: src/syscall/chain.c, every function of it. A `Chain` is the field `chain` of a tracee with
--   its registers; no list of calls is a null pointer.
--
-- The extensions interact with the rest through registers and tracee memory only; the handlers of
-- one are modelled apart from those of another.
--
-- Machine integers are natural numbers with their wrap-around written out; an argument that the
-- source casts to `int` is read by `int32`. Every loop of the modelled code runs over an
-- array or a list, or counts down, and is structural recursion; the one that frees the mappings of a
-- process takes their number as its fuel, and is shown to leave none.
--
-- Parameters. The kernel's answer to a mmap or a mremap, the values of sysconf and time, and what
-- read_data and write_data bring back are arguments, and so are the answers of the shared memory
-- helper, qsort, dup and fstat, the environment and strtol,
-- and for scripts the files, the translation of their paths and the transfer of arguments. Allocation by talloc is taken to succeed.
--
-- Not modelled: the helper process of the shared memory and its socket, the setting up of bindings,
-- the canonicalization and the translation of paths, the loading of programs, the ptrace event loop and the emulation of
-- ptrace itself, the user-mode backend, the installation of the seccomp program and its user notifications, and the command line. Most of these move data
-- between the kernel, files and tracee memory.
pub mod Base
pub mod Bindings
pub mod Chain
pub mod Cwd
pub mod Dirfds
pub mod FakeId
pub mod Heap
pub mod HiddenFiles
pub mod Path
pub mod PortSwitch
pub mod Seccomp
pub mod Shebang
pub mod Sysvipc
pub mod Tracee
