-- ===== src/Sysvipc/SharedMemory.antt =====
-- src/extension/sysvipc/sysvipc_shm.c: shared memory segments and the mappings of them, and what
-- becomes of a segment when a mapping is freed. All processes share one namespace, as the source has it.
--
-- A mapping stands in two linked lists, that of its process and that of its segment. Here one list
-- holds all mappings; each of the two is the part of it with the process, or with the index.
pub mod Calls
pub mod Attach
pub mod Header
pub mod Steps
pub mod Counts
pub mod Sound
pub mod Entries
pub mod Mappings
pub mod Invariant
pub mod Layout
pub mod Removal
pub mod Deferred
pub mod Exclusion
pub mod Tests
use neoproot.Base.{
  ℕ, zero, suc, ◌+◌, ◌%◌, ◌^◌, Bool, true, false, not, ◌&&◌, ◌||◌, List, [], ◌∷◌, ◌++◌, Option,
  none, some, ◌==◌, if◌then◌else◌, get_elem?, set, drop,
}
use neoproot.Base.Int.{ℤ, pos, negsuc}
use neoproot.Sysvipc.State.{Tracee, Object}
use neoproot.Chain.{Chain}

-- `struct SysVIpcShmidDs`, the fields that are set.
pub record Stats : Type 0 where
  pub mode : ℕ
  pub shm_segsz : ℕ
  pub shm_cpid : ℕ
  pub shm_nattch : ℕ

-- `struct SysVIpcSharedMem`.
pub record SharedMem : Type 0 where
  pub key : ℕ
  pub generation : ℕ
  pub valid : Bool
  pub rmid_pending : Bool
  pub fd : ℤ
  pub stats : Stats

instance abbrev pub shared_mem_object : Object SharedMem
shared_mem_object = record {
  key = λ s. s.key;
  valid = λ s. s.valid;
  generation = λ s. s.generation;
}

-- `struct SysVIpcSharedMemMap`, with the process that it is linked to. A size of 0 marks a mapping
-- that shmat has not finished.
pub record SharedMemMap : Type 0 where
  pub addr : ℕ
  pub size : ℕ
  pub shm_index : ℕ
  pub process : ℕ

-- The segments, the mappings, and the descriptors that the helper was told to free, the last first.
pub record Segments : Type 0 where
  pub shms : List SharedMem
  pub maps : List SharedMemMap
  pub freed : List ℤ

-- How many mappings a segment has: the length of the list `mappings`.
abbrev pub attached : ℕ → List SharedMemMap → ℕ
attached idx [] = 0
attached idx (m ∷ ms) = (if m.shm_index == idx then 1 else 0) + attached idx ms

-- sysvipc_do_rmid. Its assertion is the test that its callers make.
unfoldable pub do_rmid : Segments → ℕ → SharedMem → Segments
do_rmid w idx s = record w {
  shms = set w.shms idx (record s {
    valid = false;
    rmid_pending = false;
    generation = (s.generation + 1) % 2 ^ 16;
    fd = negsuc 0;
  });
  freed = s.fd ∷ w.freed;
}

-- The second half of the destructor of a mapping, on the segment of the mapping.
unfoldable pub after_unlink : Segments → ℕ → Option SharedMem → Segments
unfolding do_rmid
after_unlink w idx none = w
after_unlink w idx (some s) =
    if s.rmid_pending && attached idx w.maps == 0 then do_rmid w idx s else w

abbrev pub skip :
    SharedMemMap
    → Option (SharedMemMap × List SharedMemMap)
    → Option (SharedMemMap × List SharedMemMap)
skip m none = none
skip m (some (f, ms)) = some (f, m ∷ ms)

-- The list without its first mapping that passes the test, and that mapping.
abbrev pub take_first :
    (SharedMemMap → Bool) → List SharedMemMap → Option (SharedMemMap × List SharedMemMap)
take_first p [] = none
take_first p (m ∷ ms) = let rest = skip m (take_first p ms) in if p m then some (m, ms) else rest

-- talloc_free of the mapping that a search found: the destructor takes it off both lists.
unfoldable pub free_found : Segments → Option (SharedMemMap × List SharedMemMap) → Segments
unfolding after_unlink
free_found w none = w
free_found w (some (m, ms)) =
    after_unlink (record w { maps = ms }) m.shm_index (get_elem? w.shms m.shm_index)

-- The first mapping of this process and segment that is not finished.
abbrev pub is_pending : ℕ → ℕ → SharedMemMap → Bool
is_pending process idx m = m.process == process && m.size == 0 && m.shm_index == idx

-- A tracee: its ipc state, its chain of calls with its registers, its process, and what the shmat
-- chain keeps in its configuration.
pub record Task : Type 0 where
  pub tracee : Tracee
  pub chain : Chain
  pub process : ℕ
  pub shmat_guest_buf : ℕ
  pub shmat_socket_fd : ℕ
  pub shmat_mem_fd : ℕ

pub record World : Type 0 where
  pub segments : Segments
  pub tasks : List Task
