-- ===== src/Sysvipc/SharedMemory/Calls.antt =====
-- src/extension/sysvipc/sysvipc_shm.c: shmget, shmdt and shmctl, and what a fork and an execve do to
-- the mappings.
use neoproot.Base.{
  ℕ, zero, suc, ◌*◌, Bool, true, false, not, ◌&&◌, ◌||◌, List, [], ◌∷◌, ◌++◌, Option, none, some,
  ltb, ◌==◌, if◌then◌else◌, get_elem?, set, length, bit_and,
}
use neoproot.Base.Int.{ℤ, pos, negsuc, neg}
use neoproot.Tracee.Regs.{Sysnum, other, sysarg_2, poke_reg, set_sysnum}
use neoproot.Sysvipc.State.{
  einval, enoent, enospc, eexist, ipc_creat, ipc_excl, has, int32, int_of, single, object_id,
  lookup_object, scan, Scan, existing, absent,
}
use neoproot.Sysvipc.SharedMemory.{
  Stats, SharedMem, shared_mem_object, SharedMemMap, Segments, attached, do_rmid, take_first,
  free_found, Task,
}

abbrev pub max_shm_size : ℕ
max_shm_size = 100 * 4096

abbrev no_stats : Stats
no_stats = record { mode = 0; shm_segsz = 0; shm_cpid = 0; shm_nattch = 0 }

-- An entry that was cleared, and whose memory the helper could not allocate.
abbrev pub unallocated : SharedMem
unallocated = record {
  key = 0;
  generation = 0;
  valid = false;
  rmid_pending = false;
  fd = negsuc 0;
  stats = no_stats;
}

-- A new segment on a descriptor of the helper.
abbrev pub created : ℕ → ℕ → ℕ → ℕ → ℕ → SharedMem
created key size flg pgid fd = record {
  key = key;
  generation = 0;
  valid = true;
  rmid_pending = false;
  fd = pos fd;
  stats = record { mode = bit_and flg 0o777; shm_segsz = size; shm_cpid = pgid; shm_nattch = 0 };
}

-- The id of the segment at this index, as the call returns it.
abbrev pub id_at : List SharedMem → ℕ → ℤ
id_at shms idx = elim (get_elem? shms idx) [
  | none ↦ neg einval
  | some s ↦ int_of (object_id idx s.generation)
]

abbrev pub entry_of : List SharedMem → Option ℕ → ℕ
entry_of shms none = length shms
entry_of shms (some u) = u

abbrev pub put_entry : List SharedMem → Option ℕ → SharedMem → List SharedMem
put_entry shms none s = shms ++ s ∷ []
put_entry shms (some u) s = set shms u s

-- The new segment, where the helper answers with a descriptor or not at all.
unfoldable pub shmget_alloc : Segments → Option ℕ → ℕ → ℕ → ℕ → ℕ → Option ℕ → ℤ × Segments
shmget_alloc w unused key size flg pgid none =
    (neg enospc, record w { shms = put_entry w.shms unused unallocated })
shmget_alloc w unused key size flg pgid (some fd) =
    let shms = put_entry w.shms unused (created (int32 key) size flg pgid fd) in
    (id_at shms (entry_of w.shms unused), record w { shms = shms })

unfoldable pub shmget_existing : Segments → ℕ → ℕ → ℕ → Option SharedMem → ℤ
shmget_existing w idx size flg none = neg einval
shmget_existing w idx size flg (some s) =
    if has flg ipc_creat && has flg ipc_excl
    then neg eexist
    else if not (size == 0) && not (size == s.stats.shm_segsz)
    then neg einval
    else int_of (object_id idx s.generation)

unfoldable pub shmget_by : Segments → ℕ → ℕ → ℕ → ℕ → Option ℕ → Scan → ℤ × Segments
unfolding shmget_alloc shmget_existing
shmget_by w key size flg pgid helper (existing idx) =
    (shmget_existing w idx size flg (get_elem? w.shms idx), w)
shmget_by w key size flg pgid helper (absent unused) =
    if not (has flg ipc_creat)
    then (neg enoent, w)
    else if ltb max_shm_size size
    then (neg einval, w)
    else shmget_alloc w unused key size flg pgid helper

-- sysvipc_shmget, for a caller in the process group `pgid`; `helper` is the answer to SHMHELPER_ALLOC.
unfoldable pub shmget : Segments → ℕ → ℕ → ℕ → ℕ → Option ℕ → ℤ × Segments
unfolding shmget_by
shmget w key size flg pgid helper = shmget_by w key size flg pgid helper (scan key w.shms 0 none)

abbrev pub pr_munmap : Sysnum
pr_munmap = other 215

-- The call of shmdt turned into a munmap of the mapping.
abbrev pub go_unmap : Task → SharedMemMap → Task
go_unmap t m = record t {
  chain = record (t.chain) { regs = poke_reg (set_sysnum t.chain.regs pr_munmap) sysarg_2 m.size };
  tracee = record (t.tracee) { config = record (t.tracee.config) { chain_state = single } };
}

unfoldable pub shmdt_found :
    Segments → Task → Option (SharedMemMap × List SharedMemMap) → ℤ × Segments × Task
shmdt_found w t none = (neg einval, w, t)
shmdt_found w t (some (m, ms)) = (pos 0, free_found w (some (m, ms)), go_unmap t m)

abbrev pub is_at : ℕ → ℕ → SharedMemMap → Bool
is_at process addr m = m.process == process && m.addr == addr

-- sysvipc_shmdt.
unfoldable pub shmdt : Segments → Task → ℕ → ℤ × Segments × Task
unfolding shmdt_found
shmdt w t addr = shmdt_found w t (take_first (is_at t.process addr) w.maps)

-- IPC_RMID: at once where there is no mapping, else when the last is freed.
unfoldable pub rmid : Segments → ℕ → SharedMem → Segments
unfolding do_rmid
rmid w idx s =
    if attached idx w.maps == 0
    then do_rmid w idx s
    else record w { shms = set w.shms idx (record s { rmid_pending = true }) }

-- sysvipc_shm_update_stats.
abbrev pub counted : Segments → ℕ → SharedMem → SharedMem
counted w idx s = record s { stats = record (s.stats) { shm_nattch = attached idx w.maps } }

-- `write` is the status of the write to the caller's memory.
unfoldable pub shmctl_on :
    (ℕ → Stats → ℤ) → Segments → ℕ → ℕ → Option (ℕ × SharedMem) → ℤ × Segments
unfolding rmid
shmctl_on write w cmd buf none = (neg einval, w)
shmctl_on write w cmd buf (some (idx, s)) =
    if cmd == 0 || cmd == 0x100
    then (pos 0, rmid w idx s)
    else if cmd == 2
    then (write buf (counted w idx s).stats, record w { shms = set w.shms idx (counted w idx s) })
    else (neg einval, w)

-- sysvipc_shmctl.
unfoldable pub shmctl : (ℕ → Stats → ℤ) → Segments → ℕ → ℕ → ℕ → ℤ × Segments
unfolding shmctl_on
shmctl write w id cmd buf = shmctl_on write w (int32 cmd) buf (lookup_object w.shms id)

-- The loop of sysvipc_shm_inherit_process: behind each mapping of the parent, one of the child.
unfoldable pub inherited : ℕ → ℕ → List SharedMemMap → List SharedMemMap
inherited parent child [] = []
inherited parent child (m ∷ ms) =
    let rest = inherited parent child ms in
    if m.process == parent then m ∷ record m { process = child } ∷ rest else m ∷ rest

-- sysvipc_shm_inherit_process, for a child that has no mapping yet.
unfoldable pub inherit_process : Segments → ℕ → ℕ → Segments
unfolding inherited
inherit_process w parent child = record w { maps = inherited parent child w.maps }

-- sysvipc_shm_remove_mappings_from_process: `n` bounds the mappings, each round frees the first.
unfoldable pub remove_mappings : ℕ → Segments → ℕ → Segments
remove_mappings zero w process = w
remove_mappings (suc n) w process =
    remove_mappings n (free_found w (take_first (λ m. m.process == process) w.maps)) process

unfoldable pub remove_mappings_from_process : Segments → ℕ → Segments
remove_mappings_from_process w process = remove_mappings (length w.maps) w process
