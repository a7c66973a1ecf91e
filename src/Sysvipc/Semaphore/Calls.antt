-- ===== src/Sysvipc/Semaphore/Calls.antt =====
-- src/extension/sysvipc/sysvipc_sem.c: the four entry points. A handler takes the low 32 bits or the
-- whole words of the registers that it reads; `me` is the pid of the calling tracee.
use neoproot.Base.{
  ℕ, ◌+◌, ◌*◌, ◌%◌, ◌^◌, Bool, true, false, not, ◌&&◌, ◌||◌, List, [], ◌∷◌, ◌++◌, Option, none,
  some, ltb, leb, ◌==◌, if◌then◌else◌, get_elem?, set, length, replicate,
}
use neoproot.Base.Int.{ℤ, pos, neg}
use neoproot.Sysvipc.State.{
  einval, efbig, erange, enoent, enospc, eexist, eidrm, ipc_creat, ipc_excl, has, int32, int_of,
  plain_command, not_waiting, wait_semop, Sembuf, Config, Tracee, waits_semop, wake_tracee,
  wake_all, with_config, object_id, lookup_object, scan, Scan, existing, absent,
}
use neoproot.Sysvipc.Semaphore.{
  Check, Semaphore, commit, max_nsems, max_nsops, max_sems, max_semval, sem_check, semaphore_object,
  value_at, done, would_wait, fails,
}

-- The part of the namespace that the handlers work on, and the tracees.
pub record World : Type 0 where
  pub namespace : ℕ
  pub semaphores : List Semaphore
  pub tracees : List Tracee

abbrev pub blank : ℕ → ℕ → Semaphore
blank key nsems = record {
  key = key;
  generation = 0;
  valid = true;
  sems = replicate nsems 0;
  nsems = nsems;
}

-- The id of the set at this index, as the call returns it.
abbrev pub id_at : List Semaphore → ℕ → ℤ
id_at sems idx = elim (get_elem? sems idx) [
  | none ↦ neg einval
  | some s ↦ int_of (object_id idx s.generation)
]

unfoldable pub semget_existing : World → ℕ → ℕ → ℕ → ℤ
semget_existing w idx nsems flg =
    if has flg ipc_creat && has flg ipc_excl
    then neg eexist
    else elim (get_elem? w.semaphores idx) [
      | none ↦ neg einval
      | some s ↦ if ltb s.nsems nsems then neg einval else int_of (object_id idx s.generation)
    ]

-- A new set: in the first unused entry, which is cleared, or behind the last entry.
unfoldable pub semget_new : World → Option ℕ → ℕ → ℕ → ℕ → ℤ × World
semget_new w unused key nsems flg =
    if not (has flg ipc_creat) then (neg enoent, w) else elim unused [
      | some u ↦
          (let sems = set w.semaphores u (blank (int32 key) nsems) in
            (id_at sems u, record w { semaphores = sems }))
      | none ↦
          (let num = length w.semaphores in
            let sems = w.semaphores ++ blank (int32 key) nsems ∷ [] in
            if leb max_sems num
            then (neg enospc, w)
            else (id_at sems num, record w { semaphores = sems }))
    ]

unfoldable pub semget_by : World → ℕ → ℕ → ℕ → Scan → ℤ × World
unfolding semget_existing semget_new
semget_by w key nsems flg (existing idx) = (semget_existing w idx nsems flg, w)
semget_by w key nsems flg (absent unused) = semget_new w unused key nsems flg

-- sysvipc_semget. A negative `nsems` is above the limit as an unsigned number.
unfoldable pub semget : World → ℕ → ℕ → ℕ → ℤ × World
unfolding semget_by
semget w key nsems_word flg_word =
    let nsems = int32 nsems_word in
    if nsems == 0 || ltb max_nsems nsems
    then (neg einval, w)
    else semget_by w key nsems (int32 flg_word) (scan key w.semaphores 0 none)

-- The loop of semop over the other tracees: each that waits on the set is checked again.
unfoldable pub revisit : Semaphore → Tracee → Check → Semaphore × Tracee
revisit sem t would_wait = (sem, t)
revisit sem t (done vals) = (
  commit sem (done vals),
  wake_tracee (record t { config = record (t.config) { semop_sops = [] } }) (pos 0),
)
revisit sem t (fails e) =
    (sem, wake_tracee (record t { config = record (t.config) { semop_sops = [] } }) (neg e))

unfoldable pub visit : ℕ → ℕ → ℕ → Semaphore → Tracee → Semaphore × Tracee
unfolding revisit
visit ns me idx sem t =
    if not (t.pid == me) && waits_semop ns idx t
    then revisit sem t (sem_check t.config.semop_sops sem)
    else (sem, t)

unfoldable pub visit_all : ℕ → ℕ → ℕ → Semaphore → List Tracee → Semaphore × List Tracee
visit_all ns me idx sem [] = (sem, [])
visit_all ns me idx sem (t ∷ ts) =
    let (sem1, t1) = visit ns me idx sem t in
    let (sem2, ts1) = visit_all ns me idx sem1 ts in (sem2, t1 ∷ ts1)

abbrev pub start_wait : ℕ → List Sembuf → Config → Config
start_wait idx sops c = record c {
  wait_reason = wait_semop;
  waiting_object_index = idx;
  semop_sops = sops;
}

abbrev pub end_wait : Config → Config
end_wait c = record c { semop_sops = []; wait_reason = not_waiting }

-- The caller keeps waiting on status 1, and returns any other.
unfoldable pub settle : ℕ → Check → World → ℤ × World
settle me would_wait w = (pos 0, w)
settle me (done vals) w = (pos 0, record w { tracees = with_config me end_wait w.tracees })
settle me (fails e) w = (neg e, record w { tracees = with_config me end_wait w.tracees })

-- The caller starts to wait, its operations are checked, and then those of the other waiters.
unfoldable pub semop_pass : World → ℕ → ℕ → Semaphore → List Sembuf → World
semop_pass w me idx sem sops =
    let waiting = with_config me (start_wait idx sops) w.tracees in
    let (sem', ts) = visit_all w.namespace me idx (commit sem (sem_check sops sem)) waiting in
    record w { semaphores = set w.semaphores idx sem'; tracees = ts }

unfoldable pub semop_on : World → ℕ → ℕ → Semaphore → List Sembuf → ℤ × World
unfolding settle
semop_on w me idx sem sops = settle me (sem_check sops sem) (semop_pass w me idx sem sops)

abbrev pub any_out_of_range : ℕ → List Sembuf → Bool
any_out_of_range nsems [] = false
any_out_of_range nsems (sop ∷ sops) = leb nsems sop.sem_num || any_out_of_range nsems sops

-- What `read_data` gives: a negative status, or the operations read.
pub data Read : Type 0 where
  faulted : ℕ → Read
  got : List Sembuf → Read

unfoldable pub semop_read : World → ℕ → ℕ → Semaphore → Read → ℤ × World
semop_read w me idx sem (faulted e) = (neg e, w)
semop_read w me idx sem (got sops) =
    if any_out_of_range sem.nsems sops then (neg efbig, w) else semop_on w me idx sem sops

unfoldable pub semop_at : (ℕ → ℕ → Read) → World → ℕ → ℕ → ℕ → Option (ℕ × Semaphore) → ℤ × World
unfolding semop_read
semop_at read w me sops_ptr nsops none = (neg einval, w)
semop_at read w me sops_ptr nsops (some (idx, sem)) =
    if nsops == 0 || ltb max_nsops nsops
    then (neg einval, w)
    else semop_read w me idx sem (read sops_ptr nsops)

-- sysvipc_semop; `read ptr n` is `read_data` of `n` operations at `ptr` in the caller.
unfoldable pub semop : (ℕ → ℕ → Read) → World → ℕ → ℕ → ℕ → ℕ → ℤ × World
unfolding semop_at
semop read w me id sops_ptr nsops =
    semop_at read w me sops_ptr nsops (lookup_object w.semaphores id)

-- sysvipc_semop_timedout.
unfoldable pub semop_timedout : World → ℕ → World
semop_timedout w me = record w { tracees = with_config me end_wait w.tracees }

-- `struct SysVIpcSeminfo`, the fields that are set.
pub record Seminfo : Type 0 where
  pub semmni : ℕ
  pub semmns : ℕ
  pub semmsl : ℕ
  pub semopm : ℕ
  pub semvmx : ℕ
  pub semusz : ℕ
  pub semaem : ℕ

-- What a call writes to the caller's memory.
pub data Out : Type 0 where
  nothing : Out
  values : List ℕ → Out
  info : Seminfo → Out

abbrev pub used_sems : List Semaphore → ℕ
used_sems [] = 0
used_sems (s ∷ ss) = (if s.valid then s.nsems else 0) + used_sems ss

abbrev pub ipc_info : World → Bool → Seminfo
ipc_info w sem_info = record {
  semmni = max_sems;
  semmns = max_sems * max_nsems;
  semmsl = max_nsems;
  semopm = max_nsops;
  semvmx = max_semval;
  semusz = if sem_info then length w.semaphores else 0;
  semaem = if sem_info then used_sems w.semaphores else 0;
}

-- IPC_RMID. The generation is an `int16_t`.
unfoldable pub rmid : World → ℕ → Semaphore → World
rmid w idx sem = record w {
  semaphores =
      set w.semaphores idx
        (record sem { valid = false; generation = (sem.generation + 1) % 2 ^ 16; sems = [] });
  tracees = wake_all (waits_semop w.namespace idx) (neg eidrm) w.tracees;
}

unfoldable pub semctl_on : (ℕ → Out → ℤ) → World → ℕ → Semaphore → ℕ → ℕ → ℕ → ℤ × World × Out
unfolding rmid
semctl_on write w idx sem num cmd arg =
    if cmd == 12
    then (if leb sem.nsems num
        then (neg einval, w, nothing)
        else (pos (value_at sem.sems num), w, nothing))
    else if cmd == 16
    then (if leb sem.nsems num
        then (neg einval, w, nothing)
        else if ltb max_semval arg
        then (neg erange, w, nothing)
        else (
          pos 0,
          record w {
            semaphores = set w.semaphores idx (record sem { sems = set sem.sems num arg });
          },
          nothing,
        ))
    else if cmd == 13
    then (write arg (values sem.sems), w, values sem.sems)
    else if cmd == 0
    then (pos 0, rmid w idx sem, nothing)
    else if cmd == 3 || cmd == 19
    then (write arg (info (ipc_info w (cmd == 19))), w, info (ipc_info w (cmd == 19)))
    else (neg einval, w, nothing)

unfoldable pub semctl_at :
    (ℕ → Out → ℤ) → World → Option (ℕ × Semaphore) → ℕ → ℕ → ℕ → ℤ × World × Out
unfolding semctl_on
semctl_at write w none num cmd arg = (neg einval, w, nothing)
semctl_at write w (some (idx, sem)) num cmd arg = semctl_on write w idx sem num cmd arg

-- sysvipc_semctl; `write ptr out` is the status of the write, 0 or negative. A negative `sem_num`
-- is above `nsems` as an unsigned number.
unfoldable pub semctl : (ℕ → Out → ℤ) → World → ℕ → ℕ → ℕ → ℕ → ℤ × World × Out
unfolding semctl_at
semctl write w id num_word cmd_word arg =
    semctl_at write w (lookup_object w.semaphores id) (int32 num_word)
      (plain_command (int32 cmd_word)) arg
