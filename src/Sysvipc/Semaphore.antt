-- ===== src/Sysvipc/Semaphore.antt =====
-- src/extension/sysvipc/sysvipc_sem.c: semaphore sets. A handler takes the low 32 bits or the whole
-- words of the registers that it reads; `me` is the pid of the calling tracee.
pub mod Ops
pub mod Calls
pub mod Fit
pub mod Invariant
pub mod Wakeups
pub mod Conservation
pub mod Identity
pub mod Tests
use neoproot.Base.{
  ℕ, zero, suc, ◌+◌, ◌-◌, ◌*◌, ◌%◌, ◌^◌, Bool, true, false, not, ◌&&◌, ◌||◌, List, [], ◌∷◌, ◌++◌,
  Option, none, some, ltb, leb, ◌==◌, if◌then◌else◌, get_elem?, set, length, replicate,
}
use neoproot.Base.Int.{ℤ, pos, negsuc, neg}
use neoproot.Sysvipc.State.{
  einval, efbig, eagain, erange, enoent, enospc, eexist, eidrm, ipc_creat, ipc_excl, ipc_nowait,
  has, int32, int_of, plain_command, WaitReason, not_waiting, wait_semop, Sembuf, Config, Tracee,
  waits_semop, wake_tracee, wake_all, with_config, object_id, Object, lookup_object, scan, Scan,
  existing, absent,
}

abbrev pub max_sems : ℕ
max_sems = 512

abbrev pub max_nsems : ℕ
max_nsems = 512

abbrev pub max_nsops : ℕ
max_nsops = 512

abbrev pub max_semval : ℕ
max_semval = 0x7000

-- `struct SysVIpcSemaphore`; `sems` is empty where the source has no array.
pub record Semaphore : Type 0 where
  pub key : ℕ
  pub generation : ℕ
  pub valid : Bool
  pub sems : List ℕ
  pub nsems : ℕ

instance abbrev pub semaphore_object : Object Semaphore
semaphore_object = record { key = λ s. s.key; valid = λ s. s.valid; generation = λ s. s.generation }

-- What `sem_check` ends with: 0 with the new values, 1, or minus an errno.
pub data Check : Type 0 where
  done : List ℕ → Check
  would_wait : Check
  fails : ℕ → Check

-- The array is read within its bounds wherever the guard on `sem_num` has passed.
abbrev pub value_at : List ℕ → ℕ → ℕ
value_at [] i = 0
value_at (v ∷ vs) zero = v
value_at (v ∷ vs) (suc i) = value_at vs i

abbrev pub blocked : ℕ → Check
blocked flg = if has flg ipc_nowait then fails eagain else would_wait

-- A positive or zero sum is kept up to the limit, a negative one blocks.
unfoldable pub apply_op : List ℕ → ℕ → ℤ → ℕ → Check
apply_op vals num (pos zero) flg = if not (value_at vals num == 0) then blocked flg else done vals
apply_op vals num (pos (suc n)) flg =
    (let new_val = value_at vals num + suc n in
      if ltb max_semval new_val then fails erange else done (set vals num new_val))
apply_op vals num (negsuc n) flg =
    (let v = value_at vals num in
      if ltb v (suc n)
      then blocked flg
      else if ltb max_semval (v - suc n)
      then fails erange
      else done (set vals num (v - suc n)))

unfoldable pub check_op : ℕ → List ℕ → Sembuf → Check
unfolding apply_op
check_op nsems vals sop =
    if leb nsems sop.sem_num then fails efbig else apply_op vals sop.sem_num sop.sem_op sop.sem_flg

-- The first operation that does not pass ends the check.
abbrev pub and_then : Check → (List ℕ → Check) → Check
and_then (done vals) f = f vals
and_then would_wait f = would_wait
and_then (fails e) f = fails e

unfoldable pub check_ops : ℕ → List ℕ → List Sembuf → Check
check_ops nsems vals [] = done vals
check_ops nsems vals (sop ∷ sops) =
    and_then (check_op nsems vals sop) (λ vals'. check_ops nsems vals' sops)

unfoldable pub sem_check : List Sembuf → Semaphore → Check
sem_check sops sem =
    if ltb max_nsems sem.nsems then fails efbig else check_ops sem.nsems sem.sems sops

-- The set after a check: the values are copied back only if every operation passed.
abbrev pub commit : Semaphore → Check → Semaphore
commit sem (done vals) = record sem { sems = vals }
commit sem would_wait = sem
commit sem (fails e) = sem

abbrev pub status_of : Check → ℤ
status_of (done vals) = pos 0
status_of would_wait = pos 1
status_of (fails e) = neg e
