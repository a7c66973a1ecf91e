-- ===== src/Sysvipc/State.antt =====
-- sysvipc_internal.h and `sysvipc_wake_tracee` of sysvipc.c: the state that the three kinds of
-- objects share. Allocation is taken to succeed. A tracee that has no configuration is skipped by
-- every loop over the tracees, so the list of tracees holds those that have one.
pub mod Ids
use neoproot.Base.{
  ℕ, suc, zero, ◌+◌, ◌-◌, ◌*◌, ◌/◌, ◌%◌, ◌^◌, bit_and, bit_or, Bool, true, false, not, ◌&&◌, ◌||◌,
  List, [], ◌∷◌, Option, none, some, ltb, leb, ◌==◌, if◌then◌else◌, get_elem?,
}
use neoproot.Base.Int.{ℤ, pos, negsuc}

abbrev pub eagain : ℕ
eagain = 11

abbrev pub enoent : ℕ
enoent = 2

abbrev pub eintr : ℕ
eintr = 4

abbrev pub e2big : ℕ
e2big = 7

abbrev pub eexist : ℕ
eexist = 17

abbrev pub einval : ℕ
einval = 22

abbrev pub efbig : ℕ
efbig = 27

abbrev pub enospc : ℕ
enospc = 28

abbrev pub erange : ℕ
erange = 34

abbrev pub enomsg : ℕ
enomsg = 42

abbrev pub eidrm : ℕ
eidrm = 43

abbrev pub ipc_creat : ℕ
ipc_creat = 0o1000

abbrev pub ipc_excl : ℕ
ipc_excl = 0o2000

abbrev pub ipc_nowait : ℕ
ipc_nowait = 0o4000

-- `flags & bit`, as a condition.
abbrev pub has : ℕ → ℕ → Bool
has flags bit = not (bit_and flags bit == 0)

-- The low 32 bits of a register, as `int` and `int32_t` keep them.
abbrev pub int32 : ℕ → ℕ
int32 w = w % 2 ^ 32

-- The number that 32 bits stand for as an `int`.
abbrev pub int_of : ℕ → ℤ
int_of w = if ltb w (2 ^ 31) then pos w else negsuc (2 ^ 32 - 1 - w)

-- `cmd &= ~SYSVIPC_IPC_64`.
abbrev pub plain_command : ℕ → ℕ
plain_command cmd = bit_and cmd (2 ^ 32 - 1 - 0x100)

pub data WaitReason : Type 0 where
  not_waiting wait_queue_recv wait_semop wait_shmat_helper_busy : WaitReason

pub data WaitState : Type 0 where
  idle restarted_into_ppoll_canceled restarted_into_ppoll entered_ppoll : WaitState
  signaled_ppoll entered_getpid : WaitState

pub data ChainState : Type 0 where
  not_chained single shmat_socket shmat_connect shmat_recvmsg shmat_mmap : ChainState
  msgrcv_retry : ChainState

-- `struct SysVIpcSembuf`; the 16 bits of `sem_flg` are kept as a number.
pub record Sembuf : Type 0 where
  pub sem_num : ℕ
  pub sem_op : ℤ
  pub sem_flg : ℕ

-- `struct SysVIpcConfig`, without what only the shmat chain uses.
pub record Config : Type 0 where
  pub ipc_namespace : ℕ
  pub wait_reason : WaitReason
  pub wait_state : WaitState
  pub chain_state : ChainState
  pub status_after_wait : ℤ
  pub waiting_object_index : ℕ
  pub msgrcv_msgp : ℕ
  pub msgrcv_msgsz : ℕ
  pub msgrcv_msgtyp : ℤ
  pub msgrcv_msgflg : ℕ
  pub semop_sops : List Sembuf

-- A tracee with its configuration; `stops` counts the SIGSTOPs sent to it, and `sigstop_ignored` is
-- `t->sigstop == SIGSTOP_IGNORED`.
pub record Tracee : Type 0 where
  pub pid : ℕ
  pub config : Config
  pub stops : ℕ
  pub sigstop_ignored : Bool

abbrev pub is_waiting : WaitReason → Bool
is_waiting not_waiting = false
is_waiting wait_queue_recv = true
is_waiting wait_semop = true
is_waiting wait_shmat_helper_busy = true

abbrev pub is_semop : WaitReason → Bool
is_semop not_waiting = false
is_semop wait_queue_recv = false
is_semop wait_semop = true
is_semop wait_shmat_helper_busy = false

abbrev pub is_queue_recv : WaitReason → Bool
is_queue_recv not_waiting = false
is_queue_recv wait_queue_recv = true
is_queue_recv wait_semop = false
is_queue_recv wait_shmat_helper_busy = false

-- What waking does by the wait state: a tracee in `ppoll` is stopped, one that is about to enter
-- it is told not to.
wake_by : WaitState → Tracee → Tracee
wake_by entered_ppoll t = record t {
  config = record (t.config) { wait_state = signaled_ppoll };
  stops = suc t.stops;
  sigstop_ignored = true;
}
wake_by restarted_into_ppoll t = record t {
  config = record (t.config) { wait_state = restarted_into_ppoll_canceled };
}
wake_by _ t = t

unfoldable pub wake_tracee : Tracee → ℤ → Tracee
unfolding wake_by
wake_tracee t status = wake_by t.config.wait_state (record t {
  config = record (t.config) { wait_reason = not_waiting; status_after_wait = status };
})

-- The tracee waits in the namespace on the object at this index.
abbrev pub waits_semop : ℕ → ℕ → Tracee → Bool
waits_semop ns idx t =
    t.config.ipc_namespace == ns
    && is_semop t.config.wait_reason
    && t.config.waiting_object_index == idx

abbrev pub waits_queue : ℕ → ℕ → Tracee → Bool
waits_queue ns idx t =
    t.config.ipc_namespace == ns
    && is_queue_recv t.config.wait_reason
    && t.config.waiting_object_index == idx

-- The IPC_RMID loops: wake every tracee that waits on the object.
unfoldable pub wake_all : (Tracee → Bool) → ℤ → List Tracee → List Tracee
wake_all waits status [] = []
wake_all waits status (t ∷ ts) =
    (if waits t then wake_tracee t status else t) ∷ wake_all waits status ts

-- Writes through the caller's `config` pointer: the tracee is found by its pid.
unfoldable pub with_config : ℕ → (Config → Config) → List Tracee → List Tracee
with_config me f [] = []
with_config me f (t ∷ ts) =
    (if t.pid == me then record t { config = f t.config } else t) ∷ with_config me f ts

-- `(unsigned int) generation << 12` of an `int16_t`, kept as 16 bits.
abbrev pub generation_bits : ℕ → ℕ
generation_bits g = ((if ltb g 0x8000 then g else g + 0xffff_0000) * 4096) % 2 ^ 32

-- IPC_OBJECT_ID as the get calls return it, in 32 bits.
unfoldable pub object_id : ℕ → ℕ → ℕ
object_id idx generation = bit_or (idx + 1) (generation_bits generation)

-- `generation != ((object_id >> 12) & 0xFFFF)`, negated: a negative generation never fits.
abbrev pub generation_fits : ℕ → ℕ → Bool
generation_fits g id = ltb g 0x8000 && g == (id / 4096) % 0x1_0000

-- What LOOKUP_IPC_OBJECT and the get calls read of an object of any kind.
pub record Object (A : Type 0) : Type 0 where
  pub key : A → ℕ
  pub valid : A → Bool
  pub generation : A → ℕ

module _ {A : Type 0} ⦃o : Object A⦄ where
  abbrev found_at : ℕ → ℕ → Option A → Option (ℕ × A)
  found_at id i none = none
  found_at id i (some a) =
      if not (o.valid a) || not (generation_fits (o.generation a) id) then none else some (i, a)

  -- LOOKUP_IPC_OBJECT; `none` is -EINVAL.
  unfoldable pub lookup_object : List A → ℕ → Option (ℕ × A)
  lookup_object objects w =
      let id = int32 w in
      let index = id % 0x1000 in
      if index == 0 then none else found_at id (index - 1) (get_elem? objects (index - 1))

-- What the scan of msgget, semget and shmget ends with.
pub data Scan : Type 0 where
  existing : ℕ → Scan
  absent : Option ℕ → Scan

module _ {A : Type 0} ⦃o : Object A⦄ where
  -- From index `idx`, with the first unused index so far. IPC_PRIVATE is key 0; the test against it
  -- reads the whole register.
  unfoldable pub scan : ℕ → List A → ℕ → Option ℕ → Scan
  scan key [] idx unused = absent unused
  scan key (a ∷ rest_of) idx unused =
      let rest =
        scan key rest_of (idx + 1)
          (if o.valid a then unused else elim unused [ none ↦ some idx | some u ↦ some u ]) in
      if o.valid a && not (key == 0) && o.key a == int32 key then existing idx else rest
