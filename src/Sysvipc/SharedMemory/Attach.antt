-- ===== src/Sysvipc/SharedMemory/Attach.antt =====
-- src/extension/sysvipc/sysvipc_shm.c: shmat, up to the start of its chain of calls.
use neoproot.Base.{
  ℕ, Bool, true, false, ◌||◌, List, [], ◌∷◌, Option, none, some, ◌==◌, if◌then◌else◌,
}
use neoproot.Base.Int.{ℤ, pos, neg}
use neoproot.Tracee.Regs.{Sysnum, other, sysarg_1, sysarg_2, sysarg_3, poke_reg, set_sysnum}
use neoproot.Chain.{ChainedSyscall, register_chained_syscall}
use neoproot.Sysvipc.State.{
  einval, ChainState, shmat_socket, shmat_connect, shmat_recvmsg, shmat_mmap, WaitReason,
  wait_shmat_helper_busy, wake_tracee, lookup_object,
}
use neoproot.Sysvipc.SharedMemory.{SharedMem, shared_mem_object, SharedMemMap, Task, World}

abbrev pub enomem : ℕ
enomem = 12

abbrev pub pr_socket : Sysnum
pr_socket = other 198

abbrev pub pr_connect : Sysnum
pr_connect = other 203

abbrev pub pr_recvmsg : Sysnum
pr_recvmsg = other 212

abbrev pub pr_close : Sysnum
pr_close = other 57

-- What the memory of the tracee and the helper answer: whether the address of the helper and the
-- message header could be written, the level and type of the control message that was read, the word
-- of its descriptor, and whether the helper took the request to hand the descriptor out.
pub record Answers : Type 0 where
  pub wrote_addr : Bool
  pub wrote_header : Bool
  pub control : Option (ℕ × ℕ)
  pub descriptor : Option ℕ
  pub distributed : Bool

-- Writes through the caller's pointer: the task is found by its pid.
unfoldable pub with_task : ℕ → (Task → Task) → List Task → List Task
with_task me f [] = []
with_task me f (t ∷ ts) = (if t.tracee.pid == me then f t else t) ∷ with_task me f ts

abbrev pub put_chain_state : ChainState → Task → Task
put_chain_state s t = record t {
  tracee = record (t.tracee) { config = record (t.tracee.config) { chain_state = s } };
}

abbrev pub chained : Sysnum → ℕ → ℕ → ℕ → ℕ → ℕ → ℕ → ChainedSyscall
chained n a1 a2 a3 a4 a5 a6 = record {
  sysnum = n;
  arg_1 = a1;
  arg_2 = a2;
  arg_3 = a3;
  arg_4 = a4;
  arg_5 = a5;
  arg_6 = a6;
}

unfoldable pub register : ChainedSyscall → Task → Task
register s t = record t { chain = register_chained_syscall t.chain s }

abbrev pub is_helper_wait : WaitReason → Bool
is_helper_wait wait_shmat_helper_busy = true
is_helper_wait _ = false

-- The states that keep the helper: `chain_state > CSTATE_SHMAT_SOCKET && chain_state <= CSTATE_SHMAT_MMAP`.
abbrev pub keeps_helper : ChainState → Bool
keeps_helper shmat_connect = true
keeps_helper shmat_recvmsg = true
keeps_helper shmat_mmap = true
keeps_helper _ = false

-- sysvipc_shm_wake_pending_shmat: the first tracee that waits for the helper starts its chain.
unfoldable pub wake_pending_shmat : List Task → List Task
unfolding register
wake_pending_shmat [] = []
wake_pending_shmat (t ∷ ts) =
    let rest = wake_pending_shmat ts in
    let woken : Task = record t { tracee = wake_tracee t.tracee (pos 0) } in
    if is_helper_wait t.tracee.config.wait_reason
    then put_chain_state shmat_socket (register (chained pr_socket 1 5 0 0 0 0) woken) ∷ ts
    else t ∷ rest

abbrev pub is_helper_busy : List Task → Bool
is_helper_busy [] = false
is_helper_busy (t ∷ ts) = keeps_helper t.tracee.config.chain_state || is_helper_busy ts

-- The caller's configuration once the segment is found.
abbrev pub at_object : ℕ → Task → Task
at_object idx t = record t {
  tracee = record (t.tracee) { config = record (t.tracee.config) { waiting_object_index = idx } };
}

abbrev pub wait_for_helper : Task → Task
wait_for_helper t = record t {
  tracee = record (t.tracee) {
    config = record (t.tracee.config) { wait_reason = wait_shmat_helper_busy };
  };
}

-- The call turned into a socket.
abbrev pub go_socket : Task → Task
go_socket t =
    let r1 = poke_reg (set_sysnum t.chain.regs pr_socket) sysarg_1 1 in
    let r2 = poke_reg r1 sysarg_2 5 in
    put_chain_state shmat_socket
      (record t { chain = record (t.chain) { regs = poke_reg r2 sysarg_3 0 } })

abbrev pub unfinished : ℕ → ℕ → SharedMemMap
unfinished process idx = record { addr = 0; size = 0; shm_index = idx; process = process }

unfoldable pub shmat_on : World → Task → Option (ℕ × SharedMem) → ℤ × World
shmat_on w t none = (neg einval, w)
shmat_on w t (some (idx, s)) =
    let next = if is_helper_busy w.tasks then wait_for_helper else go_socket in
    (
      pos 0,
      record {
        segments = record (w.segments) { maps = unfinished t.process idx ∷ w.segments.maps };
        tasks = with_task t.tracee.pid (λ u. next (at_object idx u)) w.tasks;
      },
    )

-- sysvipc_shmat.
unfoldable pub shmat : World → Task → ℕ → ℤ × World
unfolding shmat_on
shmat w t id = shmat_on w t (lookup_object w.segments.shms id)
