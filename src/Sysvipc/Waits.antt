-- ===== src/Sysvipc/Waits.antt =====
-- src/extension/sysvipc/sysvipc.c: how a call that blocks is turned into a ppoll that the tracee waits
-- in, and how its status comes back: sysvipc_syscall_common and the events of sysvipc_callback.
-- On arm64. What push_specific_regs tells the kernel is not modelled.
pub mod Events
pub mod Status
pub mod Tests
use neoproot.Base.{
  ℕ, ◌+◌, ◌-◌, ◌%◌, ◌^◌, Bool, true, false, not, ◌&&◌, ◌||◌, List, [], Option, none, some, ◌==◌,
  if◌then◌else◌,
}
use neoproot.Base.Int.{ℤ, pos, negsuc, neg}
use neoproot.Base.Words.{word_mod, sub64}
use neoproot.Tracee.Regs.{
  Regs, RegVersion, Sysnum, other, pr_void, pr_getpid, pr_ppoll, sysarg_1, sysarg_2, sysarg_3,
  sysarg_4, sysarg_result, instr_pointer, peek_reg, poke_reg, get_sysnum, set_sysnum,
}
use neoproot.Sysvipc.State.{
  Config, Tracee, WaitState, ChainState, not_chained, single, shmat_socket, shmat_connect,
  shmat_recvmsg, shmat_mmap, msgrcv_retry, idle, restarted_into_ppoll_canceled,
  restarted_into_ppoll, entered_ppoll, signaled_ppoll, entered_getpid, is_waiting, is_semop,
  not_waiting, wake_tracee, int32, int_of,
}

-- The tracee of an event: its ipc state, its registers, `restart_how == PTRACE_SYSCALL`, and
-- `restore_original_regs_after_seccomp_event`.
pub record Thread : Type 0 where
  pub tracee : Tracee
  pub regs : Regs
  pub restart_at_exit : Bool
  pub restore_regs : Bool

pub data IpcCall : Type 0 where
  msgget msgsnd msgrcv msgctl semget semop semtimedop semctl shmget shmat shmdt shmctl : IpcCall

-- The handlers that the dispatch calls, each with its status: of the twelve calls, of the retry of a
-- msgrcv (`none` where its assertion fails), and of the next call of a shmat.
pub record Handlers : Type 0 where
  pub call : IpcCall → Thread → ℤ × Thread
  pub retry : Thread → Option (ℤ × Thread)
  pub shmat_chain : Thread → ℤ × Thread

-- The cases of the switch, by their arm64 numbers.
abbrev pub ipc_number : ℕ → Option IpcCall
ipc_number n =
    if n == 186
    then some msgget
    else if n == 187
    then some msgctl
    else if n == 188
    then some msgrcv
    else if n == 189
    then some msgsnd
    else if n == 190
    then some semget
    else if n == 191
    then some semctl
    else if n == 192
    then some semtimedop
    else if n == 193
    then some semop
    else if n == 194
    then some shmget
    else if n == 195
    then some shmctl
    else if n == 196
    then some shmat
    else if n == 197
    then some shmdt
    else none

abbrev pub ipc_call : Sysnum → Option IpcCall
ipc_call (other n) = ipc_number n
ipc_call _ = none

-- An `int` status as the word of a register.
abbrev pub word_of : ℤ → ℕ
word_of (pos n) = n % word_mod
word_of (negsuc n) = word_mod - 1 - n % word_mod

abbrev pub is_idle : WaitState → Bool
is_idle idle = true
is_idle _ = false

abbrev pub is_chained : ChainState → Bool
is_chained not_chained = false
is_chained _ = true

abbrev pub end_single : ChainState → ChainState
end_single single = not_chained
end_single c = c

abbrev pub is_shmat : ChainState → Bool
is_shmat shmat_socket = true
is_shmat shmat_connect = true
is_shmat shmat_recvmsg = true
is_shmat shmat_mmap = true
is_shmat _ = false

abbrev pub is_msgrcv_retry : ChainState → Bool
is_msgrcv_retry msgrcv_retry = true
is_msgrcv_retry _ = false

abbrev pub put_config : Thread → Config → Thread
put_config t c = record t { tracee = record (t.tracee) { config = c } }

abbrev pub put_state : Thread → WaitState → Thread
put_state t s = put_config t (record (t.tracee.config) { wait_state = s })

-- restart_syscall_after_seccomp.
unfoldable pub restart_after_seccomp : Thread → Thread
restart_after_seccomp t = record t {
  restore_regs = true;
  restart_at_exit = true;
  regs = poke_reg t.regs instr_pointer (sub64 (peek_reg t.regs RegVersion.current instr_pointer) 4);
}

-- A call that goes on as a chain of calls.
abbrev pub go_on_chained : Bool → Thread → ℤ × Thread
go_on_chained from_sigsys t =
    let c : Config = record (t.tracee.config) {
      chain_state = end_single t.tracee.config.chain_state;
    } in
    let t1 : Thread = record (put_config t c) { restart_at_exit = true } in
    if from_sigsys then (pos 2, restart_after_seccomp t1) else (pos 1, t1)

-- A call that blocks: ppoll with no descriptors.
abbrev pub go_into_ppoll : Bool → ℕ → Thread → ℤ × Thread
go_into_ppoll from_sigsys timeout t =
    let r1 = poke_reg t.regs sysarg_1 0 in
    let r2 = poke_reg r1 sysarg_2 0 in
    let r3 = poke_reg r2 sysarg_3 timeout in
    let r4 = poke_reg r3 sysarg_4 0 in
    let t1 : Thread = record t { regs = set_sysnum r4 pr_ppoll; restart_at_exit = true } in
    if from_sigsys
    then (pos 2, restart_after_seccomp (put_state t1 restarted_into_ppoll))
    else (pos 1, put_state t1 entered_ppoll)

-- A call that is over: at the entry of a call, getpid is made in its place.
abbrev pub finish : Bool → ℤ → Thread → ℤ × Thread
finish from_sigsys status t =
    let c : Config = record (t.tracee.config) {
      status_after_wait = status;
      wait_state = entered_getpid;
    } in
    if from_sigsys
    then (pos 2, record t { regs = poke_reg t.regs sysarg_result (word_of status) })
    else (
      pos 1,
      record (put_config t c) { regs = set_sysnum t.regs pr_getpid; restart_at_exit = true },
    )

unfoldable pub after_call : Bool → ℕ → ℤ × Thread → ℤ × Thread
unfolding restart_after_seccomp
after_call from_sigsys timeout (status, t) =
    if is_chained t.tracee.config.chain_state
    then go_on_chained from_sigsys t
    else if is_waiting t.tracee.config.wait_reason
    then go_into_ppoll from_sigsys timeout t
    else finish from_sigsys status t

abbrev pub timeout_of : IpcCall → Regs → ℕ
timeout_of semtimedop r = peek_reg r RegVersion.current sysarg_4
timeout_of _ r = 0

unfoldable pub common_call : Handlers → Bool → Thread → Option IpcCall → ℤ × Thread
unfolding after_call
common_call h from_sigsys t none = (pos 0, t)
common_call h from_sigsys t (some c) = after_call from_sigsys (timeout_of c t.regs) (h.call c t)

-- sysvipc_syscall_common; `none` where the assertion fails.
unfoldable pub syscall_common : Handlers → Bool → Thread → Option (ℤ × Thread)
unfolding common_call
syscall_common h from_sigsys t =
    if not (is_idle t.tracee.config.wait_state)
    then none
    else some (common_call h from_sigsys t (ipc_call (get_sysnum t.regs RegVersion.current)))
