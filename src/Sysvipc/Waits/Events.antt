-- ===== src/Sysvipc/Waits/Events.antt =====
-- src/extension/sysvipc/sysvipc.c: the events of sysvipc_callback on a tracee's calls.
use neoproot.Base.{Bool, true, false, ◌||◌, [], Option, none, some, ◌==◌, if◌then◌else◌}
use neoproot.Base.Int.{ℤ, pos, negsuc, neg, is_neg}
use neoproot.Tracee.Regs.{
  RegVersion, pr_void, sysarg_3, sysarg_result, peek_reg, poke_reg, set_sysnum,
}
use neoproot.Sysvipc.State.{
  Config, WaitState, idle, restarted_into_ppoll_canceled, restarted_into_ppoll, entered_ppoll,
  signaled_ppoll, entered_getpid, is_semop, not_waiting, wake_tracee, int32, int_of, eintr,
}
use neoproot.Sysvipc.Waits.{
  Thread, Handlers, put_config, put_state, word_of, is_shmat, is_msgrcv_retry, syscall_common,
}

-- The status of a wait that was ended: that of a second receipt where one was asked for.
abbrev pub wait_status : Handlers → Thread → Option (ℤ × Thread)
wait_status h t =
    if is_msgrcv_retry t.tracee.config.chain_state
    then h.retry t
    else some (t.tracee.config.status_after_wait, t)

abbrev cancel_ppoll : Option (ℤ × Thread) → Option (ℤ × Thread)
cancel_ppoll none = none
cancel_ppoll (some (status, t)) = some (
  pos 1,
  record (put_state t idle) {
    regs = set_sysnum (poke_reg t.regs sysarg_result (word_of status)) pr_void;
  },
)

abbrev give_status : Option (ℤ × Thread) → Option (ℤ × Thread)
give_status none = none
give_status (some (status, t)) =
    some (pos 1, record t { regs = poke_reg t.regs sysarg_result (word_of status) })

unfoldable pub enter_by : Handlers → Thread → WaitState → Option (ℤ × Thread)
enter_by h t idle = syscall_common h false t
enter_by h t restarted_into_ppoll =
    some (pos 1, record (put_state t entered_ppoll) { restart_at_exit = true })
enter_by h t restarted_into_ppoll_canceled = cancel_ppoll (wait_status h t)
enter_by h t _ = some (pos 0, t)

-- SYSCALL_ENTER_START.
unfoldable pub enter_start : Handlers → Thread → Option (ℤ × Thread)
unfolding enter_by
enter_start h t = enter_by h t t.tracee.config.wait_state

-- SIGSYS_OCC.
unfoldable pub sigsys : Handlers → Thread → Option (ℤ × Thread)
sigsys h t = syscall_common h true t

-- A ppoll that nobody ended: the wait is over, and the call is interrupted.
abbrev pub is_efault_or_eintr : ℤ → Bool
is_efault_or_eintr (pos n) = false
is_efault_or_eintr (negsuc n) = n == 13 || n == 3

abbrev pub leave_ppoll : Thread → ℤ × Thread
leave_ppoll t =
    let c : Config = record (t.tracee.config) {
      wait_state = idle;
      semop_sops = if is_semop t.tracee.config.wait_reason then [] else t.tracee.config.semop_sops;
      wait_reason = not_waiting;
    } in
    let status = int_of (int32 (peek_reg t.regs RegVersion.current sysarg_result)) in
    (if is_efault_or_eintr status then pos 1 else neg eintr, put_config t c)

unfoldable pub exit_by : Handlers → Thread → WaitState → Option (ℤ × Thread)
exit_by h t entered_ppoll = some (leave_ppoll t)
exit_by h t signaled_ppoll = give_status (wait_status h (put_state t idle))
exit_by h t entered_getpid = give_status (wait_status h (put_state t idle))
exit_by h t _ = some (pos 0, t)

-- SYSCALL_EXIT_START.
unfoldable pub exit_start : Handlers → Thread → Option (ℤ × Thread)
unfolding exit_by
exit_start h t =
    if is_shmat t.tracee.config.chain_state
    then some (h.shmat_chain t)
    else exit_by h t t.tracee.config.wait_state

-- What translate_syscall_exit does with the status of this event: a failure is put in the result
-- register, and the call is over unless the status is 0.
unfoldable pub take_exit_status : Option (ℤ × Thread) → Option Thread
take_exit_status none = none
take_exit_status (some (status, t)) = some (record t {
  regs = if is_neg status then poke_reg t.regs sysarg_result (word_of status) else t.regs;
})

abbrev chained_enter_by : Thread → WaitState → Thread
chained_enter_by t restarted_into_ppoll_canceled = record (put_state t signaled_ppoll) {
  regs = poke_reg t.regs sysarg_3 1;
}
chained_enter_by t _ = t

-- SYSCALL_CHAINED_ENTER.
unfoldable pub chained_enter : Thread → Thread
chained_enter t = chained_enter_by t t.tracee.config.wait_state

abbrev chained_exit_by : Handlers → Thread → WaitState → Thread
chained_exit_by h t signaled_ppoll = put_state t idle
chained_exit_by h t _ = if is_shmat t.tracee.config.chain_state then (h.shmat_chain t).1 else t

-- SYSCALL_CHAINED_EXIT.
unfoldable pub chained_exit : Handlers → Thread → Thread
chained_exit h t = chained_exit_by h t t.tracee.config.wait_state

-- What sysvipc_wake_tracee does to the tracee of a thread.
unfoldable pub wake : Thread → ℤ → Thread
wake t status = record t { tracee = wake_tracee t.tracee status }
