-- ===== src/Sysvipc/Waits/Status.antt =====
-- A call that blocks returns to its caller with the status that it was woken with.
use neoproot.Base.{
  ℕ, Bool-cases, inl, inr, ◌≡◌, refl, true, false, [], Option, none, some, if◌then◌else◌,
}
use neoproot.Base.Int.{ℤ, pos, neg}
use neoproot.Tracee.Regs.{RegVersion, sysarg_result, peek_reg, poke_reg, set_sysnum}
use neoproot.Sysvipc.State.{
  int32, int_of, is_semop, idle, is_waiting, not_waiting, not_chained, wake_tracee, eintr,
}
use neoproot.Sysvipc.Waits.{Thread, Handlers, word_of, after_call, restart_after_seccomp}
use neoproot.Sysvipc.Waits.Events.{
  is_efault_or_eintr, enter_start, enter_by, exit_start, exit_by, wake, take_exit_status,
}

-- The kernel's answer to the call that the thread made.
abbrev pub answered : ℕ → Thread → Thread
answered answer t = record t { regs = poke_reg t.regs sysarg_result answer }

-- The event ends with status 1, the result in the register, and nothing left of the wait.
abbrev pub Returns : Option (ℤ × Thread) → ℤ → Type 0
Returns none status = ⊥
Returns (some (r, t)) status =
    (r ≡ pos 1)
    × (peek_reg t.regs RegVersion.current sysarg_result ≡ word_of status)
    × (t.tracee.config.wait_state ≡ idle)
    × (t.tracee.config.wait_reason ≡ not_waiting)

-- The thread after the event; a failing assertion leaves it.
abbrev pub thread_of : Thread → Option (ℤ × Thread) → Thread
thread_of t none = t
thread_of t (some (r, t')) = t'

-- Where a handler has begun to wait and no chain is pending, the tracee may be woken at three
-- moments: in the ppoll that the call was made into at its entry; before it enters the ppoll that a
-- SIGSYS restarted it into; and after it has entered that one. Each time its call returns the status
-- that it was woken with, and the wait is over.
pub wake-Returns :
    (h : Handlers) (t : Thread) (first status : ℤ) (timeout : ℕ)
    → t.tracee.config.chain_state ≡ not_chained
    → is_waiting t.tracee.config.wait_reason ≡ true
    → Returns (exit_start h (wake (after_call false timeout (first, t)).1 status)) status
      × Returns (enter_start h (wake (after_call true timeout (first, t)).1 status)) status
      × Returns
          (exit_start h
            (wake (thread_of t (enter_start h (after_call true timeout (first, t)).1)) status))
          status
unfolding after_call enter_start exit_start wake wake_tracee peek_reg poke_reg set_sysnum
    restart_after_seccomp enter_by exit_by
wake-Returns h t first status timeout c w =
    simp (c, w) ((refl, refl, refl, refl), (refl, refl, refl, refl), (refl, refl, refl, refl))

-- The call has this result, and nothing is left of the wait of `t`.
abbrev pub IsInterrupted : ℕ → Thread → Option Thread → Type 0
IsInterrupted result t none = ⊥
IsInterrupted result t (some t') =
    (peek_reg t'.regs RegVersion.current sysarg_result ≡ result)
    × (t'.tracee.config.wait_state ≡ idle)
    × (t'.tracee.config.wait_reason ≡ not_waiting)
    × (is_semop t.tracee.config.wait_reason ≡ true → t'.tracee.config.semop_sops ≡ [])

-- -EINTR, or the answer of the ppoll where that is -EINTR or -EFAULT.
abbrev pub interrupted : ℕ → ℕ
interrupted answer =
    if is_efault_or_eintr (int_of (int32 answer)) then answer else word_of (neg eintr)

-- A call that blocks and is not woken before its ppoll ends, whatever ppoll answers, a timeout
-- included, has -EINTR in its result register once the tracer has handled its exit, or the answer of
-- the ppoll where that is -EINTR or -EFAULT. The wait is over, and the operations of a semop are
-- dropped.
pub exit_start-IsInterrupted :
    (h : Handlers) (t : Thread) (first : ℤ) (timeout answer : ℕ)
    → t.tracee.config.chain_state ≡ not_chained
    → is_waiting t.tracee.config.wait_reason ≡ true
    → IsInterrupted
        (interrupted answer)
        t
        (take_exit_status (exit_start h (answered answer (after_call false timeout (first, t)).1)))
unfolding after_call exit_start exit_by peek_reg poke_reg set_sysnum take_exit_status
exit_start-IsInterrupted h t first timeout answer c w =
    simp (c, w)
      (
        elim (Bool-cases (is_efault_or_eintr (int_of (int32 answer)))) [
          | inl b ↦ rw b refl
          | inr b ↦ rw b refl
        ],
        refl,
        refl,
        (λ s. simp s refl),
      )

-- A call that is over at once, with no chain and no wait. Where it was stopped at its entry, a getpid
-- is made, and at its exit the result register gets the status, whatever getpid answered. Where it
-- was a SIGSYS, the register has the status at once, and the wait state is as it was.
after_call-Returns :
    (h : Handlers) (t : Thread) (status : ℤ) (timeout answer : ℕ)
    → t.tracee.config.chain_state ≡ not_chained
    → t.tracee.config.wait_reason ≡ not_waiting
    → Returns (exit_start h (answered answer (after_call false timeout (status, t)).1)) status
      × (peek_reg (after_call true timeout (status, t)).1.regs RegVersion.current sysarg_result
          ≡ word_of status)
      × ((after_call true timeout (status, t)).1.tracee.config.wait_state
          ≡ t.tracee.config.wait_state)
unfolding after_call exit_start exit_by peek_reg poke_reg set_sysnum
after_call-Returns h t status timeout answer c w =
    simp (c, w) ((refl, refl, refl, refl), refl, refl)
