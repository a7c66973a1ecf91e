-- ===== src/Sysvipc/Waits/Tests.antt =====
-- Witnesses and runs at concrete inputs.
use neoproot.Base.{ℕ, ◌≡◌, refl, true, false, [], Option, none, some}
use neoproot.Base.Int.{ℤ, pos, neg}
use neoproot.Tracee.Regs.{set_sysnum, UserRegs, get_sysnum}
use neoproot.Sysvipc.State.{Config, wait_semop, not_waiting, idle, not_chained, eidrm}
use neoproot.Sysvipc.Waits.{
  Thread, Handlers, IpcCall, semop, put_config, after_call, syscall_common, common_call,
}
use neoproot.Sysvipc.Waits.Events.{enter_start, exit_start, wake, take_exit_status}
use neoproot.Sysvipc.Waits.Status.{
  Returns, thread_of, answered, IsInterrupted, interrupted, wake-Returns, exit_start-IsInterrupted,
}

abbrev registers : UserRegs
registers = record {
  num = 193;
  x0 = 1;
  x1 = 0x2000;
  x2 = 1;
  x3 = 0;
  x4 = 0;
  x5 = 0;
  sp = 0x8000;
  pc = 0x4000;
}

abbrev at_rest : Config
at_rest = record {
  ipc_namespace = 1;
  wait_reason = not_waiting;
  wait_state = idle;
  chain_state = not_chained;
  status_after_wait = pos 0;
  waiting_object_index = 0;
  msgrcv_msgp = 0;
  msgrcv_msgsz = 0;
  msgrcv_msgtyp = pos 0;
  msgrcv_msgflg = 0;
  semop_sops = [];
}

-- A thread that has made a semop.
abbrev thread : Thread
thread = record {
  tracee = record { pid = 10; config = at_rest; stops = 0; sigstop_ignored = false };
  regs = record {
    current = registers;
    original = registers;
    modified = registers;
    were_changed = false;
  };
  restart_at_exit = false;
  restore_regs = false;
}

abbrev waiting : Thread → Thread
waiting t = put_config t (record (t.tracee.config) { wait_reason = wait_semop })

abbrev waits : IpcCall → Thread → ℤ × Thread
waits semop t = (pos 0, waiting t)
waits _ t = (pos 7, t)

-- Handlers of which that of semop waits.
abbrev handlers : Handlers
handlers = record { call = waits; retry = λ t. none; shmat_chain = λ t. (pos 0, t) }

wake-Returns_example :
    Returns
      (exit_start handlers (wake (after_call false 0 (pos 0, waiting thread)).1 (neg eidrm)))
      (neg eidrm)
    × Returns
        (enter_start handlers (wake (after_call true 0 (pos 0, waiting thread)).1 (neg eidrm)))
        (neg eidrm)
    × Returns
        (exit_start handlers (
          wake
            (thread_of
              (waiting thread)
              (enter_start handlers (after_call true 0 (pos 0, waiting thread)).1))
            (neg eidrm)))
        (neg eidrm)
wake-Returns_example = wake-Returns handlers (waiting thread) (pos 0) (neg eidrm) 0 refl refl

exit_start-IsInterrupted_example : IsInterrupted (interrupted 0) (waiting thread) (
    take_exit_status
      (exit_start handlers (answered 0 (after_call false 0x3000 (pos 0, waiting thread)).1)))
exit_start-IsInterrupted_example =
    exit_start-IsInterrupted handlers (waiting thread) (pos 0) 0x3000 0 refl refl

abbrev sysnum_of : Option (ℤ × Thread) → Option ℕ
sysnum_of none = none
sysnum_of (some (r, t)) = some t.regs.current.num

-- A semop that waits becomes a ppoll.
semop_test : sysnum_of (syscall_common handlers false thread) ≡ some 73
unfolding syscall_common common_call after_call get_sysnum set_sysnum
semop_test = refl
