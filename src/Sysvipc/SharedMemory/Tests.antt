-- ===== src/Sysvipc/SharedMemory/Tests.antt =====
-- Witnesses at concrete inputs.
use neoproot.Base.{
  ℕ, ◌+◌, ◌≤◌, ◌≡◌, refl, true, false, [], ◌∷◌, none, some, arith, zero, suc, get_elem?,
}
use mathlib.Core.Option.{some-injective}
use mathlib.Core.Path.{subst}
use neoproot.Base.Int.{pos}
use neoproot.Chain.{inactive}
use neoproot.Tracee.Regs.{Regs, UserRegs}
use neoproot.Sysvipc.State.{Config, not_waiting, idle, not_chained}
use neoproot.Sysvipc.SharedMemory.{SharedMem, SharedMemMap, Segments, Task, World, attached}
use neoproot.Sysvipc.SharedMemory.Calls.{created, remove_mappings_from_process}
use neoproot.Sysvipc.SharedMemory.Attach.{Answers, shmat_on}
use neoproot.Sysvipc.SharedMemory.Sound.{Fits, IsSound}
use neoproot.Sysvipc.SharedMemory.Invariant.{
  get, ctl, fork, gone, run_segments, run_segments-IsSound,
}
use neoproot.Sysvipc.SharedMemory.Deferred.{IsClosed, remove_mappings_from_process-IsClosed}
use neoproot.Sysvipc.SharedMemory.Removal.{others, remove_mappings_from_process-eq}
use neoproot.Sysvipc.SharedMemory.Layout.{WordsIn, recvmsg_pointers-fit}
use neoproot.Sysvipc.SharedMemory.Header.{recvmsg_pointers, header_words}

-- Awaits its removal, with one mapping of process 1 and none of another.
abbrev removed : SharedMem
removed = record (created 7 4096 0o600 100 5) { rmid_pending = true }

abbrev alive : SharedMem
alive = created 8 8192 0o600 100 6

abbrev first_map : SharedMemMap
first_map = record { addr = 0x10000; size = 4096; shm_index = 0; process = 1 }

abbrev second_map : SharedMemMap
second_map = record { addr = 0x20000; size = 8192; shm_index = 1; process = 1 }

abbrev third_map : SharedMemMap
third_map = record { addr = 0x20000; size = 8192; shm_index = 1; process = 2 }

abbrev two_segments : Segments
two_segments = record {
  shms = removed ∷ alive ∷ [];
  maps = first_map ∷ second_map ∷ third_map ∷ [];
  freed = [];
}

each-Fits :
    (idx : ℕ) (s : SharedMem)
    → get_elem? two_segments.shms idx ≡ some s
    → Fits (attached idx two_segments.maps) s
each-Fits zero s e =
    subst (λ x. Fits 1 x) (some-injective removed s e)
      (record { dead = λ v. cc; awaited = λ r. omega arith })
each-Fits (suc zero) s e =
    subst (λ x. Fits 2 x) (some-injective alive s e) (record { dead = λ v. cc; awaited = λ r. cc })
each-Fits (suc (suc n)) s e = cc

two_segments-IsSound : IsSound two_segments
two_segments-IsSound = record { in_bounds = ground arith; kept = each-Fits }

abbrev no_tasks : World
no_tasks = record { segments = two_segments; tasks = [] }

run_segments-IsSound_example :
    IsSound
      (run_segments no_tasks (
        get 9 4096 0o1000 100 (some 7)
        ∷ fork 2 3
        ∷ ctl (λ b s. pos 0) 1 0 0
        ∷ gone 1
        ∷ gone 2
        ∷ [])).segments
run_segments-IsSound_example =
    run_segments-IsSound no_tasks
      (get 9 4096 0o1000 100 (some 7) ∷ fork 2 3 ∷ ctl (λ b s. pos 0) 1 0 0 ∷ gone 1 ∷ gone 2 ∷ [])
      two_segments-IsSound

remove_mappings_from_process-eq_example :
    (remove_mappings_from_process two_segments 1).maps ≡ others 1 two_segments.maps
remove_mappings_from_process-eq_example = remove_mappings_from_process-eq two_segments 1

remove_mappings_from_process-IsClosed_example :
    IsClosed removed 0 (remove_mappings_from_process two_segments 1)
remove_mappings_from_process-IsClosed_example =
    remove_mappings_from_process-IsClosed two_segments 1 0 removed two_segments-IsSound refl refl
      refl

recvmsg_pointers-fit_example :
    ((recvmsg_pointers 0x7ffc0000).msghdr_ptr ≡ 0x7ffc0022)
    × ((recvmsg_pointers 0x7ffc0000).cmsg_controllen_ptr
        ≡ (recvmsg_pointers 0x7ffc0000).msghdr_ptr + 40)
    × ((recvmsg_pointers 0x7ffc0000).msghdr_ptr + 56 ≤ 0x7ffc0000 + 110)
    × WordsIn 20 110 (header_words 0x7ffc0000)
recvmsg_pointers-fit_example = recvmsg_pointers-fit 0x7ffc0000 (omega arith)

abbrev registers : UserRegs
registers = record {
  num = 196;
  x0 = 1;
  x1 = 0;
  x2 = 0;
  x3 = 0;
  x4 = 0;
  x5 = 0;
  sp = 0x8000;
  pc = 0x4000;
}

abbrev at_rest : Config
at_rest = record {
  ipc_namespace = 1;
  wait_reason = not_waiting;
  wait_state = idle;
  chain_state = not_chained;
  status_after_wait = pos 0;
  waiting_object_index = 0;
  msgrcv_msgp = 0;
  msgrcv_msgsz = 0;
  msgrcv_msgtyp = pos 0;
  msgrcv_msgflg = 0;
  semop_sops = [];
}

-- A task that has made no call of a chain.
abbrev task : ℕ → Task
task pid = record {
  tracee = record { pid = pid; config = at_rest; stops = 0; sigstop_ignored = false };
  chain = record {
    syscalls = none;
    force_final_result = false;
    final_result = 0;
    workaround = inactive;
    restore_original_regs = false;
    restart_at_exit = false;
    regs = record {
      current = registers;
      original = registers;
      modified = registers;
      were_changed = false;
    };
  };
  process = pid;
  shmat_guest_buf = 0;
  shmat_socket_fd = 0;
  shmat_mem_fd = 0;
}

abbrev two_tasks : World
two_tasks = record { segments = two_segments; tasks = task 1 ∷ task 2 ∷ [] }

-- The socket of a call has the descriptor 5.
abbrev opened : Regs
opened = record {
  current = record registers { x0 = 5 };
  original = registers;
  modified = registers;
  were_changed = false;
}

abbrev helpful : Answers
helpful = record {
  wrote_addr = true;
  wrote_header = true;
  control = none;
  descriptor = none;
  distributed = true;
}

abbrev both_called : World
both_called =
    (shmat_on (shmat_on two_tasks (task 1) (some (1, alive))).1 (task 2) (some (1, alive))).1
