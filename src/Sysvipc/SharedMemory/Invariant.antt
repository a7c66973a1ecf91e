-- ===== src/Sysvipc/SharedMemory/Invariant.antt =====
-- What holds of the segments over any sequence of calls, forks and exits.
use neoproot.Base.{ℕ, List, [], ◌∷◌, Option, none, some, arith, length, get_elem?}
use neoproot.Base.Int.{ℤ}
use neoproot.Tracee.Regs.{RegVersion, sysarg_2, sysarg_result, peek_reg}
use neoproot.Sysvipc.State.{
  int32, ChainState, not_chained, single, shmat_socket, shmat_connect, shmat_recvmsg, shmat_mmap,
  msgrcv_retry,
}
use neoproot.Sysvipc.SharedMemory.{Stats, SharedMem, shared_mem_object, Task, World, is_pending}
use neoproot.Sysvipc.SharedMemory.Calls.{
  shmget, shmdt, shmctl, inherit_process, remove_mappings_from_process,
}
use neoproot.Sysvipc.SharedMemory.Attach.{Answers, shmat, with_task}
use neoproot.Sysvipc.SharedMemory.Steps.{
  shmat_chain, chain_by, chain_socket, chain_connect, chain_recvmsg, chain_mmap, with_descriptor,
  fail_close_socket, fail_dont_close, give_up, with_socket,
}
use neoproot.Sysvipc.SharedMemory.Sound.{IsSound, free_found-IsSound}
use neoproot.Sysvipc.SharedMemory.Entries.{shmget-IsSound, shmdt-IsSound}
use neoproot.Sysvipc.SharedMemory.Mappings.{
  shmctl-IsSound, inherit_process-IsSound, remove_mappings-IsSound, shmat-IsSound,
  finish_map-IsSound,
}

fail_close_socket-IsSound :
    (w : World) (t : Task) → IsSound w.segments → IsSound (fail_close_socket w t).1.segments
unfolding fail_close_socket give_up
fail_close_socket-IsSound w t h =
    free_found-IsSound w.segments (is_pending t.process t.tracee.config.waiting_object_index) h

fail_dont_close-IsSound :
    (w : World) (t : Task) → IsSound w.segments → IsSound (fail_dont_close w t).1.segments
unfolding fail_dont_close give_up
fail_dont_close-IsSound w t h =
    free_found-IsSound w.segments (is_pending t.process t.tracee.config.waiting_object_index) h

chain_socket-IsSound :
    (a : Answers) (w : World) (t : Task)
    → IsSound w.segments
    → IsSound (chain_socket a w t).1.segments
unfolding chain_socket
chain_socket-IsSound a w t h = ground (
  arith,
  h,
  fail_dont_close-IsSound
      (record w {
        tasks =
            with_task t.tracee.pid
              (with_socket (int32 (peek_reg t.chain.regs RegVersion.current sysarg_result)))
              w.tasks;
      })
      t h,
)

chain_connect-IsSound :
    (a : Answers) (w : World) (t : Task)
    → IsSound w.segments
    → IsSound (chain_connect a w t).1.segments
unfolding chain_connect
chain_connect-IsSound a w t h = ground (arith, h, fail_close_socket-IsSound w t h)

with_descriptor-IsSound :
    (page_size : ℕ) (w : World) (t : Task) (s : Option SharedMem) (d : Option ℕ)
    → IsSound w.segments
    → IsSound (with_descriptor page_size w t s d).1.segments
unfolding with_descriptor
with_descriptor-IsSound page_size w t s none h = fail_close_socket-IsSound w t h
with_descriptor-IsSound page_size w t s (some fd) h =
    ground (arith, h, fail_close_socket-IsSound w t h)

chain_recvmsg-IsSound :
    (page_size : ℕ) (a : Answers) (w : World) (t : Task) (s : Option SharedMem)
    → IsSound w.segments
    → IsSound (chain_recvmsg page_size a w t s).1.segments
unfolding chain_recvmsg
chain_recvmsg-IsSound page_size a w t s h = ground (
  arith,
  h,
  fail_close_socket-IsSound w t h,
  with_descriptor-IsSound page_size w t s a.descriptor h,
)

chain_mmap-IsSound :
    (w : World) (t : Task) → IsSound w.segments → IsSound (chain_mmap w t).1.segments
unfolding chain_mmap
chain_mmap-IsSound w t h = ground (
  arith,
  fail_close_socket-IsSound w t h,
  finish_map-IsSound w.segments (is_pending t.process t.tracee.config.waiting_object_index)
      (peek_reg t.chain.regs RegVersion.current sysarg_result)
      (peek_reg t.chain.regs RegVersion.current sysarg_2) h,
)

-- The world after a step of the chain; a failing assertion leaves it.
abbrev pub world_of : World → Option (ℤ × World) → World
world_of w none = w
world_of w (some (r, w')) = w'

chain_by-IsSound :
    (page_size : ℕ) (a : Answers) (w : World) (t : Task) (s : Option SharedMem) (c : ChainState)
    → IsSound w.segments
    → IsSound (world_of w (chain_by page_size a w t s c)).segments
unfolding chain_by
chain_by-IsSound page_size a w t s shmat_socket h = chain_socket-IsSound a w t h
chain_by-IsSound page_size a w t s shmat_connect h = chain_connect-IsSound a w t h
chain_by-IsSound page_size a w t s shmat_recvmsg h = chain_recvmsg-IsSound page_size a w t s h
chain_by-IsSound page_size a w t s shmat_mmap h = chain_mmap-IsSound w t h
chain_by-IsSound page_size a w t s not_chained h = h
chain_by-IsSound page_size a w t s single h = h
chain_by-IsSound page_size a w t s msgrcv_retry h = h

shmat_chain-IsSound :
    (page_size : ℕ) (a : Answers) (w : World) (t : Task)
    → IsSound w.segments
    → IsSound (world_of w (shmat_chain page_size a w t)).segments
unfolding shmat_chain
shmat_chain-IsSound page_size a w t h = ground (
  arith,
  h,
  chain_by-IsSound page_size a w t (get_elem? w.segments.shms t.tracee.config.waiting_object_index)
      t.tracee.config.chain_state h,
)

-- What may happen to the segments: a call of a tracee, a step of its chain, a fork without shared
-- memory, and an execve or the end of a process.
pub data Event : Type 0 where
  get : ℕ → ℕ → ℕ → ℕ → Option ℕ → Event
  attach : Task → ℕ → Event
  go_on : ℕ → Answers → Task → Event
  detach : Task → ℕ → Event
  ctl : (ℕ → Stats → ℤ) → ℕ → ℕ → ℕ → Event
  fork : ℕ → ℕ → Event
  gone : ℕ → Event

pub step : World → Event → World
step w (get key size flg pgid helper) = record w {
  segments = (shmget w.segments key size flg pgid helper).1;
}
step w (attach t id) = (shmat w t id).1
step w (go_on page_size a t) = world_of w (shmat_chain page_size a w t)
step w (detach t addr) = record w { segments = (shmdt w.segments t addr).1 }
step w (ctl write id cmd buf) = record w { segments = (shmctl write w.segments id cmd buf).1 }
step w (fork parent child) = record w { segments = inherit_process w.segments parent child }
step w (gone process) = record w { segments = remove_mappings_from_process w.segments process }

step-IsSound : (w : World) (e : Event) → IsSound w.segments → IsSound (step w e).segments
unfolding step remove_mappings_from_process
step-IsSound w (get key size flg pgid helper) h =
    shmget-IsSound w.segments key size flg pgid helper h
step-IsSound w (attach t id) h = shmat-IsSound w t id h
step-IsSound w (go_on page_size a t) h = shmat_chain-IsSound page_size a w t h
step-IsSound w (detach t addr) h = shmdt-IsSound w.segments t addr h
step-IsSound w (ctl write id cmd buf) h = shmctl-IsSound write w.segments id cmd buf h
step-IsSound w (fork parent child) h = inherit_process-IsSound w.segments parent child h
step-IsSound w (gone process) h =
    remove_mappings-IsSound (length w.segments.maps) w.segments process h

pub run_segments : World → List Event → World
run_segments w [] = w
run_segments w (e ∷ es) = run_segments (step w e) es

-- Over any sequence of shmget, shmat with its chain, shmdt, shmctl, forks and exits, with any
-- arguments and answers: every mapping is of an entry of the table, an entry that is not valid has no
-- mapping and awaits no removal, and a segment that awaits its removal has a mapping.
pub run_segments-IsSound :
    (w : World) (es : List Event) → IsSound w.segments → IsSound (run_segments w es).segments
unfolding run_segments
run_segments-IsSound w [] h = h
run_segments-IsSound w (e ∷ es) h = run_segments-IsSound (step w e) es (step-IsSound w e h)
