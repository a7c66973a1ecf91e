-- ===== src/Sysvipc/SharedMemory/Steps.antt =====
-- src/extension/sysvipc/sysvipc_shm.c: sysvipc_shmat_chain, a step for each call of the chain.
use neoproot.Base.{
  ℕ, ◌-◌, ◌^◌, Bool, false, not, ◌&&◌, ◌||◌, List, [], ◌∷◌, Option, none, some, ltb, leb, ◌==◌,
  if◌then◌else◌, get_elem?, bit_and,
}
use neoproot.Base.Int.{ℤ, pos, neg}
use neoproot.Base.Words.{word_mod, add64, sub64}
use neoproot.Tracee.Regs.{RegVersion, pr_mmap, sysarg_2, sysarg_result, stack_pointer, peek_reg}
use neoproot.Chain.{force_chain_final_result}
use neoproot.Sysvipc.State.{
  int32, ChainState, not_chained, shmat_socket, shmat_connect, shmat_recvmsg, shmat_mmap,
}
use neoproot.Sysvipc.SharedMemory.{
  SharedMem, shared_mem_object, SharedMemMap, take_first, free_found, is_pending, Task, World,
}
use neoproot.Sysvipc.SharedMemory.Header.{recvmsg_pointers}
use neoproot.Sysvipc.SharedMemory.Attach.{
  enomem, pr_connect, pr_recvmsg, pr_close, Answers, with_task, put_chain_state, chained, register,
  wake_pending_shmat,
}

-- The mapping that is pending is done with: it is freed, and the next tracee gets the helper.
unfoldable pub give_up : World → Task → World
give_up w t = record {
  segments =
      free_found w.segments
        (take_first (is_pending t.process t.tracee.config.waiting_object_index) w.segments.maps);
  tasks = wake_pending_shmat w.tasks;
}

-- `fail_close_socket`.
unfoldable pub fail_close_socket : World → Task → ℤ × World
unfolding give_up
fail_close_socket w t =
    let failed = λ (u : Task).
      put_chain_state not_chained
        (record (register (chained pr_close t.shmat_socket_fd 0 0 0 0 0) u) {
          chain =
              force_chain_final_result
                (register (chained pr_close t.shmat_socket_fd 0 0 0 0 0) u).chain
                (word_mod - enomem);
        }) in
    (pos 1, give_up (record w { tasks = with_task t.tracee.pid failed w.tasks }) t)

-- `fail_dont_close`.
unfoldable pub fail_dont_close : World → Task → ℤ × World
unfolding give_up
fail_dont_close w t = (
  neg enomem,
  give_up (record w { tasks = with_task t.tracee.pid (put_chain_state not_chained) w.tasks }) t,
)

abbrev pub goes_on : World → Task → (Task → Task) → ℤ × World
goes_on w t f = (pos 1, record w { tasks = with_task t.tracee.pid f w.tasks })

abbrev pub with_socket : ℕ → Task → Task
with_socket fd u = record u { shmat_socket_fd = fd }

abbrev pub start_connect : ℕ → ℕ → Task → Task
start_connect fd guest_addr u =
    let u1 = register (chained pr_connect fd guest_addr 110 0 0 0) (with_socket fd u) in
    put_chain_state shmat_connect (record u1 { shmat_guest_buf = guest_addr })

-- The result of socket.
unfoldable pub chain_socket : Answers → World → Task → ℤ × World
unfolding fail_dont_close
chain_socket a w t =
    let fd = int32 (peek_reg t.chain.regs RegVersion.current sysarg_result) in
    let guest_addr = sub64 (peek_reg t.chain.regs RegVersion.current stack_pointer) 110 in
    let failed =
      fail_dont_close (record w { tasks = with_task t.tracee.pid (with_socket fd) w.tasks }) t in
    if leb (2 ^ 31) fd || guest_addr == 0 || not a.wrote_addr
    then failed
    else goes_on w t (start_connect fd guest_addr)

-- The result of connect.
unfoldable pub chain_connect : Answers → World → Task → ℤ × World
unfolding fail_close_socket
chain_connect a w t =
    let result = int32 (peek_reg t.chain.regs RegVersion.current sysarg_result) in
    let header = (recvmsg_pointers t.shmat_guest_buf).msghdr_ptr in
    if not (result == 0) || not a.wrote_header || not a.distributed
    then fail_close_socket w t
    else goes_on w t (λ u.
      put_chain_state shmat_recvmsg
        (register (chained pr_recvmsg t.shmat_socket_fd header 0 0 0 0) u))

abbrev pub is_descriptor : Option (ℕ × ℕ) → Bool
is_descriptor none = false
is_descriptor (some (level, kind)) = level == 1 && kind == 1

-- The size of a segment in whole pages.
abbrev pub whole_pages : ℕ → ℕ → ℕ
whole_pages page_size size = bit_and (add64 size (page_size - 1)) (word_mod - page_size)

abbrev pub start_mmap : ℕ → ℕ → Task → Task
start_mmap fd size u =
    put_chain_state shmat_mmap
      (register (chained pr_mmap 0 size 3 1 fd 0) (record u { shmat_mem_fd = fd }))

abbrev pub segment_size : Option SharedMem → ℕ
segment_size none = 0
segment_size (some s) = s.stats.shm_segsz

unfoldable pub with_descriptor : ℕ → World → Task → Option SharedMem → Option ℕ → ℤ × World
unfolding fail_close_socket
with_descriptor page_size w t s none = fail_close_socket w t
with_descriptor page_size w t s (some fd) =
    if ltb 0xffff fd
    then fail_close_socket w t
    else goes_on w t (start_mmap fd (whole_pages page_size (segment_size s)))

-- The result of recvmsg: the descriptor that the helper sent.
unfoldable pub chain_recvmsg : ℕ → Answers → World → Task → Option SharedMem → ℤ × World
unfolding with_descriptor fail_close_socket
chain_recvmsg page_size a w t s =
    if not (is_descriptor a.control)
    then fail_close_socket w t
    else with_descriptor page_size w t s a.descriptor

-- The pending mapping gets its place; the source is undefined where there is none.
abbrev pub finish_map : (SharedMemMap → Bool) → ℕ → ℕ → List SharedMemMap → List SharedMemMap
finish_map p addr size [] = []
finish_map p addr size (m ∷ ms) =
    let rest = finish_map p addr size ms in
    if p m then record m { addr = addr; size = size } ∷ ms else m ∷ rest

abbrev pub close_both : ℕ → Task → Task → Task
close_both addr t u =
    let u1 = register (chained pr_close t.shmat_mem_fd 0 0 0 0 0) u in
    let u2 = register (chained pr_close t.shmat_socket_fd 0 0 0 0 0) u1 in
    put_chain_state not_chained (record u2 { chain = force_chain_final_result u2.chain addr })

-- The result of mmap: the segment is mapped, and the next tracee gets the helper.
unfoldable pub chain_mmap : World → Task → ℤ × World
unfolding fail_close_socket
chain_mmap w t =
    let addr = peek_reg t.chain.regs RegVersion.current sysarg_result in
    let size = peek_reg t.chain.regs RegVersion.current sysarg_2 in
    let pending = is_pending t.process t.tracee.config.waiting_object_index in
    if addr == word_mod - 1 then fail_close_socket w t else (
      pos 1,
      record {
        segments = record (w.segments) { maps = finish_map pending addr size w.segments.maps };
        tasks = wake_pending_shmat (with_task t.tracee.pid (close_both addr t) w.tasks);
      },
    )

abbrev pub is_valid : Option SharedMem → Bool
is_valid none = false
is_valid (some s) = s.valid

unfoldable pub chain_by :
    ℕ → Answers → World → Task → Option SharedMem → ChainState → Option (ℤ × World)
unfolding chain_socket chain_connect chain_recvmsg chain_mmap
chain_by page_size a w t s shmat_socket = some (chain_socket a w t)
chain_by page_size a w t s shmat_connect = some (chain_connect a w t)
chain_by page_size a w t s shmat_recvmsg = some (chain_recvmsg page_size a w t s)
chain_by page_size a w t s shmat_mmap = some (chain_mmap w t)
chain_by page_size a w t s _ = none

-- sysvipc_shmat_chain; `none` where the assertion that the segment is valid fails, or no chain runs.
unfoldable pub shmat_chain : ℕ → Answers → World → Task → Option (ℤ × World)
unfolding chain_by
shmat_chain page_size a w t =
    let s = get_elem? w.segments.shms t.tracee.config.waiting_object_index in
    if is_valid s then chain_by page_size a w t s t.tracee.config.chain_state else none
