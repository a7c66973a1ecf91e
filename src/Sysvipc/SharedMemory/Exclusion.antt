-- ===== src/Sysvipc/SharedMemory/Exclusion.antt =====
-- src/extension/sysvipc/sysvipc_shm.c: two tracees that use the helper at once.
use neoproot.Base.{ℕ, ◌^◌, ◌≡◌, Bool, true, false, List, [], ◌∷◌, leb, ◌==◌}
use neoproot.Tracee.Regs.{Regs, RegVersion, sysarg_result, stack_pointer, peek_reg}
use neoproot.Base.Words.{sub64}
use neoproot.Sysvipc.State.{int32}
use neoproot.Sysvipc.SharedMemory.{Task, World}
use neoproot.Sysvipc.SharedMemory.Attach.{Answers, with_task, keeps_helper, at_object, go_socket}
use neoproot.Sysvipc.SharedMemory.Steps.{chain_socket, start_connect}

-- Which tracees keep the helper, in order.
abbrev pub keepers : List Task → List Bool
keepers [] = []
keepers (t ∷ ts) = keeps_helper t.tracee.config.chain_state ∷ keepers ts

-- The tracee stops with these registers.
abbrev pub stopped : Regs → Task → Task
stopped r t = record t { chain = record (t.chain) { regs = r } }

-- The kernel has made a socket, and the address of the helper can be written below the stack.
abbrev pub IsOpened : Regs → Answers → Type 0
IsOpened r a =
    (leb (2 ^ 31) (int32 (peek_reg r RegVersion.current sysarg_result)) ≡ false)
    × ((sub64 (peek_reg r RegVersion.current stack_pointer) 110 == 0) ≡ false)
    × (a.wrote_addr ≡ true)

-- The tracee stops behind its socket call, and its chain goes on.
abbrev pub after_socket : Answers → Regs → ℕ → Task → World → World
after_socket a r idx t w =
    let u = stopped r (go_socket (at_object idx t)) in
    (chain_socket a (record w { tasks = with_task t.tracee.pid (stopped r) w.tasks }) u).1

abbrev go : ℕ → Task → Task
go idx u = go_socket (at_object idx u)

abbrev connect : Regs → Task → Task
connect r =
    start_connect (int32 (peek_reg r RegVersion.current sysarg_result))
      (sub64 (peek_reg r RegVersion.current stack_pointer) 110)
