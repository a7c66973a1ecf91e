-- ===== src/Chain.antt =====
-- src/syscall/chain.c: system calls that are made one after the other in place of one call of the
-- tracee. On arm64. Allocation is taken to succeed.
pub mod Made
pub mod Tests
use neoproot.Base.{ℕ, Bool, true, false, List, [], ◌∷◌, ◌++◌, Option, none, some, if◌then◌else◌}
use neoproot.Base.Words.{sub64}
use neoproot.Tracee.Regs.{
  Regs, RegVersion, Sysnum, sysarg_1, sysarg_2, sysarg_3, sysarg_4, sysarg_5, sysarg_6,
  sysarg_result, instr_pointer, peek_reg, poke_reg, get_sysnum, set_sysnum,
}

-- `struct chained_syscall`.
pub record ChainedSyscall : Type 0 where
  pub sysnum : Sysnum
  pub arg_1 : ℕ
  pub arg_2 : ℕ
  pub arg_3 : ℕ
  pub arg_4 : ℕ
  pub arg_5 : ℕ
  pub arg_6 : ℕ

pub data Workaround : Type 0 where
  inactive process_faulty_call process_replaced_call : Workaround

-- `tracee->chain`, without the suppressed signal, with what else the functions set. No list of calls
-- is a null pointer.
pub record Chain : Type 0 where
  pub syscalls : Option (List ChainedSyscall)
  pub force_final_result : Bool
  pub final_result : ℕ
  pub workaround : Workaround
  pub restore_original_regs : Bool
  pub restart_at_exit : Bool
  pub regs : Regs

abbrev pub insert : Bool → ChainedSyscall → Option (List ChainedSyscall) → List ChainedSyscall
insert at_front s none = s ∷ []
insert at_front s (some ss) = if at_front then s ∷ ss else ss ++ s ∷ []

-- register_chained_syscall_internal.
unfoldable pub register_internal : Bool → Chain → ChainedSyscall → Chain
register_internal at_front c s = record c { syscalls = some (insert at_front s c.syscalls) }

unfoldable pub register_chained_syscall : Chain → ChainedSyscall → Chain
unfolding register_internal
register_chained_syscall c s = register_internal false c s

-- The end of a chain.
abbrev pub finish : Chain → Chain
finish c = record c {
  syscalls = none;
  regs = if c.force_final_result then poke_reg c.regs sysarg_result c.final_result else c.regs;
  force_final_result = false;
  final_result = 0;
}

-- The registers for the next call, with the instruction of the system call made again.
unfoldable pub put_call : Regs → ChainedSyscall → Regs
put_call r0 s =
    let r1 = poke_reg r0 sysarg_1 s.arg_1 in
    let r2 = poke_reg r1 sysarg_2 s.arg_2 in
    let r3 = poke_reg r2 sysarg_3 s.arg_3 in
    let r4 = poke_reg r3 sysarg_4 s.arg_4 in
    let r5 = poke_reg r4 sysarg_5 s.arg_5 in
    let r6 = poke_reg r5 sysarg_6 s.arg_6 in
    let r7 = set_sysnum r6 s.sysnum in
    poke_reg r7 instr_pointer (sub64 (peek_reg r7 RegVersion.current instr_pointer) 4)

unfoldable pub next_of : Chain → Option (List ChainedSyscall) → Option Chain
unfolding put_call
next_of c none = none
next_of c (some []) = some (finish c)
next_of c (some (s ∷ ss)) = some (record c {
  syscalls = some ss;
  restore_original_regs = false;
  restart_at_exit = true;
  regs = put_call c.regs s;
})

-- `none`: the assertion that there is a chain fails.
unfoldable pub chain_next_syscall : Chain → Option Chain
unfolding next_of
chain_next_syscall c = next_of c c.syscalls

unfoldable pub force_chain_final_result : Chain → ℕ → Chain
force_chain_final_result c result = record c { force_final_result = true; final_result = result }

-- The call that a bank of registers holds.
unfoldable pub call_in : Regs → RegVersion → ChainedSyscall
call_in r v = record {
  sysnum = get_sysnum r v;
  arg_1 = peek_reg r v sysarg_1;
  arg_2 = peek_reg r v sysarg_2;
  arg_3 = peek_reg r v sysarg_3;
  arg_4 = peek_reg r v sysarg_4;
  arg_5 = peek_reg r v sysarg_5;
  arg_6 = peek_reg r v sysarg_6;
}

unfoldable pub restart_original_syscall : Chain → Chain
unfolding call_in register_chained_syscall
restart_original_syscall c = register_chained_syscall c (call_in c.regs RegVersion.original)

abbrev pub is_inactive : Workaround → Bool
is_inactive inactive = true
is_inactive _ = false

-- `none`: the assertion that no workaround is active fails.
unfoldable pub restart_current_syscall_as_chained : Chain → Option Chain
unfolding call_in register_internal
restart_current_syscall_as_chained c =
    if is_inactive c.workaround
    then some (
        register_internal true (record c { workaround = process_faulty_call })
          (call_in c.regs RegVersion.current))
    else none
