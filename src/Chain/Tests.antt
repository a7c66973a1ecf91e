-- ===== src/Chain/Tests.antt =====
-- Witnesses and runs at concrete inputs.
use neoproot.Base.{◌≡◌, refl, true, false, [], ◌∷◌, none, map}
use neoproot.Tracee.Regs.{UserRegs, pr_getpid, pr_mmap}
use neoproot.Chain.{ChainedSyscall, Chain, inactive}
use neoproot.Chain.Made.{call_of, register_all, made, behind, IsOver, register_all-made}

abbrev registers : UserRegs
registers = record {
  num = 172;
  x0 = 1;
  x1 = 2;
  x2 = 3;
  x3 = 4;
  x4 = 5;
  x5 = 6;
  sp = 0x8000;
  pc = 0x4000;
}

-- No chain is open, and 7 is to be the result.
abbrev chain : Chain
chain = record {
  syscalls = none;
  force_final_result = true;
  final_result = 7;
  workaround = inactive;
  restore_original_regs = true;
  restart_at_exit = false;
  regs = record {
    current = registers;
    original = registers;
    modified = registers;
    were_changed = false;
  };
}

abbrev getpid_call : ChainedSyscall
getpid_call = record {
  sysnum = pr_getpid;
  arg_1 = 0;
  arg_2 = 0;
  arg_3 = 0;
  arg_4 = 0;
  arg_5 = 0;
  arg_6 = 0;
}

abbrev mmap_call : ChainedSyscall
mmap_call = record getpid_call { sysnum = pr_mmap; arg_2 = 4096 }

register_all-made_example :
    (made (register_all chain (getpid_call ∷ mmap_call ∷ [])) (10 ∷ 0x7000 ∷ [])
      ≡ map call_of (getpid_call ∷ mmap_call ∷ []))
    × IsOver true 7 (behind (register_all chain (getpid_call ∷ mmap_call ∷ [])) (10 ∷ 0x7000 ∷ []))
register_all-made_example =
    register_all-made chain getpid_call (mmap_call ∷ []) (10 ∷ 0x7000 ∷ []) refl refl
