-- ===== src/Tracee/Regs.antt =====
-- src/tracee/reg.cpp and src/syscall/sysnum.c: a tracee's register banks, on arm64.
use neoproot.Base.{ℕ, ◌-◌, Bool, not, ◌&&◌, ◌||◌, ◌==◌, leb, if◌then◌else◌}
use neoproot.Base.Words.{word_mod}

-- The system calls that the modelled handlers name; `other` is any other, by its arm64 number.
pub data Sysnum : Type 0 where
  pr_void pr_brk pr_mmap pr_mremap pr_getpid pr_ppoll : Sysnum
  other : ℕ → Sysnum

-- SYSCALL_AVOIDER.
abbrev pub syscall_avoider : ℕ
syscall_avoider = word_mod - 1

-- The numbers that the arm64 table leaves out, or that lie past its end, read as PR_void.
is_gap : ℕ → Bool
is_gap n =
    (leb 245 n && leb n 259)
    || (leb 292 n && leb n 434)
    || n == 438
    || n == 440
    || n == 441
    || (leb 443 n && leb n 451)
    || leb 453 n

unfoldable pub translate_sysnum : ℕ → Sysnum
unfolding is_gap
translate_sysnum n =
    if is_gap n
    then pr_void
    else if n == 214
    then pr_brk
    else if n == 222
    then pr_mmap
    else if n == 216
    then pr_mremap
    else if n == 172
    then pr_getpid
    else if n == 73
    then pr_ppoll
    else other n

unfoldable pub detranslate_sysnum : Sysnum → ℕ
detranslate_sysnum pr_void = syscall_avoider
detranslate_sysnum pr_brk = 214
detranslate_sysnum pr_mmap = 222
detranslate_sysnum pr_mremap = 216
detranslate_sysnum pr_getpid = 172
detranslate_sysnum pr_ppoll = 73
detranslate_sysnum (other n) = n

pub data Reg : Type 0 where
  sysarg_1 sysarg_2 sysarg_3 sysarg_4 sysarg_5 sysarg_6 : Reg
  sysarg_result stack_pointer instr_pointer : Reg

-- `user_regs_struct`, of which regs[0] is both the first argument and the result.
pub record UserRegs : Type 0 where
  pub num : ℕ
  pub x0 : ℕ
  pub x1 : ℕ
  pub x2 : ℕ
  pub x3 : ℕ
  pub x4 : ℕ
  pub x5 : ℕ
  pub sp : ℕ
  pub pc : ℕ

pub data RegVersion : Type 0 where
  current original modified : RegVersion

pub record Regs : Type 0 where
  pub current : UserRegs
  pub original : UserRegs
  pub modified : UserRegs
  pub were_changed : Bool

unfoldable pub read : UserRegs → Reg → ℕ
read u sysarg_1 = u.x0
read u sysarg_2 = u.x1
read u sysarg_3 = u.x2
read u sysarg_4 = u.x3
read u sysarg_5 = u.x4
read u sysarg_6 = u.x5
read u sysarg_result = u.x0
read u stack_pointer = u.sp
read u instr_pointer = u.pc

unfoldable pub write : UserRegs → Reg → ℕ → UserRegs
write u sysarg_1 v = record u { x0 = v }
write u sysarg_2 v = record u { x1 = v }
write u sysarg_3 v = record u { x2 = v }
write u sysarg_4 v = record u { x3 = v }
write u sysarg_5 v = record u { x4 = v }
write u sysarg_6 v = record u { x5 = v }
write u sysarg_result v = record u { x0 = v }
write u stack_pointer v = record u { sp = v }
write u instr_pointer v = record u { pc = v }

unfoldable pub bank : Regs → RegVersion → UserRegs
bank t RegVersion.current = t.current
bank t RegVersion.original = t.original
bank t RegVersion.modified = t.modified

unfoldable pub peek_reg : Regs → RegVersion → Reg → ℕ
unfolding bank read
peek_reg t v r = read (bank t v) r

-- A write of the value that is there already leaves the flag alone.
unfoldable pub poke_reg : Regs → Reg → ℕ → Regs
unfolding read write
poke_reg t r v = record t {
  current = write t.current r v;
  were_changed = t.were_changed || not (read t.current r == v);
}

unfoldable pub get_sysnum : Regs → RegVersion → Sysnum
unfolding bank translate_sysnum
get_sysnum t v = translate_sysnum (bank t v).num

unfoldable pub set_sysnum : Regs → Sysnum → Regs
unfolding detranslate_sysnum
set_sysnum t n = record t {
  current = record (t.current) { num = detranslate_sysnum n };
  were_changed = t.were_changed || not (t.current.num == detranslate_sysnum n);
}

-- `save_current_regs` for MODIFIED.
unfoldable pub save_modified : Regs → Regs
save_modified t = record t { modified = t.current }
