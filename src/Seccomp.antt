-- ===== src/Seccomp.antt =====
-- src/syscall/seccomp.c: the program that decides which system calls stop.
--
-- A load names the field of `struct seccomp_data` that it reads, in place of its offset. A system call
-- is its number in the enumeration of src/syscall/sysnums.list, PR_void being 0; the table of an ABI is the
-- list of the calls by their number. Allocation is taken to succeed.
pub mod Filters
pub mod Merge
pub mod Machine
pub mod Code
pub mod Verdict
pub mod Policy
pub mod Enforced
pub mod Enabled
pub mod Mistaken
pub mod Lists
pub mod Distinct
pub mod Whole
pub mod Tests
use neoproot.Base.{
  ℕ, zero, suc, ◌+◌, ◌-◌, ◌*◌, ◌%◌, ◌^◌, Bool, true, false, not, ◌&&◌, ◌||◌, List, [], ◌∷◌, ◌++◌,
  ltb, ◌==◌, if◌then◌else◌, length,
}
use neoproot.Base.Words.{word_mod}

pub data Field : Type 0 where
  nr arch : Field
  -- The lower and the upper 32 bits of an argument.
  arg_low arg_high : ℕ → Field

-- `struct sock_filter`, by what the opcode does.
pub data Insn : Type 0 where
  load : Field → Insn
  jeq : ℕ → ℕ → ℕ → Insn
  ja : ℕ → Insn
  ret : ℕ → Insn

-- `struct sock_fprog`.
pub record SockFprog : Type 0 where
  pub filter : List Insn
  pub len : ℕ

pub data Built : Type 0 where
  ok : SockFprog → Built
  err : ℕ → Built

-- `if (ret < 0) goto out`.
infixl 5 ◌>>=◌
abbrev pub ◌>>=◌ : Built → (SockFprog → Built) → Built
ok p >>= f = f p
err e >>= f = err e

abbrev pub erange : ℕ
erange = 34

abbrev pub ret_kill : ℕ
ret_kill = 0

abbrev pub ret_user_notif : ℕ
ret_user_notif = 0x7fc0_0000

abbrev pub ret_trace : ℕ
ret_trace = 0x7ff0_0000

abbrev pub ret_allow : ℕ
ret_allow = 0x7fff_0000

-- SECCOMP_RET_TRACE + flag, in 32 bits.
abbrev pub trace_with : ℕ → ℕ
trace_with flag = (ret_trace + flag) % 2 ^ 32

abbrev pub uint32_max : ℕ
uint32_max = 2 ^ 32 - 1

abbrev pub new_program_filter : SockFprog
new_program_filter = record { filter = []; len = 0 }

abbrev pub add_statements : SockFprog → List Insn → SockFprog
add_statements p stmts = record p { filter = p.filter ++ stmts }

unfoldable pub add_syscall_ret : SockFprog → ℕ → ℕ → Built
add_syscall_ret p syscall seccomp_ret =
    if ltb uint32_max syscall
    then err erange
    else ok (add_statements p (jeq syscall 0 1 ∷ ret seccomp_ret ∷ []))

unfoldable pub add_trace_syscall : SockFprog → ℕ → ℕ → Built
unfolding add_syscall_ret
add_trace_syscall p syscall flag = add_syscall_ret p syscall (trace_with flag)

-- The loop over the values of the argument: each is compared and returns.
abbrev pub arg_tests : ℕ → List ℕ → List Insn
arg_tests flag [] = []
arg_tests flag (c ∷ cs) = jeq c 0 1 ∷ ret (trace_with flag) ∷ arg_tests flag cs

-- The jump over the section is cut to 8 bits.
unfoldable pub add_trace_syscall_args1 : SockFprog → ℕ → ℕ → List ℕ → Built
add_trace_syscall_args1 p syscall flag args1 =
    if ltb uint32_max syscall
    then err erange
    else ok (
        add_statements p (
          jeq syscall 0 ((1 + 2 * length args1) % 2 ^ 8) ∷ load (arg_low 1) ∷ arg_tests flag args1))

unfoldable pub add_notif_syscall_flag : SockFprog → ℕ → ℕ → ℕ → Built
add_notif_syscall_flag p syscall arg_index tag =
    if ltb uint32_max syscall || ltb 5 arg_index
    then err erange
    else ok (
        add_statements p (
          load nr
          ∷ jeq syscall 0 4
          ∷ load (arg_high arg_index)
          ∷ jeq tag 0 1
          ∷ ret ret_allow
          ∷ ret ret_user_notif
          ∷ []))

unfoldable pub end_arch_section : SockFprog → ℕ → ℕ → Built
end_arch_section p nb_traced extra_stmts =
    let p1 = add_statements p (ret ret_allow ∷ []) in
    if length p1.filter - p1.len == 1 + nb_traced * 2 + extra_stmts then ok p1 else err erange

unfoldable pub start_arch_section : SockFprog → ℕ → ℕ → ℕ → Built
start_arch_section p arch_value nb_traced extra_stmts =
    let sec_len = 1 + nb_traced * 2 + extra_stmts in
    let p1 =
      add_statements p
        (load arch ∷ jeq arch_value 1 0 ∷ ja ((sec_len + 1) % 2 ^ 32) ∷ load nr ∷ []) in
    if ltb (uint32_max - 1) sec_len then err erange else ok (record p1 { len = length p1.filter })

unfoldable pub finalize_program_filter : SockFprog → SockFprog
finalize_program_filter p =
    let p1 = add_statements p (ret ret_kill ∷ []) in record p1 { len = length p1.filter }

pub record FilteredSysnum : Type 0 where
  pub value : ℕ
  pub flags : ℕ

abbrev pub pr_fcntl : ℕ
pr_fcntl = 80

abbrev pub pr_fcntl64 : ℕ
pr_fcntl64 = 81

abbrev pub pr_fstat : ℕ
pr_fstat = 90

abbrev pub pr_fstat64 : ℕ
pr_fstat64 = 91

abbrev pub pr_fstatat64 : ℕ
pr_fstatat64 = 92

abbrev pub pr_ioctl : ℕ
pr_ioctl = 152

abbrev pub pr_newfstatat : ℕ
pr_newfstatat = 216

abbrev pub pr_statx : ℕ
pr_statx = 368

-- The loop of detranslate_sysnum over a table, from the number `n` on.
unfoldable pub number_from : ℕ → List ℕ → ℕ → ℕ
number_from sysnum [] n = word_mod - 1
number_from sysnum (v ∷ table) n =
    let rest = number_from sysnum table (suc n) in if v == sysnum then n else rest

-- detranslate_sysnum, with the table of the ABI.
unfoldable pub detranslate : List ℕ → ℕ → ℕ
unfolding number_from
detranslate table sysnum = if sysnum == 0 then word_mod - 1 else number_from sysnum table 0
