-- ===== src/Seccomp/Filters.antt =====
-- src/syscall/seccomp.c: set_seccomp_filters, up to the installation of the program.
use neoproot.Base.{
  ℕ, ◌+◌, ◌-◌, ◌*◌, Bool, not, ◌&&◌, ◌||◌, List, [], ◌∷◌, ◌==◌, if◌then◌else◌, length,
}
use neoproot.Base.Words.{word_mod}
use neoproot.Seccomp.{
  SockFprog, Built, ok, ◌>>=◌, ret_user_notif, new_program_filter, add_syscall_ret,
  add_trace_syscall, add_trace_syscall_args1, add_notif_syscall_flag, end_arch_section,
  start_arch_section, finalize_program_filter, FilteredSysnum, pr_fcntl, pr_fcntl64, pr_fstat,
  pr_fstat64, pr_fstatat64, pr_ioctl, pr_newfstatat, pr_statx, detranslate,
}

-- The arguments of set_seccomp_filters that say how the calls are handled.
pub record Mode : Type 0 where
  pub user_notif : Bool
  pub stat_shim : Bool
  pub link2symlink : Bool

abbrev pub is_user_notif_sysnum : ℕ → Bool
is_user_notif_sysnum v = v == pr_newfstatat || v == pr_fstatat64 || v == pr_statx

abbrev pub is_stat_shim_sysnum : ℕ → Bool → Bool
is_stat_shim_sysnum v link2symlink =
    v == pr_newfstatat
    || v == pr_fstatat64
    || v == pr_statx
    || (not link2symlink && (v == pr_fstat || v == pr_fstat64))

abbrev pub is_fcntl : ℕ → Bool
is_fcntl v = v == pr_fcntl || v == pr_fcntl64

-- F_DUPFD and F_DUPFD_CLOEXEC.
abbrev pub fcntl_traced_cmds : List ℕ
fcntl_traced_cmds = 0 ∷ 1030 ∷ []

abbrev pub ioctl_cmds : List ℕ
ioctl_cmds = 0x5404 ∷ 0x802c542a ∷ 0x402c542b ∷ 0x402c542c ∷ 0x402c542d ∷ 0x40049409 ∷ 0x8933 ∷ []

abbrev pub ioctl_args1_stmts : ℕ
ioctl_args1_stmts = 16

abbrev pub fcntl_args1_stmts : ℕ
fcntl_args1_stmts = 2 + 2 * length fcntl_traced_cmds

abbrev pub raw_tag : ℕ
raw_tag = 0x4e50524f

pub record Counts : Type 0 where
  pub n_trace : ℕ
  pub ioctl_extra : ℕ
  pub stat_extra : ℕ

-- How many statements a call takes beyond two, where it is traced.
abbrev pub args_extra : ℕ → ℕ
args_extra v =
    if v == pr_ioctl then ioctl_args1_stmts - 2 else if is_fcntl v then fcntl_args1_stmts - 2 else 0

unfoldable pub count_one : Mode → List ℕ → FilteredSysnum → Counts → Counts
count_one m table s c =
    if detranslate table s.value == word_mod - 1
    then c
    else if m.stat_shim && is_stat_shim_sysnum s.value m.link2symlink
    then (if m.user_notif && is_user_notif_sysnum s.value
        then record c { n_trace = c.n_trace + 1; stat_extra = c.stat_extra + (6 - 2) }
        else c)
    else record c { n_trace = c.n_trace + 1; ioctl_extra = c.ioctl_extra + args_extra s.value }

unfoldable pub count_abi : Mode → List ℕ → List FilteredSysnum → Counts → Counts
unfolding count_one
count_abi m table [] c = c
count_abi m table (s ∷ ss) c = count_abi m table ss (count_one m table s c)

unfoldable pub count_abis : Mode → List (List ℕ) → List FilteredSysnum → Counts → Counts
unfolding count_abi
count_abis m [] ss c = c
count_abis m (table ∷ tables) ss c = count_abis m tables ss (count_abi m table ss c)

-- What is emitted for a call that is traced, with its number.
unfoldable pub add_traced : Mode → SockFprog → FilteredSysnum → ℕ → Built
unfolding add_syscall_ret add_trace_syscall add_trace_syscall_args1
add_traced m p s sc =
    if s.value == pr_ioctl
    then add_trace_syscall_args1 p sc s.flags ioctl_cmds
    else if is_fcntl s.value
    then add_trace_syscall_args1 p sc s.flags fcntl_traced_cmds
    else if m.user_notif && is_user_notif_sysnum s.value
    then add_syscall_ret p sc ret_user_notif
    else add_trace_syscall p sc s.flags

unfoldable pub add_one : Mode → List ℕ → FilteredSysnum → SockFprog → Built
unfolding add_traced add_notif_syscall_flag
add_one m table s p =
    let sc = detranslate table s.value in
    if sc == word_mod - 1
    then ok p
    else if m.stat_shim && is_stat_shim_sysnum s.value m.link2symlink
    then (if m.user_notif && is_user_notif_sysnum s.value
        then add_notif_syscall_flag p sc (if s.value == pr_statx then 2 else 3) raw_tag
        else ok p)
    else add_traced m p s sc

unfoldable pub add_abi : Mode → List ℕ → List FilteredSysnum → SockFprog → Built
unfolding add_one
add_abi m table [] p = ok p
add_abi m table (s ∷ ss) p = add_one m table s p >>= add_abi m table ss

unfoldable pub add_abis : Mode → List (List ℕ) → List FilteredSysnum → SockFprog → Built
unfolding add_abi
add_abis m [] ss p = ok p
add_abis m (table ∷ tables) ss p = add_abi m table ss p >>= add_abis m tables ss

-- `SeccompArch`, with the table of each ABI.
pub record SeccompArch : Type 0 where
  pub arch_value : ℕ
  pub abis : List (List ℕ)

unfoldable pub add_arch : Mode → SeccompArch → List FilteredSysnum → SockFprog → Built
unfolding count_abis start_arch_section add_abis end_arch_section
add_arch m a ss p =
    let c = count_abis m a.abis ss (record { n_trace = 0; ioctl_extra = 0; stat_extra = 0 }) in
    let extra = c.ioctl_extra + c.stat_extra in
    start_arch_section p a.arch_value c.n_trace extra >>= λ p1.
    add_abis m a.abis ss p1 >>= λ p2. end_arch_section p2 c.n_trace extra

unfoldable pub add_archs : Mode → List SeccompArch → List FilteredSysnum → SockFprog → Built
unfolding add_arch
add_archs m [] ss p = ok p
add_archs m (a ∷ rest) ss p = add_arch m a ss p >>= add_archs m rest ss

-- The program that set_seccomp_filters installs.
unfoldable pub build : Mode → List SeccompArch → List FilteredSysnum → Built
unfolding add_archs finalize_program_filter
build m archs ss = add_archs m archs ss new_program_filter >>= λ p. ok (finalize_program_filter p)
