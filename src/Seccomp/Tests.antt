-- ===== src/Seccomp/Tests.antt =====
-- src/syscall/seccomp.c: a machine, and the calls of a short list on it.
use neoproot.Base.{
  ℕ, zero, suc, ◌^◌, ◌≤◌, ◌≡◌, refl, true, false, List, [], ◌∷◌, ◌++◌, ◌==◌, if◌then◌else◌, Option,
  none, some, inr, arith, length, drop, bit_or,
}
use neoproot.Seccomp.{
  Insn, load, jeq, ja, ret, SockFprog, ok, ret_kill, ret_allow, trace_with, FilteredSysnum,
  number_from, detranslate,
}
use neoproot.Seccomp.Filters.{Mode}
use neoproot.Seccomp.Machine.{SeccompData, field_of, Bpf}
use neoproot.Seccomp.Distinct.{has, listed}
use neoproot.Seccomp.Whole.{one_abi}
use neoproot.Seccomp.Policy.{answer, answer_of, policy, IsClear}
use neoproot.Seccomp.Lists.{on_entry, on_exit, proot_sysnums}
use neoproot.Seccomp.Merge.{
  merge_one, merge_extensions, merge_filtered_sysnums, filtered_sysnums, enable_syscall_filtering,
  flags_of, merge-flags,
}
use neoproot.Seccomp.Enabled.{enable-policy}
use neoproot.Seccomp.Mistaken.{argument_taken_for_number}

-- The statements in turn, `skip` of them to be jumped over.
abbrev step_over : SeccompData → ℕ → List Insn → ℕ → ℕ
step_over d skip [] a = ret_kill
step_over d (suc skip) (i ∷ is) a = step_over d skip is a
step_over d zero (load f ∷ is) a = step_over d zero is (field_of d f)
step_over d zero (jeq k jt jf ∷ is) a = step_over d (if a == k then jt else jf) is a
step_over d zero (ja k ∷ is) a = step_over d k is a
step_over d zero (ret k ∷ is) a = k

step_over-drop :
    (d : SeccompData) (skip : ℕ) (is : List Insn) (a : ℕ)
    → step_over d skip is a ≡ step_over d 0 (drop skip is) a
step_over-drop d zero is a = refl
step_over-drop d (suc skip) [] a = refl
step_over-drop d (suc skip) (i ∷ is) a = step_over-drop d skip is a

abbrev machine : Bpf
machine = record {
  run = λ d is a. step_over d 0 is a;
  run-load = λ d f is a. refl;
  run-jeq = λ d k jt jf is a. step_over-drop d (if a == k then jt else jf) is a;
  run-ja = λ d k is a. step_over-drop d k is a;
  run-ret = λ d k is a. refl;
}

abbrev quiet : Mode
quiet = record { user_notif = false; stat_shim = false; link2symlink = false }

abbrev aarch64 : ℕ
aarch64 = 0xc000_00b7

-- PR_accept, PR_fsetxattr and PR_fcntl have the numbers 0, 1 and 2.
abbrev small_table : List ℕ
small_table = 11 ∷ 88 ∷ 80 ∷ []

abbrev accept_call : SeccompData
accept_call = record { number = 0; arch_of = 0xc000_00b7; arg = λ i. 5 }

-- fcntl(5, 1), and 1 is the number of fsetxattr.
abbrev fcntl_call : SeccompData
fcntl_call = record { number = 2; arch_of = 0xc000_00b7; arg = λ i. 1 }

abbrev fcntl_list : List FilteredSysnum
fcntl_list = on_exit 80 ∷ on_exit 88 ∷ []

abbrev extension_lists : List (Option (List FilteredSysnum))
extension_lists = none ∷ some fcntl_list ∷ []

merged_length : length (filtered_sysnums false false extension_lists) ≤ 2 ^ 20
unfolding filtered_sysnums merge_extensions merge_filtered_sysnums merge_one proot_sysnums
merged_length = omega arith

accept-IsClear : IsClear small_table (filtered_sysnums false false extension_lists) accept_call
unfolding filtered_sysnums merge_extensions merge_filtered_sysnums merge_one proot_sysnums listed
    detranslate number_from
accept-IsClear = inr refl

enable-policy_example :
    (p : SockFprog) × (enable_syscall_filtering quiet
        (one_abi aarch64 small_table ∷ [])
        false
        false
        extension_lists
      ≡ ok p)
    × (machine.run accept_call p.filter 0
        ≡ policy quiet aarch64 small_table
            (filtered_sysnums false false extension_lists)
            accept_call)
enable-policy_example =
    enable-policy machine accept_call quiet aarch64 small_table false false extension_lists
      (omega arith) merged_length (omega arith) accept-IsClear

accept_stops :
    policy quiet aarch64 small_table (filtered_sysnums false false extension_lists) accept_call
    ≡ trace_with 1
unfolding policy answer_of answer filtered_sysnums merge_extensions merge_filtered_sysnums merge_one
    proot_sysnums listed detranslate number_from
accept_stops = refl

merge-flags_example :
    (has 88 (merge_filtered_sysnums fcntl_list (on_entry 88 ∷ on_exit 11 ∷ [])) ≡ true)
    × (flags_of 88 (merge_filtered_sysnums fcntl_list (on_entry 88 ∷ on_exit 11 ∷ []))
        ≡ bit_or (flags_of 88 fcntl_list) (flags_of 88 (on_entry 88 ∷ on_exit 11 ∷ [])))
merge-flags_example = merge-flags 88 fcntl_list (on_entry 88 ∷ on_exit 11 ∷ []) (refl, (refl, tt))

-- What is merged in front of the list of the extension.
abbrev own_list : List FilteredSysnum
own_list = filtered_sysnums false false []

extension_split : filtered_sysnums false false extension_lists ≡ own_list ++ fcntl_list
unfolding filtered_sysnums merge_extensions merge_filtered_sysnums merge_one proot_sysnums
extension_split = refl

own_list-unlisted : listed small_table 2 own_list ≡ none
unfolding filtered_sysnums merge_extensions merge_filtered_sysnums merge_one proot_sysnums listed
    detranslate number_from
own_list-unlisted = refl

fcntl_number : fcntl_call.number ≡ detranslate small_table 80
unfolding detranslate number_from
fcntl_number = refl

fsetxattr_listed : listed small_table 1 (on_exit 88 ∷ []) ≡ some (on_exit 88)
unfolding listed detranslate number_from
fsetxattr_listed = refl

argument_taken_for_number_example :
    (p : SockFprog) × (enable_syscall_filtering quiet
        (one_abi aarch64 small_table ∷ [])
        false
        false
        extension_lists
      ≡ ok p)
    × (machine.run fcntl_call p.filter 0 ≡ answer quiet fcntl_call (on_exit 88))
argument_taken_for_number_example =
    argument_taken_for_number machine fcntl_call quiet aarch64 small_table false false
      extension_lists own_list (on_exit 88 ∷ []) (on_exit 80) (on_exit 88) (omega arith)
      merged_length refl extension_split own_list-unlisted refl (omega arith) fcntl_number refl refl
      fsetxattr_listed refl

-- fcntl(5, 1) stops, which the policy lets through.
fcntl_stops :
    (answer quiet fcntl_call (on_exit 88) ≡ trace_with 1)
    × (answer quiet fcntl_call (on_exit 80) ≡ ret_allow)
unfolding answer
fcntl_stops = (refl, refl)
