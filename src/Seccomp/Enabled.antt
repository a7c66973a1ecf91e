-- ===== src/Seccomp/Enabled.antt =====
-- src/syscall/seccomp.c: the program of enable_syscall_filtering, on the list that it merges.
use neoproot.Base.{ℕ, ◌^◌, ◌<◌, ◌≤◌, ◌≡◌, Bool, List, [], ◌∷◌, Option, length}
use neoproot.Seccomp.{SockFprog, ok, FilteredSysnum}
use neoproot.Seccomp.Filters.{Mode}
use neoproot.Seccomp.Machine.{SeccompData, Bpf}
use neoproot.Seccomp.Whole.{one_abi}
use neoproot.Seccomp.Policy.{policy, IsClear}
use neoproot.Seccomp.Enforced.{build-policy}
use neoproot.Seccomp.Merge.{filtered_sysnums, enable_syscall_filtering, filtered-Once}

module _ (b : Bpf) (d : SeccompData) (m : Mode) (v : ℕ) (table : List ℕ) where
  -- Where the table has at most 2^32 numbers and the merged list at most 2^20 calls, the program is
  -- built, and on any machine with the documented opcodes it returns for a call below 2^32 what
  -- `policy` says of the merged list: the answer of the listed call of that number, leave for a call
  -- that is not listed, and death for another architecture. The call is neither `ioctl` nor `fcntl`,
  -- or its second argument is not itself the number of a listed call.
  pub enable-policy :
      (android blocked : Bool) (exts : List (Option (List FilteredSysnum)))
      → length table ≤ 2 ^ 32
      → length (filtered_sysnums android blocked exts) ≤ 2 ^ 20
      → d.number < 2 ^ 32
      → IsClear table (filtered_sysnums android blocked exts) d
      → (p : SockFprog) × (enable_syscall_filtering m (one_abi v table ∷ []) android blocked exts
          ≡ ok p)
        × (b.run d p.filter 0 ≡ policy m v table (filtered_sysnums android blocked exts) d)
  unfolding enable_syscall_filtering
  enable-policy android blocked exts h k lt clear =
      build-policy b d m v table (filtered_sysnums android blocked exts) 0 h k
        (filtered-Once android blocked exts) lt clear
