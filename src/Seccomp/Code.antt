-- ===== src/Seccomp/Code.antt =====
-- src/syscall/seccomp.c: the statements that each call gets, and that the sections have the length
-- that was counted for them.
use neoproot.Base.{
  ℕ, suc, ◌+◌, ◌-◌, ◌*◌, ◌%◌, ◌^◌, ◌<◌, ◌≤◌, ◌≡◌, ◌⊎◌, refl, ap, ◌∙◌, sym, false, ◌&&◌, List, [],
  ◌∷◌, ◌++◌, ◌==◌, if◌then◌else◌, Bool-cases, inl, inr, arith, length, length-append,
}
use mathlib.Core.List.{append_assoc, append-nil}
use neoproot.Base.Words.{word_mod}
use neoproot.Seccomp.{
  nr, arg_low, arg_high, Insn, load, jeq, ret, SockFprog, ok, ret_user_notif, ret_allow, trace_with,
  uint32_max, add_statements, arg_tests, add_notif_syscall_flag, FilteredSysnum, pr_ioctl, pr_statx,
  number_from, detranslate,
}
use neoproot.Seccomp.Filters.{
  Mode, is_user_notif_sysnum, is_stat_shim_sysnum, is_fcntl, fcntl_traced_cmds, ioctl_cmds, raw_tag,
  Counts, args_extra, count_one, count_abi, add_traced, add_one, add_abi,
}

-- How a call is handled.
pub data Kind : Type 0 where
  -- It is let through: it is not of this ABI, or it is left to the shim.
  passed : Kind
  -- It notifies unless the shim tagged this argument.
  tagged : ℕ → Kind
  -- It stops for these values of its second argument.
  by_argument : List ℕ → Kind
  -- It returns this value.
  plain : ℕ → Kind

unfoldable pub traced_kind : Mode → FilteredSysnum → Kind
traced_kind m s =
    if s.value == pr_ioctl
    then by_argument ioctl_cmds
    else if is_fcntl s.value
    then by_argument fcntl_traced_cmds
    else if m.user_notif && is_user_notif_sysnum s.value
    then plain ret_user_notif
    else plain (trace_with s.flags)

unfoldable pub kind_of : Mode → List ℕ → FilteredSysnum → Kind
unfolding traced_kind
kind_of m table s =
    if detranslate table s.value == word_mod - 1
    then passed
    else if m.stat_shim && is_stat_shim_sysnum s.value m.link2symlink
    then (if m.user_notif && is_user_notif_sysnum s.value
        then tagged (if s.value == pr_statx then 2 else 3)
        else passed)
    else traced_kind m s

-- The statements of a call of this number.
unfoldable pub code : ℕ → ℕ → Kind → List Insn
code sc flags passed = []
code sc flags (tagged i) =
    load nr
    ∷ jeq sc 0 4
    ∷ load (arg_high i)
    ∷ jeq raw_tag 0 1
    ∷ ret ret_allow
    ∷ ret ret_user_notif
    ∷ []
code sc flags (by_argument cmds) =
    jeq sc 0 ((1 + 2 * length cmds) % 2 ^ 8) ∷ load (arg_low 1) ∷ arg_tests flags cmds
code sc flags (plain r) = jeq sc 0 1 ∷ ret r ∷ []

unfoldable pub code_for : Mode → List ℕ → FilteredSysnum → List Insn
code_for m table s = code (detranslate table s.value) s.flags (kind_of m table s)

unfoldable pub codes : Mode → List ℕ → List FilteredSysnum → List Insn
codes m table [] = []
codes m table (s ∷ ss) = code_for m table s ++ codes m table ss

-- A number of the table, or no number.
number_from_bound :
    (v : ℕ) (table : List ℕ) (n : ℕ)
    → (number_from v table n < n + length table) ⊎ (number_from v table n ≡ word_mod - 1)
unfolding number_from
number_from_bound v [] n = inr refl
number_from_bound v (x ∷ table) n = elim (Bool-cases (x == v)) [
  | inl e ↦ rw e (inl (omega arith))
  | inr e ↦ rw e (ground (arith, number_from_bound v table (suc n)))
]

pub detranslate_bound :
    (table : List ℕ) (v : ℕ)
    → length table ≤ 2 ^ 32
    → (detranslate table v ≤ uint32_max) ⊎ (detranslate table v ≡ word_mod - 1)
unfolding detranslate
detranslate_bound table v h = ground (arith, number_from_bound v table 0)

add_traced-eq :
    (m : Mode) (p : SockFprog) (s : FilteredSysnum) (sc : ℕ)
    → sc ≤ uint32_max
    → add_traced m p s sc ≡ ok (add_statements p (code sc s.flags (traced_kind m s)))
unfolding add_traced code traced_kind
add_traced-eq m p s sc h = ground arith

add_nothing : (p : SockFprog) → ok p ≡ ok (add_statements p [])
add_nothing p = ap (λ l. ok (record p { filter = l })) (sym (append-nil p.filter))

add_notif-eq :
    (p : SockFprog) (sc flags i : ℕ)
    → sc ≤ uint32_max
    → i ≤ 5
    → add_notif_syscall_flag p sc i raw_tag ≡ ok (add_statements p (code sc flags (tagged i)))
unfolding add_notif_syscall_flag code
add_notif-eq p sc flags i h k = ground arith

number_in_table :
    (table : List ℕ) (v : ℕ)
    → length table ≤ 2 ^ 32
    → (detranslate table v == word_mod - 1) ≡ false
    → detranslate table v ≤ uint32_max
number_in_table table v h n = elim (detranslate_bound table v h) [
  | inl le ↦ le
  | inr e ↦ absurd (ground arith)
]

add_one-eq :
    (m : Mode) (table : List ℕ) (s : FilteredSysnum) (p : SockFprog)
    → length table ≤ 2 ^ 32
    → add_one m table s p ≡ ok (add_statements p (code_for m table s))
unfolding add_one code_for kind_of code
add_one-eq m table s p h = elim (Bool-cases (detranslate table s.value == word_mod - 1)) [
  | inl e ↦ rw e (add_nothing p)
  | inr n ↦
      (let le = number_in_table table s.value h n in
        rw n (elim (Bool-cases (m.stat_shim && is_stat_shim_sysnum s.value m.link2symlink)) [
          | inr e ↦ rw e (add_traced-eq m p s (detranslate table s.value) le)
          | inl e ↦ rw e (elim (Bool-cases (m.user_notif && is_user_notif_sysnum s.value)) [
            | inl u ↦ rw u (
                add_notif-eq p (detranslate table s.value) s.flags
                  (if s.value == pr_statx then 2 else 3) le (ground arith))
            | inr u ↦ rw u (add_nothing p)
          ])
        ]))
]

-- The statements of every call, behind what was there.
pub add_abi-eq :
    (m : Mode) (table : List ℕ) (ss : List FilteredSysnum) (p : SockFprog)
    → length table ≤ 2 ^ 32
    → add_abi m table ss p ≡ ok (add_statements p (codes m table ss))
unfolding add_abi codes
add_abi-eq m table [] p h = add_nothing p
add_abi-eq m table (s ∷ ss) p h = rw (add_one-eq m table s p h) (
    add_abi-eq m table ss (add_statements p (code_for m table s)) h
    ∙ ap (λ l. ok (record p { filter = l }))
        (append_assoc p.filter (code_for m table s) (codes m table ss)))

-- How many statements the counters stand for.
unfoldable pub counted : Counts → ℕ
counted c = c.n_trace * 2 + (c.ioctl_extra + c.stat_extra)

traced-counted :
    (m : Mode) (s : FilteredSysnum) (sc : ℕ)
    → length (code sc s.flags (traced_kind m s)) ≡ 2 + args_extra s.value
unfolding code traced_kind
traced-counted m s sc = ground arith

count_one-counted :
    (m : Mode) (table : List ℕ) (s : FilteredSysnum) (c : Counts)
    → counted (count_one m table s c) ≡ counted c + length (code_for m table s)
unfolding count_one counted code_for kind_of code
count_one-counted m table s c = elim (Bool-cases (detranslate table s.value == word_mod - 1)) [
  | inl e ↦ rw e (omega arith)
  | inr n ↦ rw n (elim (Bool-cases (m.stat_shim && is_stat_shim_sysnum s.value m.link2symlink)) [
    | inr e ↦ rw e (omega (arith, traced-counted m s (detranslate table s.value)))
    | inl e ↦ rw e (elim (Bool-cases (m.user_notif && is_user_notif_sysnum s.value)) [
      | inl u ↦ rw u (omega arith)
      | inr u ↦ rw u (omega arith)
    ])
  ])
]

pub count_abi-counted :
    (m : Mode) (table : List ℕ) (ss : List FilteredSysnum) (c : Counts)
    → counted (count_abi m table ss c) ≡ counted c + length (codes m table ss)
unfolding count_abi codes
count_abi-counted m table [] c = omega arith
count_abi-counted m table (s ∷ ss) c = omega (
  arith,
  count_abi-counted m table ss (count_one m table s c),
  count_one-counted m table s c,
  length-append (code_for m table s) (codes m table ss),
)
