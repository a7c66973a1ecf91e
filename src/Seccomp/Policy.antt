-- ===== src/Seccomp/Policy.antt =====
-- src/syscall/seccomp.c: which calls stop, as the lists of calls say it.
use neoproot.Base.{
  ℕ, ◌-◌, ◌^◌, ◌<◌, ◌≡◌, ◌⊎◌, refl, sym, Bool, true, false, ◌&&◌, ◌||◌, List, [], ◌∷◌, Option, none,
  some, ◌==◌, if◌then◌else◌, Bool-cases, inl, inr, arith, ==_iff,
}
use neoproot.Base.Words.{word_mod}
use neoproot.Seccomp.{
  arg_low, arg_high, ret_kill, ret_user_notif, ret_allow, trace_with, FilteredSysnum, pr_ioctl,
  pr_statx, detranslate,
}
use neoproot.Seccomp.Filters.{
  Mode, is_user_notif_sysnum, is_stat_shim_sysnum, is_fcntl, fcntl_traced_cmds, ioctl_cmds, raw_tag,
}
use neoproot.Seccomp.Machine.{SeccompData, field_of}
use neoproot.Seccomp.Code.{Kind, passed, tagged, by_argument, plain, traced_kind, kind_of}
use neoproot.Seccomp.Verdict.{contains, go, judge, after, verdict_from}
use neoproot.Seccomp.Distinct.{has, Once, listed, listed-unlisted}

-- A call left to the shim notifies where it has no tag; `ioctl` and `fcntl` stop for the listed values
-- of their second argument.
unfoldable pub answer : Mode → SeccompData → FilteredSysnum → ℕ
answer m d s =
    if m.stat_shim && is_stat_shim_sysnum s.value m.link2symlink
    then (if m.user_notif && is_user_notif_sysnum s.value
        then (if field_of d (arg_high (if s.value == pr_statx then 2 else 3)) == raw_tag
            then ret_allow
            else ret_user_notif)
        else ret_allow)
    else if s.value == pr_ioctl
    then (if contains (field_of d (arg_low 1)) ioctl_cmds then trace_with s.flags else ret_allow)
    else if is_fcntl s.value
    then (if contains (field_of d (arg_low 1)) fcntl_traced_cmds
        then trace_with s.flags
        else ret_allow)
    else if m.user_notif && is_user_notif_sysnum s.value
    then ret_user_notif
    else trace_with s.flags

unfoldable pub answer_of : Mode → SeccompData → Option FilteredSysnum → ℕ
unfolding answer
answer_of m d none = ret_allow
answer_of m d (some s) = answer m d s

-- A call that is not listed is let through, and the calls of another architecture kill.
unfoldable pub policy : Mode → ℕ → List ℕ → List FilteredSysnum → SeccompData → ℕ
unfolding answer_of listed
policy m v table ss d =
    if d.arch_of == v then answer_of m d (listed table d.number ss) else ret_kill

abbrev pub tests_argument : Option FilteredSysnum → Bool
tests_argument none = false
tests_argument (some s) = s.value == pr_ioctl || is_fcntl s.value

-- The second argument is not itself the number of a listed call, or the call does not look at it.
abbrev pub IsClear : List ℕ → List FilteredSysnum → SeccompData → Type 0
IsClear table ss d =
    (listed table (field_of d (arg_low 1)) ss ≡ none)
    ⊎ (tests_argument (listed table d.number ss) ≡ false)

judge-missed :
    (d : SeccompData) (sc flags : ℕ) (k : Kind) (a : ℕ)
    → (d.number == sc) ≡ false
    → (a == sc) ≡ false
    → (judge d sc flags k a ≡ go a) ⊎ (judge d sc flags k a ≡ go d.number)
unfolding judge
judge-missed d sc flags passed a n m = inl refl
judge-missed d sc flags (tagged i) a n m = rw n (inr refl)
judge-missed d sc flags (by_argument cmds) a n m = rw m (inl refl)
judge-missed d sc flags (plain r) a n m = rw m (inl refl)

judge-other :
    (d : SeccompData) (sc flags : ℕ) (k : Kind)
    → (d.number == sc) ≡ false
    → judge d sc flags k d.number ≡ go d.number
unfolding judge
judge-other d sc flags passed n = refl
judge-other d sc flags (tagged i) n = rw n refl
judge-other d sc flags (by_argument cmds) n = rw n refl
judge-other d sc flags (plain r) n = rw n refl

listed-head :
    (table : List ℕ) (a : ℕ) (s : FilteredSysnum) (ss : List FilteredSysnum)
    → listed table a (s ∷ ss) ≡ none
    → ((a == detranslate table s.value) ≡ false) × (listed table a ss ≡ none)
unfolding listed
listed-head table a s ss e = ground arith

-- What is in no list is let through.
unlisted-allowed :
    (m : Mode) (table : List ℕ) (d : SeccompData) (ss : List FilteredSysnum) (a : ℕ)
    → listed table d.number ss ≡ none
    → listed table a ss ≡ none
    → verdict_from m table d ss a ≡ ret_allow
unfolding verdict_from
unlisted-allowed m table d [] a n e = refl
unlisted-allowed m table d (s ∷ ss) a n e =
    let (ns, nt) = listed-head table d.number s ss n in
    let (es, et) = listed-head table a s ss e in
    elim (judge-missed d (detranslate table s.value) s.flags (kind_of m table s) a ns es) [
      | inl j ↦ rw j (unlisted-allowed m table d ss a nt et)
      | inr j ↦ rw j (unlisted-allowed m table d ss d.number nt nt)
    ]

module _ (d : SeccompData) (f : ℕ → ℕ) (fn : f d.number ≡ ret_allow) where
  self : (d.number == d.number) ≡ true
  self = (==_iff d.number d.number).1 refl

  by_argument-own :
      (flags : ℕ) (cmds : List ℕ)
      → f (field_of d (arg_low 1)) ≡ ret_allow
      → after (judge d d.number flags (by_argument cmds) d.number) f
        ≡ (if contains (field_of d (arg_low 1)) cmds then trace_with flags else ret_allow)
  unfolding judge
  by_argument-own flags cmds fa =
      rw self (elim (Bool-cases (contains (field_of d (arg_low 1)) cmds)) [
        | inl e ↦ rw e refl
        | inr e ↦ rw (e, fa) refl
      ])

  tagged-own :
      (flags i : ℕ)
      → after (judge d d.number flags (tagged i) d.number) f
        ≡ (if field_of d (arg_high i) == raw_tag then ret_allow else ret_user_notif)
  unfolding judge
  tagged-own flags i = rw self (elim (Bool-cases (field_of d (arg_high i) == raw_tag)) [
    | inl e ↦ rw e refl
    | inr e ↦ rw e refl
  ])

  plain-own : (flags r : ℕ) → after (judge d d.number flags (plain r) d.number) f ≡ r
  unfolding judge
  plain-own flags r = rw self refl

  -- The listed call gets its answer, where the calls behind it let through what it leaves.
  judge-own :
      (m : Mode) (table : List ℕ) (s : FilteredSysnum)
      → detranslate table s.value ≡ d.number
      → (d.number == word_mod - 1) ≡ false
      → (f (field_of d (arg_low 1)) ≡ ret_allow) ⊎ (tests_argument (some s) ≡ false)
      → after (judge d (detranslate table s.value) s.flags (kind_of m table s) d.number) f
        ≡ answer m d s
  unfolding kind_of traced_kind answer judge
  judge-own m table s number ne fa =
      rw (number, ne)
        (elim (Bool-cases (m.stat_shim && is_stat_shim_sysnum s.value m.link2symlink)) [
          | inl shim ↦ rw shim (elim (Bool-cases (m.user_notif && is_user_notif_sysnum s.value)) [
            | inl u ↦ rw u (tagged-own s.flags (if s.value == pr_statx then 2 else 3))
            | inr u ↦ rw u fn
          ])
          | inr shim ↦ rw shim (elim (Bool-cases (s.value == pr_ioctl)) [
            | inl i ↦ rw i (by_argument-own s.flags ioctl_cmds (ground arith))
            | inr i ↦ rw i (elim (Bool-cases (is_fcntl s.value)) [
              | inl c ↦ rw c (by_argument-own s.flags fcntl_traced_cmds (ground arith))
              | inr c ↦ rw c (elim (Bool-cases (m.user_notif && is_user_notif_sysnum s.value)) [
                | inl u ↦ rw u (plain-own s.flags ret_user_notif)
                | inr u ↦ rw u (plain-own s.flags (trace_with s.flags))
              ])
            ])
          ])
        ])

module _ (table : List ℕ) (d : SeccompData) (s : FilteredSysnum) (ss : List FilteredSysnum) where
  IsClear-tail :
      (detranslate table s.value == d.number) ≡ false
      → IsClear table (s ∷ ss) d
      → IsClear table ss d
  unfolding listed
  IsClear-tail n (inl l) = inl (listed-head table (field_of d (arg_low 1)) s ss l).1
  IsClear-tail n (inr t) = inr (ground arith)

  clear-here :
      (m : Mode)
      → detranslate table s.value ≡ d.number
      → listed table d.number ss ≡ none
      → IsClear table (s ∷ ss) d
      → (verdict_from m table d ss (field_of d (arg_low 1)) ≡ ret_allow)
        ⊎ (tests_argument (some s) ≡ false)
  unfolding listed
  clear-here m e new (inl l) = inl (
      unlisted-allowed m table d ss (field_of d (arg_low 1)) new
        (listed-head table (field_of d (arg_low 1)) s ss l).1)
  clear-here m e new (inr t) = inr (ground arith)

  not_behind :
      detranslate table s.value ≡ d.number
      → d.number < 2 ^ 32
      → has s.value ss ≡ false
      → listed table d.number ss ≡ none
  not_behind e lt new = rw (sym e) (listed-unlisted table s.value ss new (ground arith))

-- What is in front of the first call of this number passes it on, and what is behind lets it through.
pub verdict-answer :
    (m : Mode) (table : List ℕ) (d : SeccompData) (ss : List FilteredSysnum)
    → Once ss
    → d.number < 2 ^ 32
    → IsClear table ss d
    → verdict_from m table d ss d.number ≡ answer_of m d (listed table d.number ss)
unfolding verdict_from answer_of listed
verdict-answer m table d [] once lt clear = refl
verdict-answer m table d (s ∷ ss) (new, once) lt clear =
    let sc = detranslate table s.value in
    elim (Bool-cases (sc == d.number)) [
      | inr n ↦
          (let other : (d.number == sc) ≡ false = ground arith in
            rw (n, judge-other d sc s.flags (kind_of m table s) other)
              (verdict-answer m table d ss once lt (IsClear-tail table d s ss n clear)))
      | inl e ↦
          (let number = (==_iff sc d.number).0 e in
            let behind = not_behind table d s ss number lt new in
            rw e (
              judge-own d (verdict_from m table d ss)
                (unlisted-allowed m table d ss d.number behind behind) m table s number
                (ground arith) (clear-here table d s ss m number behind clear)))
    ]
