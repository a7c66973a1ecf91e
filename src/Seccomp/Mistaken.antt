-- ===== src/Seccomp/Mistaken.antt =====
-- src/syscall/seccomp.c: a call whose argument the program takes for the number of a call.
use neoproot.Base.{
  ℕ, ◌-◌, ◌^◌, ◌<◌, ◌≤◌, ◌≡◌, refl, ap, ◌∙◌, sym, Bool, true, false, List, [], ◌∷◌, ◌++◌, Option,
  none, some, ◌==◌, if◌then◌else◌, Bool-cases, inl, inr, arith, length, ==_iff,
}
use mathlib.Core.Option.{some-injective}
use mathlib.Core.Path.{subst}
use neoproot.Base.Words.{word_mod}
use neoproot.Seccomp.{arg_low, SockFprog, ok, FilteredSysnum, pr_ioctl, detranslate}
use neoproot.Seccomp.Filters.{Mode, fcntl_traced_cmds, ioctl_cmds}
use neoproot.Seccomp.Machine.{SeccompData, field_of, Bpf}
use neoproot.Seccomp.Code.{codes, kind_of, traced_kind}
use neoproot.Seccomp.Whole.{one_abi, build-eq}
use neoproot.Seccomp.Verdict.{contains, go, stop, judge, run-codes, verdict_from}
use neoproot.Seccomp.Distinct.{listed}
use neoproot.Seccomp.Policy.{answer, tests_argument}
use neoproot.Seccomp.Enforced.{run-statements}
use neoproot.Seccomp.Merge.{filtered_sysnums, enable_syscall_filtering}

-- The values of the second argument that stop a call.
abbrev pub stopping : FilteredSysnum → List ℕ
stopping s = if s.value == pr_ioctl then ioctl_cmds else fcntl_traced_cmds

module _ (d : SeccompData) (m : Mode) (table : List ℕ) (plain_mode : m.stat_shim ≡ false) where
  judge-pass :
      (s : FilteredSysnum) (a : ℕ)
      → (a == detranslate table s.value) ≡ false
      → judge d (detranslate table s.value) s.flags (kind_of m table s) a ≡ go a
  unfolding judge kind_of traced_kind
  judge-pass s a other = ground arith

  judge-hit :
      (t : FilteredSysnum) (a : ℕ)
      → (a == detranslate table t.value) ≡ true
      → (detranslate table t.value == word_mod - 1) ≡ false
      → tests_argument (some t) ≡ false
      → judge d (detranslate table t.value) t.flags (kind_of m table t) a ≡ stop (answer m d t)
  unfolding judge kind_of traced_kind answer
  judge-hit t a same number simple = ground arith

  judge-missed_argument :
      (s : FilteredSysnum) (a : ℕ)
      → (a == detranslate table s.value) ≡ true
      → (detranslate table s.value == word_mod - 1) ≡ false
      → tests_argument (some s) ≡ true
      → contains (field_of d (arg_low 1)) (stopping s) ≡ false
      → judge d (detranslate table s.value) s.flags (kind_of m table s) a
        ≡ go (field_of d (arg_low 1))
  unfolding judge kind_of traced_kind
  judge-missed_argument s a same number tests missed = ground arith

  verdict-pass :
      (front ss : List FilteredSysnum) (a : ℕ)
      → listed table a front ≡ none
      → verdict_from m table d (front ++ ss) a ≡ verdict_from m table d ss a
  unfolding verdict_from listed
  verdict-pass [] ss a none_listed = refl
  verdict-pass (s ∷ front) ss a none_listed =
      let other : (a == detranslate table s.value) ≡ false = ground arith in
      rw (judge-pass s a other) (verdict-pass front ss a (ground arith))

  verdict-argument :
      (s : FilteredSysnum) (ss : List FilteredSysnum) (a : ℕ)
      → (a == detranslate table s.value) ≡ true
      → (detranslate table s.value == word_mod - 1) ≡ false
      → tests_argument (some s) ≡ true
      → contains (field_of d (arg_low 1)) (stopping s) ≡ false
      → verdict_from m table d (s ∷ ss) a ≡ verdict_from m table d ss (field_of d (arg_low 1))
  unfolding verdict_from
  verdict-argument s ss a same number tests missed =
      rw (judge-missed_argument s a same number tests missed) refl

  listed-here :
      (a : ℕ) (s : FilteredSysnum) (ss : List FilteredSysnum)
      → (detranslate table s.value == a) ≡ true
      → listed table a (s ∷ ss) ≡ some s
  unfolding listed
  listed-here a s ss e = rw e refl

  listed-behind :
      (a : ℕ) (s : FilteredSysnum) (ss : List FilteredSysnum)
      → (detranslate table s.value == a) ≡ false
      → listed table a (s ∷ ss) ≡ listed table a ss
  unfolding listed
  listed-behind a s ss e = rw e refl

  listed-nil : (a : ℕ) (t : FilteredSysnum) → listed table a [] ≡ some t → ⊥
  unfolding listed
  listed-nil a t e = absurd cc

  verdict-hit :
      (t : FilteredSysnum) (ss : List FilteredSysnum) (a : ℕ)
      → a < 2 ^ 32
      → listed table a ss ≡ some t
      → tests_argument (some t) ≡ false
      → verdict_from m table d ss a ≡ answer m d t
  unfolding verdict_from
  verdict-hit t [] a lt found simple = absurd (listed-nil a t found)
  verdict-hit t (s ∷ ss) a lt found simple = elim (Bool-cases (detranslate table s.value == a)) [
    | inl e ↦
        (let same : s ≡ t = some-injective s t (sym (listed-here a s ss e) ∙ found) in
          let simple' : tests_argument (some s) ≡ false =
            subst (λ x. tests_argument (some x) ≡ false) (sym same) simple in
          let here : (a == detranslate table s.value) ≡ true = ground (arith, e) in
          let number : (detranslate table s.value == word_mod - 1) ≡ false =
            ground (arith, e, lt) in
          rw (judge-hit s a here number simple') (ap (answer m d) same))
    | inr e ↦
        (let other : (a == detranslate table s.value) ≡ false = ground (arith, e) in
          rw (judge-pass s a other)
            (verdict-hit t ss a lt (sym (listed-behind a s ss e) ∙ found) simple))
  ]

module _ (b : Bpf) (d : SeccompData) (m : Mode) (v : ℕ) (table : List ℕ) where
  -- A call that the policy lets through can stop as another call. Let the shim not be used, the merged
  -- list have an ioctl or fcntl, none of the values that stop it be the second argument, and that
  -- argument be the number of a call listed behind it, which is itself no ioctl or fcntl. Then the
  -- program that is built returns for the ioctl or fcntl, on any machine with the documented opcodes,
  -- the answer of that other call.
  pub argument_taken_for_number :
      (android blocked : Bool) (exts : List (Option (List FilteredSysnum)))
      (front behind : List FilteredSysnum) (s t : FilteredSysnum)
      → length table ≤ 2 ^ 32
      → length (filtered_sysnums android blocked exts) ≤ 2 ^ 20
      → m.stat_shim ≡ false
      → filtered_sysnums android blocked exts ≡ front ++ s ∷ behind
      → listed table d.number front ≡ none
      → d.arch_of ≡ v
      → d.number < 2 ^ 32
      → d.number ≡ detranslate table s.value
      → tests_argument (some s) ≡ true
      → contains (field_of d (arg_low 1)) (stopping s) ≡ false
      → listed table (field_of d (arg_low 1)) behind ≡ some t
      → tests_argument (some t) ≡ false
      → (p : SockFprog) × (enable_syscall_filtering m (one_abi v table ∷ []) android blocked exts
          ≡ ok p)
        × (b.run d p.filter 0 ≡ answer m d t)
  unfolding enable_syscall_filtering
  argument_taken_for_number android blocked exts front behind s t h k shim split first arch lt
        number tests missed found simple =
      let list = filtered_sysnums android blocked exts in
      let here : (d.number == detranslate table s.value) ≡ true =
        (==_iff d.number (detranslate table s.value)).1 number in
      let in_table : (detranslate table s.value == word_mod - 1) ≡ false =
        ground (arith, number, lt) in
      let verdict : verdict_from m table d (front ++ s ∷ behind) d.number ≡ answer m d t =
        verdict-pass d m table shim front (s ∷ behind) d.number first
        ∙ verdict-argument d m table shim s behind d.number here in_table tests missed
        ∙ verdict-hit d m table shim t behind (field_of d (arg_low 1)) (omega arith) found simple in
      (
        _,
        build-eq m v table list h k,
        run-statements b d v (codes m table list) 0
            ∙ rw ((==_iff d.arch_of v).1 arch) (
                run-codes b m table d list _ d.number
                ∙ ap (λ l. verdict_from m table d l d.number) split
                ∙ verdict),
      )
