-- ===== src/Seccomp/Verdict.antt =====
-- src/syscall/seccomp.c: what the statements of each call do on the machine, and what the section of
-- an ABI returns.
use neoproot.Base.{
  ℕ, suc, ◌+◌, ◌*◌, ◌%◌, ◌^◌, ◌≤◌, ◌≡◌, refl, ap, ◌∙◌, Bool, false, ◌||◌, List, [], ◌∷◌, ◌++◌, ◌==◌,
  if◌then◌else◌, Bool-cases, inl, inr, arith, length, drop,
}
use mathlib.Core.List.{append_assoc}
use neoproot.Seccomp.{
  nr, arg_low, arg_high, Insn, load, jeq, ret, ret_user_notif, ret_allow, trace_with, arg_tests,
  FilteredSysnum, detranslate,
}
use neoproot.Seccomp.Filters.{Mode, raw_tag}
use neoproot.Seccomp.Code.{
  Kind, passed, tagged, by_argument, plain, traced_kind, kind_of, code, code_for, codes,
}
use neoproot.Seccomp.Machine.{SeccompData, field_of, Bpf}

abbrev pub contains : ℕ → List ℕ → Bool
contains a [] = false
contains a (c ∷ cs) = a == c || contains a cs

-- What is returned, or what is in the accumulator behind the statements.
pub data Reached : Type 0 where
  stop : ℕ → Reached
  go : ℕ → Reached

unfoldable pub judge : SeccompData → ℕ → ℕ → Kind → ℕ → Reached
judge d sc flags passed a = go a
judge d sc flags (tagged i) a =
    if d.number == sc
    then (if field_of d (arg_high i) == raw_tag then stop ret_allow else stop ret_user_notif)
    else go d.number
judge d sc flags (by_argument cmds) a =
    if a == sc
    then (if contains (field_of d (arg_low 1)) cmds
        then stop (trace_with flags)
        else go (field_of d (arg_low 1)))
    else go a
judge d sc flags (plain r) a = if a == sc then stop r else go a

-- The jump over the tests of a call is not cut.
pub Fits : Kind → Type 0
Fits (by_argument cmds) = length cmds ≤ 127
Fits passed = Unit
Fits (tagged i) = Unit
Fits (plain r) = Unit

abbrev pub after : Reached → (ℕ → ℕ) → ℕ
after (stop r) f = r
after (go a) f = f a

module _ (b : Bpf) (d : SeccompData) where
  run-tests :
      (flags : ℕ) (cmds : List ℕ) (rest : List Insn) (a : ℕ)
      → b.run d (arg_tests flags cmds ++ rest) a
        ≡ (if contains a cmds then trace_with flags else b.run d rest a)
  run-tests flags [] rest a = refl
  run-tests flags (c ∷ cmds) rest a =
      b.run-jeq d c 0 1 (ret (trace_with flags) ∷ arg_tests flags cmds ++ rest) a
      ∙ elim (Bool-cases (a == c)) [
        | inl e ↦ rw e (b.run-ret d (trace_with flags) (arg_tests flags cmds ++ rest) a)
        | inr e ↦ rw e (run-tests flags cmds rest a)
      ]

  drop-tests :
      (flags : ℕ) (cmds : List ℕ) (rest : List Insn)
      → drop (2 * length cmds) (arg_tests flags cmds ++ rest) ≡ rest
  drop-tests flags [] rest = refl
  drop-tests flags (c ∷ cmds) rest =
      let two : 2 * suc (length cmds) ≡ suc (suc (2 * length cmds)) = omega arith in
      rw two (drop-tests flags cmds rest)

  run-code :
      (sc flags : ℕ) (k : Kind) (rest : List Insn) (a : ℕ)
      → Fits k
      → b.run d (code sc flags k ++ rest) a ≡ after (judge d sc flags k a) (b.run d rest)
  unfolding code judge Fits
  run-code sc flags passed rest a fit = refl
  run-code sc flags (plain r) rest a fit =
      b.run-jeq d sc 0 1 (ret r ∷ rest) a
      ∙ elim (Bool-cases (a == sc)) [ inl e ↦ rw e (b.run-ret d r rest a) | inr e ↦ rw e refl ]
  run-code sc flags (tagged i) rest a fit =
      let tail = load (arg_high i) ∷ jeq raw_tag 0 1 ∷ ret ret_allow ∷ ret ret_user_notif ∷ rest in
      b.run-load d nr (jeq sc 0 4 ∷ tail) a
      ∙ b.run-jeq d sc 0 4 tail d.number
      ∙ elim (Bool-cases (d.number == sc)) [
        | inr e ↦ rw e refl
        | inl e ↦ rw e (
            b.run-load d (arg_high i) (drop 1 tail) d.number
            ∙ b.run-jeq d raw_tag 0 1 (drop 2 tail) (field_of d (arg_high i))
            ∙ elim (Bool-cases (field_of d (arg_high i) == raw_tag)) [
              | inl t ↦ rw t (b.run-ret d ret_allow (drop 3 tail) (field_of d (arg_high i)))
              | inr t ↦ rw t (b.run-ret d ret_user_notif rest (field_of d (arg_high i)))
            ])
      ]
  run-code sc flags (by_argument cmds) rest a fit =
      let tail = load (arg_low 1) ∷ arg_tests flags cmds ++ rest in
      let jump : (1 + 2 * length cmds) % 2 ^ 8 ≡ suc (2 * length cmds) = omega (arith, fit) in
      b.run-jeq d sc 0 ((1 + 2 * length cmds) % 2 ^ 8) tail a ∙ elim (Bool-cases (a == sc)) [
        | inr e ↦ rw (e, jump, drop-tests flags cmds rest) refl
        | inl e ↦ rw e (
            b.run-load d (arg_low 1) (arg_tests flags cmds ++ rest) a
            ∙ run-tests flags cmds rest (field_of d (arg_low 1))
            ∙ elim (Bool-cases (contains (field_of d (arg_low 1)) cmds)) [
              | inl t ↦ rw t refl
              | inr t ↦ rw t refl
            ])
      ]

-- The value behind the statements of the calls, which let everything else through.
unfoldable pub verdict_from : Mode → List ℕ → SeccompData → List FilteredSysnum → ℕ → ℕ
unfolding judge kind_of
verdict_from m table d [] a = ret_allow
verdict_from m table d (s ∷ ss) a =
    after (judge d (detranslate table s.value) s.flags (kind_of m table s) a)
      (verdict_from m table d ss)

kind_of-Fits : (m : Mode) (table : List ℕ) (s : FilteredSysnum) → Fits (kind_of m table s)
unfolding kind_of traced_kind Fits
kind_of-Fits m table s = ground arith

after-ext : (o : Reached) (f g : ℕ → ℕ) → ((a : ℕ) → f a ≡ g a) → after o f ≡ after o g
after-ext (stop r) f g h = refl
after-ext (go a) f g h = h a

pub run-codes :
    (b : Bpf) (m : Mode) (table : List ℕ) (d : SeccompData) (ss : List FilteredSysnum)
    (rest : List Insn) (a : ℕ)
    → b.run d (codes m table ss ++ ret ret_allow ∷ rest) a ≡ verdict_from m table d ss a
unfolding codes code_for verdict_from
run-codes b m table d [] rest a = b.run-ret d ret_allow rest a
run-codes b m table d (s ∷ ss) rest a =
    let sc = detranslate table s.value in
    let k = kind_of m table s in
    let behind = codes m table ss ++ ret ret_allow ∷ rest in
    ap (λ l. b.run d l a)
      (append_assoc (code sc s.flags k) (codes m table ss) (ret ret_allow ∷ rest))
    ∙ run-code b d sc s.flags k behind a (kind_of-Fits m table s)
    ∙ after-ext (judge d sc s.flags k a) (b.run d behind) (verdict_from m table d ss)
        (run-codes b m table d ss rest)
