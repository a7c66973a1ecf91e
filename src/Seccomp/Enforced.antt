-- ===== src/Seccomp/Enforced.antt =====
-- src/syscall/seccomp.c: what the whole program returns for a call.
use neoproot.Base.{
  ℕ, suc, ◌+◌, ◌^◌, ◌<◌, ◌≤◌, ◌≡◌, refl, ap, ◌∙◌, List, [], ◌∷◌, ◌++◌, ◌==◌, if◌then◌else◌,
  Bool-cases, inl, inr, arith, length, drop,
}
use neoproot.Seccomp.{
  nr, arch, Insn, load, jeq, ja, ret, SockFprog, ok, ret_kill, ret_allow, FilteredSysnum,
}
use neoproot.Seccomp.Filters.{Mode, build}
use neoproot.Seccomp.Machine.{SeccompData, Bpf}
use neoproot.Seccomp.Code.{codes}
use neoproot.Seccomp.Whole.{statements, one_abi, build-eq}
use neoproot.Seccomp.Verdict.{run-codes}
use neoproot.Seccomp.Distinct.{Once}
use neoproot.Seccomp.Policy.{policy, IsClear, verdict-answer}

drop-section :
    (section : List Insn) (i : Insn) (rest : List Insn)
    → drop (suc (length section)) (section ++ i ∷ rest) ≡ rest
drop-section [] i rest = refl
drop-section (j ∷ section) i rest = drop-section section i rest

-- The jump over the section of another architecture reaches the last statement.
drop-past :
    (section : List Insn)
    → drop (length section + 2) (load nr ∷ section ++ ret ret_allow ∷ ret ret_kill ∷ [])
      ≡ ret ret_kill ∷ []
drop-past section =
    let two : length section + 2 ≡ suc (suc (length section)) = omega arith in
    rw two (drop-section section (ret ret_allow) (ret ret_kill ∷ []))

module _ (b : Bpf) (d : SeccompData) where
  pub run-statements :
      (v : ℕ) (section : List Insn) (a : ℕ)
      → b.run d (statements v section) a ≡ (
          if d.arch_of == v
          then b.run d (section ++ ret ret_allow ∷ ret ret_kill ∷ []) d.number
          else ret_kill)
  unfolding statements
  run-statements v section a =
      let body = section ++ ret ret_allow ∷ ret ret_kill ∷ [] in
      let over = ja (length section + 2) ∷ load nr ∷ body in
      b.run-load d arch (jeq v 1 0 ∷ over) a
      ∙ b.run-jeq d v 1 0 over d.arch_of
      ∙ elim (Bool-cases (d.arch_of == v)) [
        | inl e ↦ rw e (b.run-load d nr body d.arch_of)
        | inr e ↦ rw e (
            b.run-ja d (length section + 2) (load nr ∷ body) d.arch_of
            ∙ ap (λ l. b.run d l d.arch_of) (drop-past section)
            ∙ b.run-ret d ret_kill [] d.arch_of)
      ]

  program-policy :
      (m : Mode) (v : ℕ) (table : List ℕ) (ss : List FilteredSysnum) (a : ℕ)
      → Once ss
      → d.number < 2 ^ 32
      → IsClear table ss d
      → b.run d (statements v (codes m table ss)) a ≡ policy m v table ss d
  unfolding policy
  program-policy m v table ss a once lt clear =
      run-statements v (codes m table ss) a
      ∙ rw
          (
            run-codes b m table d ss (ret ret_kill ∷ []) d.number,
            verdict-answer m table d ss once lt clear,
          )
          refl

  -- The program is built, and decides as the list of the calls says.
  pub build-policy :
      (m : Mode) (v : ℕ) (table : List ℕ) (ss : List FilteredSysnum) (a : ℕ)
      → length table ≤ 2 ^ 32
      → length ss ≤ 2 ^ 20
      → Once ss
      → d.number < 2 ^ 32
      → IsClear table ss d
      → (p : SockFprog) × (build m (one_abi v table ∷ []) ss ≡ ok p)
        × (b.run d p.filter a ≡ policy m v table ss d)
  build-policy m v table ss a h k once lt clear =
      (_, build-eq m v table ss h k, program-policy m v table ss a once lt clear)
