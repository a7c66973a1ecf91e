-- ===== src/Chain/Made.antt =====
-- The calls that a chain makes.
use neoproot.Base.{
  ℕ, ◌≡◌, refl, ap, ◌∙◌, sym, Bool, true, false, List, [], ◌∷◌, ◌++◌, Option, none, some, arith,
  length, map,
}
use mathlib.Core.List.{append_assoc, append-nil}
use neoproot.Tracee.Regs.{
  Regs, RegVersion, detranslate_sysnum, sysarg_result, peek_reg, poke_reg, set_sysnum,
}
use neoproot.Chain.{
  ChainedSyscall, Chain, register_internal, register_chained_syscall, chain_next_syscall, next_of,
  put_call, finish, insert,
}

-- A call as the kernel gets it: its number and its arguments.
pub record Call : Type 0 where
  pub num : ℕ
  pub args : List ℕ

abbrev pub call_of : ChainedSyscall → Call
call_of s = record {
  num = detranslate_sysnum s.sysnum;
  args = s.arg_1 ∷ s.arg_2 ∷ s.arg_3 ∷ s.arg_4 ∷ s.arg_5 ∷ s.arg_6 ∷ [];
}

-- The call that the registers make.
abbrev pub call_by : Regs → Call
call_by r = record {
  num = r.current.num;
  args =
      r.current.x0 ∷ r.current.x1 ∷ r.current.x2 ∷ r.current.x3 ∷ r.current.x4 ∷ r.current.x5 ∷ [];
}

abbrev pub register_all : Chain → List ChainedSyscall → Chain
register_all c [] = c
register_all c (s ∷ ss) = register_all (register_chained_syscall c s) ss

-- The kernel answers a call in the result register.
abbrev pub answer : Chain → ℕ → Chain
answer c a = record c { regs = poke_reg c.regs sysarg_result a }

abbrev pub next_or_same : Chain → Option Chain → Chain
next_or_same c none = c
next_or_same c (some c') = c'

-- The chain once its next call is set up.
abbrev pub next : Chain → Chain
next c = next_or_same c (chain_next_syscall c)

-- The calls that the tracee makes while the kernel gives these answers.
pub made : Chain → List ℕ → List Call
made c [] = []
made c (a ∷ answers) = call_by (next c).regs ∷ made (answer (next c) a) answers

-- What comes behind them.
pub behind : Chain → List ℕ → Option Chain
behind c [] = chain_next_syscall c
behind c (a ∷ answers) = behind (answer (next c) a) answers

-- The chain is over, and the tracee sees the forced result if there is one.
abbrev pub IsOver : Bool → ℕ → Option Chain → Type 0
IsOver force result none = ⊥
IsOver force result (some c) =
    (c.syscalls ≡ none)
    × (c.force_final_result ≡ false)
    × (force ≡ true → peek_reg c.regs RegVersion.current sysarg_result ≡ result)

put_call-call_by : (r : Regs) (s : ChainedSyscall) → call_by (put_call r s) ≡ call_of s
unfolding put_call peek_reg poke_reg set_sysnum
put_call-call_by r s = refl

register_all-eq :
    (c : Chain) (ps ss : List ChainedSyscall)
    → register_all (record c { syscalls = some ps }) ss ≡ record c { syscalls = some (ps ++ ss) }
unfolding register_chained_syscall register_internal
register_all-eq c ps [] = ap (λ l. record c { syscalls = some l }) (sym (append-nil ps))
register_all-eq c ps (s ∷ ss) =
    register_all-eq c (ps ++ s ∷ []) ss
    ∙ ap (λ l. record c { syscalls = some l }) (append_assoc ps (s ∷ []) ss)

over_lem : (c : Chain) → IsOver c.force_final_result c.final_result (some (finish c))
unfolding peek_reg poke_reg
over_lem c = ground arith

drained :
    (c : Chain) (ss : List ChainedSyscall) (answers : List ℕ)
    → length answers ≡ length ss
    → (made (record c { syscalls = some ss }) answers ≡ map call_of ss)
      × IsOver c.force_final_result c.final_result
          (behind (record c { syscalls = some ss }) answers)
unfolding made behind chain_next_syscall next_of
drained c [] [] h = (refl, over_lem c)
drained c [] (a ∷ answers) h = absurd (omega arith)
drained c (s ∷ ss) [] h = absurd (omega arith)
drained c (s ∷ ss) (a ∷ answers) h =
    let rest =
      drained
        (record c {
          restore_original_regs = false;
          restart_at_exit = true;
          regs = poke_reg (put_call c.regs s) sysarg_result a;
        })
        ss answers (omega arith) in
    (
      ap (λ l. call_by (put_call c.regs s) ∷ l) rest.0
          ∙ ap (λ x. x ∷ map call_of ss) (put_call-call_by c.regs s),
      rest.1,
    )

-- Where no chain is open, calls that are registered one after the other are made in that order, each
-- with its number and arguments, whatever the kernel answers to each. Then the chain is over, and a
-- result that was forced is what the tracee sees.
pub register_all-made :
    (c : Chain) (s : ChainedSyscall) (ss : List ChainedSyscall) (answers : List ℕ)
    → c.syscalls ≡ none
    → length answers ≡ length (s ∷ ss)
    → (made (register_all c (s ∷ ss)) answers ≡ map call_of (s ∷ ss))
      × IsOver c.force_final_result c.final_result (behind (register_all c (s ∷ ss)) answers)
unfolding register_chained_syscall register_internal
register_all-made c s ss answers e h =
    let all : register_all c (s ∷ ss) ≡ record c { syscalls = some (s ∷ ss) } =
      ap (λ o. register_all (record c { syscalls = some (insert false s o) }) ss) e
      ∙ register_all-eq c (s ∷ []) ss in
    rw all (drained c (s ∷ ss) answers h)
