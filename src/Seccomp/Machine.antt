-- ===== src/Seccomp/Machine.antt =====
-- The machine of the kernel that runs a filter, by what its documentation says of the opcodes.
use neoproot.Base.{ℕ, ◌/◌, ◌%◌, ◌^◌, ◌≡◌, List, ◌∷◌, ◌==◌, if◌then◌else◌, drop}
use neoproot.Seccomp.{Field, nr, arch, arg_low, arg_high, Insn, load, jeq, ja, ret}

-- `struct seccomp_data`: the call that a tracee makes.
pub record SeccompData : Type 0 where
  pub number : ℕ
  pub arch_of : ℕ
  pub arg : ℕ → ℕ

abbrev pub field_of : SeccompData → Field → ℕ
field_of d nr = d.number
field_of d arch = d.arch_of
field_of d (arg_low i) = d.arg i % 2 ^ 32
field_of d (arg_high i) = d.arg i / 2 ^ 32 % 2 ^ 32

-- `run d is a` is what the statements `is` return with `a` in the accumulator. A jump counts from
-- the statement behind it.
pub record Bpf : Type 0 where
  pub run : SeccompData → List Insn → ℕ → ℕ
  pub run-load :
      (d : SeccompData) (f : Field) (is : List Insn) (a : ℕ)
      → run d (load f ∷ is) a ≡ run d is (field_of d f)
  pub run-jeq :
      (d : SeccompData) (k jt jf : ℕ) (is : List Insn) (a : ℕ)
      → run d (jeq k jt jf ∷ is) a ≡ run d (drop (if a == k then jt else jf) is) a
  pub run-ja :
      (d : SeccompData) (k : ℕ) (is : List Insn) (a : ℕ) → run d (ja k ∷ is) a ≡ run d (drop k is) a
  pub run-ret : (d : SeccompData) (k : ℕ) (is : List Insn) (a : ℕ) → run d (ret k ∷ is) a ≡ k
