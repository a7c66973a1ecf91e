-- ===== src/Seccomp/Whole.antt =====
-- src/syscall/seccomp.c: the whole program of set_seccomp_filters, and what it returns.
use neoproot.Base.{
  ℕ, ◌+◌, ◌*◌, ◌%◌, ◌^◌, ◌<◌, ◌≤◌, ◌≡◌, refl, ap, ◌∙◌, List, [], ◌∷◌, ◌++◌, arith, length,
  length-append,
}
use mathlib.Core.List.{append_assoc}
use neoproot.Seccomp.{
  nr, arch, Insn, load, jeq, ja, ret, ok, ret_kill, ret_allow, new_program_filter, end_arch_section,
  start_arch_section, finalize_program_filter, FilteredSysnum,
}
use neoproot.Seccomp.Filters.{
  Mode, Counts, count_abi, count_abis, add_abis, SeccompArch, add_arch, add_archs, build,
}
use neoproot.Seccomp.Code.{
  codes, code_for, code, kind_of, traced_kind, add_abi-eq, counted, count_abi-counted,
}

abbrev none_yet : Counts
none_yet = record { n_trace = 0; ioctl_extra = 0; stat_extra = 0 }

code-short : (m : Mode) (table : List ℕ) (s : FilteredSysnum) → length (code_for m table s) ≤ 16
unfolding code_for code kind_of traced_kind
code-short m table s = ground arith

pub codes-short :
    (m : Mode) (table : List ℕ) (ss : List FilteredSysnum)
    → length (codes m table ss) ≤ 16 * length ss
unfolding codes
codes-short m table [] = omega arith
codes-short m table (s ∷ ss) = omega (
  arith,
  codes-short m table ss,
  code-short m table s,
  length-append (code_for m table s) (codes m table ss),
)

-- The statements of the section of one ABI, and the end of the program.
unfoldable pub statements : ℕ → List Insn → List Insn
statements v section =
    load arch ∷ jeq v 1 0 ∷ ja (length section + 2) ∷ load nr ∷ section
    ++ ret ret_allow ∷ ret ret_kill ∷ []

-- The architecture with one ABI, as SECCOMP_ARCHS has it.
abbrev pub one_abi : ℕ → List ℕ → SeccompArch
one_abi v table = record { arch_value = v; abis = table ∷ [] }

start-eq :
    (v n extra k : ℕ)
    → n * 2 + extra ≡ k
    → k + 2 < 2 ^ 32
    → start_arch_section new_program_filter v n extra
      ≡ ok (record { filter = load arch ∷ jeq v 1 0 ∷ ja (k + 2) ∷ load nr ∷ []; len = 4 })
unfolding start_arch_section
start-eq v n extra k e lt =
    let jump : (1 + n * 2 + extra + 1) % 2 ^ 32 ≡ k + 2 = omega arith in rw jump (ground arith)

end-eq :
    (header section : List Insn) (n extra : ℕ)
    → length header ≡ 4
    → n * 2 + extra ≡ length section
    → end_arch_section (record { filter = header ++ section; len = 4 }) n extra
      ≡ ok (record { filter = (header ++ section) ++ ret ret_allow ∷ []; len = 4 })
unfolding end_arch_section
end-eq header section n extra h e =
    ground
      (arith, length-append (header ++ section) (ret ret_allow ∷ []), length-append header section)

abbrev header : ℕ → List Insn → List Insn
header v section = load arch ∷ jeq v 1 0 ∷ ja (length section + 2) ∷ load nr ∷ []

add_arch-eq :
    (m : Mode) (v : ℕ) (table : List ℕ) (ss : List FilteredSysnum)
    → length table ≤ 2 ^ 32
    → length ss ≤ 2 ^ 20
    → add_arch m (one_abi v table) ss new_program_filter
      ≡ ok (record {
        filter = (header v (codes m table ss) ++ codes m table ss) ++ ret ret_allow ∷ [];
        len = 4;
      })
unfolding add_arch count_abis add_abis counted
add_arch-eq m v table ss h k =
    let c = count_abi m table ss none_yet in
    let section = codes m table ss in
    let n : c.n_trace * 2 + (c.ioctl_extra + c.stat_extra) ≡ length section =
      count_abi-counted m table ss none_yet ∙ omega arith in
    let small : length section + 2 < 2 ^ 32 = omega (arith, codes-short m table ss) in
    rw (start-eq v c.n_trace (c.ioctl_extra + c.stat_extra) (length section) n small) (
      rw (add_abi-eq m table ss (record { filter = header v section; len = 4 }) h)
        (end-eq (header v section) section c.n_trace (c.ioctl_extra + c.stat_extra) refl n))

-- For a table of at most 2^32 numbers and at most 2^20 calls, the statements that are counted first are
-- those that are then emitted, so the program is not refused: it is the header of its architecture,
-- the statements of each call, leave for the other calls, and death.
pub build-eq :
    (m : Mode) (v : ℕ) (table : List ℕ) (ss : List FilteredSysnum)
    → length table ≤ 2 ^ 32
    → length ss ≤ 2 ^ 20
    → build m (one_abi v table ∷ []) ss
      ≡ ok (record {
        filter = statements v (codes m table ss);
        len = length (statements v (codes m table ss));
      })
unfolding build add_archs finalize_program_filter statements
build-eq m v table ss h k =
    let section = codes m table ss in
    let joined : ((header v section ++ section) ++ ret ret_allow ∷ []) ++ ret ret_kill ∷ []
        ≡ statements v section =
      append_assoc (header v section ++ section) (ret ret_allow ∷ []) (ret ret_kill ∷ [])
      ∙ append_assoc (header v section) section (ret ret_allow ∷ ret ret_kill ∷ []) in
    rw (add_arch-eq m v table ss h k) (ap (λ l. ok (record { filter = l; len = length l })) joined)
