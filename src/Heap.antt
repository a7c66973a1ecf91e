-- ===== src/Heap.antt =====
-- src/syscall/heap.c: the emulated program break. A `brk` is turned into a `mmap` or a `mremap` of a
-- region of its own, and the kernel's answer into the break that the tracee sees.
pub mod Calls
pub mod Refine
pub mod Tests
use neoproot.Base.{
  ℕ, zero, suc, ◌+◌, ◌-◌, ◌^◌, Bool, true, ◌&&◌, ◌||◌, not, List, [], ◌∷◌, Option, none, some, ltb,
  leb, ◌==◌, if◌then◌else◌,
}
use neoproot.Base.Int.{ℤ, pos, negsuc}
use neoproot.Base.Words.{word_mod, add64, sub64}
use neoproot.Tracee.Regs.{
  Regs, Sysnum, pr_void, pr_brk, pr_mmap, pr_mremap, sysarg_1, sysarg_2, sysarg_3, sysarg_4,
  sysarg_5, sysarg_6, sysarg_result, RegVersion, peek_reg, poke_reg, get_sysnum, set_sysnum,
}

-- `Heap` of src/tracee/tracee.h.
pub record Heap : Type 0 where
  pub base : ℕ
  pub size : ℕ
  pub disabled : Bool

-- The fields of `Mapping` that the handlers read.
pub record Mapping : Type 0 where
  pub addr : ℕ
  pub length : ℕ

-- What both handlers read and write: the heap, `heap_page_size`, `load_info->mappings`, the
-- registers.
pub record Program : Type 0 where
  pub heap : Heap
  pub page_size : ℕ
  pub mappings : List Mapping
  pub regs : Regs

-- The page size on its first use: that of the kernel if it is positive, or 4096.
abbrev pub page_size_of : ℤ → ℕ
page_size_of (pos zero) = 0x1000
page_size_of (pos (suc n)) = suc n
page_size_of (negsuc n) = 0x1000

unfoldable pub init_page_size : ℤ → Program → Program
init_page_size sysconf s =
    if s.page_size == 0 then record s { page_size = page_size_of sysconf } else s

-- The end of the last mapping; with none the source reads out of bounds.
unfoldable pub bss_end : List Mapping → Option ℕ
bss_end [] = none
bss_end (m ∷ []) = some (add64 m.addr m.length)
bss_end (m ∷ n ∷ ms) = bss_end (n ∷ ms)

abbrev pub prot_read_write : ℕ
prot_read_write = 3

abbrev pub map_private_anonymous : ℕ
map_private_anonymous = 0x22

-- The first call: map one page at the end of the program. PR_mmap2 is not in the arm64 table.
unfoldable pub enter_mmap : Program → ℕ → Program
enter_mmap s end =
    let r0 = set_sysnum s.regs pr_mmap in
    let r1 = poke_reg r0 sysarg_1 end in
    let r2 = poke_reg r1 sysarg_2 s.page_size in
    let r3 = poke_reg r2 sysarg_3 prot_read_write in
    let r4 = poke_reg r3 sysarg_4 map_private_anonymous in
    let r5 = poke_reg r4 sysarg_5 (word_mod - 1) in record s { regs = poke_reg r5 sysarg_6 0 }

-- A later call: resize the region.
unfoldable pub enter_mremap : Program → ℕ → Program
enter_mremap s new_brk =
    let new_size = sub64 new_brk s.heap.base in
    let r0 = set_sysnum s.regs pr_mremap in
    let r1 = poke_reg r0 sysarg_1 (sub64 s.heap.base s.page_size) in
    let r2 = poke_reg r1 sysarg_2 (add64 s.heap.size s.page_size) in
    let r3 = poke_reg r2 sysarg_3 (add64 new_size s.page_size) in
    let r4 = poke_reg r3 sysarg_4 0 in record s { regs = poke_reg r4 sysarg_5 0 }

enter_first : Program → ℕ → Option Program
unfolding enter_mmap bss_end
enter_first s new_brk =
    if not (new_brk == 0)
    then some s
    else elim (bss_end s.mappings) [ none ↦ none | some end ↦ some (enter_mmap s end) ]

-- `none`: the source would read out of bounds.
unfoldable pub translate_brk_enter : ℤ → Program → Option Program
unfolding init_page_size enter_first enter_mremap
translate_brk_enter sysconf s =
    let s' = init_page_size sysconf s in
    let new_brk = peek_reg s'.regs RegVersion.current sysarg_1 in
    if s.heap.disabled
    then some s
    else if s'.heap.base == 0
    then enter_first s' new_brk
    else if ltb new_brk s'.heap.base
    then some (record s' { regs = set_sysnum s'.regs pr_void })
    else some (enter_mremap s' new_brk)

-- `err < 0 && err > -4096` for the signed reading of a result.
abbrev pub is_error : ℕ → Bool
is_error result = leb (2 ^ 63) result && ltb (word_mod - 4096) result

unfoldable pub give : Program → ℕ → Program
give s v = record s { regs = poke_reg s.regs sysarg_result v }

exit_mmap : Program → ℕ → Program
unfolding give
exit_mmap s result =
    if is_error result
    then give s 0
    else (let h : Heap = record (s.heap) { base = add64 result s.page_size; size = 0 } in
        give (record s { heap = h }) h.base)

exit_mremap : Program → ℕ → Program
unfolding give
exit_mremap s result =
    if is_error result || not (s.heap.base == add64 result s.page_size)
    then give s (add64 s.heap.base s.heap.size)
    else (let size' = sub64 (peek_reg s.regs RegVersion.modified sysarg_3) s.page_size in
        let h : Heap = record (s.heap) { size = size' } in
        give (record s { heap = h }) (add64 h.base h.size))

exit_brk : Program → ℕ → Program
exit_brk s result =
    if result == peek_reg s.regs RegVersion.original sysarg_1
    then record s { heap = record (s.heap) { disabled = true } }
    else s

-- The switch on the system call that was made; the default is `assert(0)`.
exit_switch : Sysnum → Program → ℕ → Option Program
unfolding exit_mmap exit_mremap exit_brk give
exit_switch pr_void s result = some (give s (add64 s.heap.base s.heap.size))
exit_switch pr_mmap s result = some (exit_mmap s result)
exit_switch pr_mremap s result = some (exit_mremap s result)
exit_switch pr_brk s result = some (exit_brk s result)
exit_switch _ s result = none

-- `none`: an assertion fails.
unfoldable pub translate_brk_exit : Program → Option Program
unfolding exit_switch
translate_brk_exit s =
    if s.heap.disabled
    then some s
    else if s.page_size == 0
    then none
    else exit_switch (get_sysnum s.regs RegVersion.modified) s
        (peek_reg s.regs RegVersion.current sysarg_result)
