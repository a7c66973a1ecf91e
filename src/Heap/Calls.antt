-- ===== src/Heap/Calls.antt =====
-- The break as the tracee sees it, over a whole call: the entry, the kernel's answer, the exit.
use neoproot.Base.{
  ℕ, ◌+◌, ◌-◌, ◌^◌, ◌≤◌, ◌<◌, ◌≡◌, Bool, true, false, Option, none, some, arith, ◌==◌,
  if◌then◌else◌,
}
use neoproot.Base.Int.{ℤ}
use neoproot.Tracee.Regs.{
  UserRegs, sysarg_result, RegVersion, peek_reg, poke_reg, get_sysnum, set_sysnum, save_modified,
}
use neoproot.Heap.{Heap, Program, enter_mremap, translate_brk_enter, translate_brk_exit}

-- The tracee asks for the break `new_brk`: what ORIGINAL and CURRENT hold at the entry.
abbrev request : Program → ℕ → Program
request s new_brk =
    let u : UserRegs = record (s.regs.current) { num = 214; x0 = new_brk } in
    record s { regs = record (s.regs) { current = u; original = u } }

-- The kernel runs what CURRENT holds and answers `result`.
abbrev answer : Program → ℕ → Program
answer s result =
    let m = save_modified s.regs in
    record s { regs = record m { current = record (m.current) { x0 = result } } }

infixl 5 ◌>>=◌
abbrev ◌>>=◌ : Option Program → (Program → Option Program) → Option Program
none >>= f = none
some a >>= f = f a

unfoldable pub brk_call : ℤ → Program → ℕ → ℕ → Option Program
brk_call sysconf s new_brk result = do
  s' ← translate_brk_enter sysconf (request s new_brk)
  translate_brk_exit (answer s' result)

abbrev pub seen : Program → ℕ
seen s = peek_reg s.regs RegVersion.current sysarg_result

-- A mapped heap: one page of its own below the base, all of it in the user half.
pub record IsMapped (s : Program) : Type 0 where
  pub enabled : s.heap.disabled ≡ false
  pub has_page : 0 < s.page_size
  pub guarded : s.page_size < s.heap.base
  pub in_range : s.heap.base + s.heap.size ≤ 2 ^ 63

-- The call returns with this heap, and the tracee sees this break.
abbrev pub Gives : Option Program → Heap → ℕ → ℕ → Type 0
Gives none h page brk = ⊥
Gives (some t) h page brk = (t.heap ≡ h) × (t.page_size ≡ page) × (seen t ≡ brk)

enter_resize :
    (sysconf : ℤ) (s : Program) (new_brk : ℕ)
    → IsMapped s
    → s.heap.base ≤ new_brk
    → translate_brk_enter sysconf (request s new_brk)
      ≡ some (enter_mremap (request s new_brk) new_brk)
unfolding translate_brk_enter peek_reg
enter_resize sysconf s new_brk m h = ground arith

-- The kernel resized the region in place.
abbrev pub resized : Program → ℕ → Bool
resized s result = result + s.page_size == s.heap.base

exit_resize :
    (s : Program) (new_brk result : ℕ)
    → IsMapped s
    → s.heap.base ≤ new_brk
    → new_brk < 2 ^ 64
    → (resized s result ≡ true → new_brk ≤ 2 ^ 63)
    → result < 2 ^ 64
    → Gives
        (translate_brk_exit (answer (enter_mremap (request s new_brk) new_brk) result))
        (if resized s result then record (s.heap) { size = new_brk - s.heap.base } else s.heap)
        s.page_size
        (if resized s result then new_brk else s.heap.base + s.heap.size)
unfolding translate_brk_exit enter_mremap peek_reg poke_reg get_sysnum set_sysnum save_modified
exit_resize s new_brk result m h k f b = ground arith

-- On a mapped heap a call for a break at or above the base returns. If the kernel resized the
-- region in place, the heap ends at the new break and the tracee sees it; on any other answer the
-- heap stays as it was and the tracee sees the old break. The kernel is taken to resize a region
-- only within the user half.
pub brk_call_resize :
    (sysconf : ℤ) (s : Program) (new_brk result : ℕ)
    → IsMapped s
    → s.heap.base ≤ new_brk
    → new_brk < 2 ^ 64
    → (resized s result ≡ true → new_brk ≤ 2 ^ 63)
    → result < 2 ^ 64
    → Gives
        (brk_call sysconf s new_brk result)
        (if resized s result then record (s.heap) { size = new_brk - s.heap.base } else s.heap)
        s.page_size
        (if resized s result then new_brk else s.heap.base + s.heap.size)
unfolding brk_call
brk_call_resize sysconf s new_brk result m h k f b =
    rw (enter_resize sysconf s new_brk m h) (exit_resize s new_brk result m h k f b)

-- A call for a break below the base makes no call to the kernel: whatever register 0 holds
-- afterwards, the heap stays as it was and the tracee sees the current break.
pub brk_call_below :
    (sysconf : ℤ) (s : Program) (new_brk result : ℕ)
    → IsMapped s
    → new_brk < s.heap.base
    → Gives (brk_call sysconf s new_brk result) s.heap s.page_size (s.heap.base + s.heap.size)
unfolding brk_call translate_brk_enter translate_brk_exit peek_reg poke_reg get_sysnum set_sysnum
    save_modified
brk_call_below sysconf s new_brk result m h = ground arith
