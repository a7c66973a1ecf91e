-- ===== src/Heap/Refine.antt =====
-- The program break as an abstract machine, and the proof that the handlers implement it.
use neoproot.Base.{
  ℕ, zero, suc, ◌+◌, ◌-◌, ◌^◌, ◌≤◌, ◌<◌, ◌≡◌, ◌⊎◌, refl, true, false, Option, none, some, List, [],
  ◌∷◌, arith, leb, ◌==◌, if◌then◌else◌, dec_lt,
}
use neoproot.Base.Int.{ℤ}
use neoproot.Tracee.Regs.{peek_reg, poke_reg, get_sysnum, set_sysnum, save_modified}
use neoproot.Heap.{
  Program, page_size_of, is_error, bss_end, translate_brk_enter, translate_brk_exit,
}
use neoproot.Heap.Calls.{IsMapped, resized, Gives, brk_call, seen, brk_call_resize, brk_call_below}

-- A tracee has no heap yet, has left the break to the kernel, or has a heap from `start` to `brk`.
pub data Break : Type 0 where
  unmapped kernels : Break
  mapped : ℕ → ℕ → Break

-- What a call for `new_brk` does, and the break that it returns, where the kernel answers `result`.
abbrev pub spec_step : ℕ → Break → ℕ → ℕ → Break × ℕ
spec_step page kernels new_brk result = (kernels, result)
spec_step page unmapped zero result =
    if is_error result
    then (unmapped, 0)
    else (mapped (result + page) (result + page), result + page)
spec_step page unmapped (suc n) result = ((if result == suc n then kernels else unmapped), result)
spec_step page (mapped start brk) new_brk result =
    if leb start new_brk
    then (if result + page == start
        then (mapped start new_brk, new_brk)
        else (mapped start brk, brk))
    else (mapped start brk, brk)

-- What the kernel is taken to answer: a new mapping is not at address 0 and lies in the user half,
-- and so does a region that was resized in place.
abbrev pub IsHonest : ℕ → Break → ℕ → ℕ → Type 0
IsHonest page kernels new_brk result = Unit
IsHonest page unmapped new_brk result =
    is_error result ≡ false → (0 < result) × (result + page ≤ 2 ^ 63)
IsHonest page (mapped start brk) new_brk result = (result + page == start) ≡ true → new_brk ≤ 2 ^ 63

-- The state of the handlers stands for a break.
abbrev pub Refines : ℤ → ℕ → Program → Break → Type 0
Refines sysconf end s kernels = s.heap.disabled ≡ true
Refines sysconf end s unmapped =
    (s.heap.disabled ≡ false)
    × (s.heap.base ≡ 0)
    × (bss_end s.mappings ≡ some end)
    × ((s.page_size ≡ 0) ⊎ (s.page_size ≡ page_size_of sysconf))
Refines sysconf end s (mapped start brk) =
    IsMapped s
    × (s.page_size ≡ page_size_of sysconf)
    × (s.heap.base ≡ start)
    × (s.heap.base + s.heap.size ≡ brk)

abbrev pub After : ℤ → ℕ → Option Program → Break × ℕ → Type 0
After sysconf end none e = ⊥
After sysconf end (some t) e = Refines sysconf end t e.0 × (seen t ≡ e.1)

first_Refines :
    (sysconf : ℤ) (end : ℕ) (s : Program) (new_brk result : ℕ)
    → Refines sysconf end s unmapped
    → new_brk < 2 ^ 64
    → result < 2 ^ 64
    → IsHonest (page_size_of sysconf) unmapped new_brk result
    → After sysconf end
        (brk_call sysconf s new_brk result)
        (spec_step (page_size_of sysconf) unmapped new_brk result)
unfolding brk_call translate_brk_enter translate_brk_exit peek_reg poke_reg get_sysnum set_sysnum
    save_modified
first_Refines sysconf end s zero result r n b h = ground arith
first_Refines sysconf end s (suc new_brk) result r n b h = ground arith

kernels_Refines :
    (sysconf : ℤ) (end : ℕ) (s : Program) (new_brk result : ℕ)
    → s.heap.disabled ≡ true
    → After sysconf end (brk_call sysconf s new_brk result) (kernels, result)
unfolding brk_call translate_brk_enter translate_brk_exit peek_reg save_modified
kernels_Refines sysconf end s new_brk result r = ground arith

-- From what a mapped heap's call gives to what the abstract machine does.
resize_Refines :
    (sysconf : ℤ) (end : ℕ) (s : Program) (o : Option Program) (start brk new_brk result : ℕ)
    → Refines sysconf end s (mapped start brk)
    → start ≤ new_brk
    → (resized s result ≡ true → new_brk ≤ 2 ^ 63)
    → Gives o
        (if resized s result then record (s.heap) { size = new_brk - s.heap.base } else s.heap)
        s.page_size
        (if resized s result then new_brk else s.heap.base + s.heap.size)
    → After sysconf end o (spec_step (page_size_of sysconf) (mapped start brk) new_brk result)
resize_Refines sysconf end s none start brk new_brk result r h f g = absurd g
resize_Refines sysconf end s (some t) start brk new_brk result r h f g = ground arith

keep_Refines :
    (sysconf : ℤ) (end : ℕ) (s : Program) (o : Option Program) (start brk new_brk result : ℕ)
    → Refines sysconf end s (mapped start brk)
    → new_brk < start
    → Gives o s.heap s.page_size (s.heap.base + s.heap.size)
    → After sysconf end o (spec_step (page_size_of sysconf) (mapped start brk) new_brk result)
keep_Refines sysconf end s none start brk new_brk result r h g = absurd g
keep_Refines sysconf end s (some t) start brk new_brk result r h g = ground arith

mapped_Refines :
    (sysconf : ℤ) (end : ℕ) (s : Program) (start brk new_brk result : ℕ)
    → Refines sysconf end s (mapped start brk)
    → new_brk < 2 ^ 64
    → result < 2 ^ 64
    → IsHonest (page_size_of sysconf) (mapped start brk) new_brk result
    → After sysconf end
        (brk_call sysconf s new_brk result)
        (spec_step (page_size_of sysconf) (mapped start brk) new_brk result)
mapped_Refines sysconf end s start brk new_brk result r n b h = elim (dec_lt new_brk start) [
  | yes below ↦
      keep_Refines sysconf end s _ start brk new_brk result r below
        (brk_call_below sysconf s new_brk result r.0 (omega arith))
  | no above ↦
      let f : resized s result ≡ true → new_brk ≤ 2 ^ 63 = λ e. h (rw (← r.1, ← r.2) e) in
      resize_Refines sysconf end s _ start brk new_brk result r (omega arith) f
        (brk_call_resize sysconf s new_brk result r.0 (omega arith) n f b)
]

-- Each call returns, and does to the state what the abstract break does: it stands for the next
-- break, and the tracee sees the value that the abstract machine returns. The kernel is taken to
-- answer mappings in the user half.
pub brk_call-Refines :
    (sysconf : ℤ) (end : ℕ) (s : Program) (b : Break) (new_brk result : ℕ)
    → Refines sysconf end s b
    → new_brk < 2 ^ 64
    → result < 2 ^ 64
    → IsHonest (page_size_of sysconf) b new_brk result
    → After sysconf end
        (brk_call sysconf s new_brk result)
        (spec_step (page_size_of sysconf) b new_brk result)
brk_call-Refines sysconf end s unmapped new_brk result r n b h =
    first_Refines sysconf end s new_brk result r n b h
brk_call-Refines sysconf end s kernels new_brk result r n b h =
    kernels_Refines sysconf end s new_brk result r
brk_call-Refines sysconf end s (mapped start brk) new_brk result r n b h =
    mapped_Refines sysconf end s start brk new_brk result r n b h

-- A history of calls, each with the break asked for and the kernel's answer.
pub run : ℤ → Program → List (ℕ × ℕ) → Option (Program × List ℕ)
run sysconf s [] = some (s, [])
run sysconf s ((new_brk, result) ∷ calls) = elim (brk_call sysconf s new_brk result) [
  | none ↦ none
  | some t ↦ elim (run sysconf t calls) [
    | none ↦ none
    | some (u, breaks) ↦ some (u, seen t ∷ breaks)
  ]
]

unfoldable pub spec_run : ℕ → Break → List (ℕ × ℕ) → Break × List ℕ
spec_run page b [] = (b, [])
spec_run page b ((new_brk, result) ∷ calls) =
    let (b', v) = spec_step page b new_brk result in
    let (c, vs) = spec_run page b' calls in (c, v ∷ vs)

-- Every answer of the history is honest for the break at which it is given.
abbrev pub AreHonest : ℕ → Break → List (ℕ × ℕ) → Type 0
AreHonest page b [] = Unit {0}
AreHonest page b ((new_brk, result) ∷ calls) =
    (new_brk < 2 ^ 64)
    × (result < 2 ^ 64)
    × IsHonest page b new_brk result
    × AreHonest page (spec_step page b new_brk result).0 calls

abbrev pub AfterAll : ℤ → ℕ → Option (Program × List ℕ) → Break × List ℕ → Type 0
AfterAll sysconf end none e = ⊥
AfterAll sysconf end (some (t, breaks)) e = Refines sysconf end t e.0 × (breaks ≡ e.1)

run_cons :
    (sysconf : ℤ) (end : ℕ) (o : Option (Program × List ℕ)) (e : Break × List ℕ) (v w : ℕ)
    → AfterAll sysconf end o e
    → v ≡ w
    → AfterAll sysconf end
        (elim o [ none ↦ none | some (u, breaks) ↦ some (u, v ∷ breaks) ])
        (e.0, w ∷ e.1)
run_cons sysconf end none e v w a q = absurd a
run_cons sysconf end (some (t, breaks)) e v w a q = (a.0, cc)

rest_of_run :
    (sysconf : ℤ) (end : ℕ) (s : Program) (b : Break) (new_brk result : ℕ) (calls : List (ℕ × ℕ))
    (o : Option Program)
    → o ≡ brk_call sysconf s new_brk result
    → After sysconf end o (spec_step (page_size_of sysconf) b new_brk result)
    → ((t : Program)
        → Refines sysconf end t (spec_step (page_size_of sysconf) b new_brk result).0
        → AfterAll sysconf end (run sysconf t calls) (
            spec_run
              (page_size_of sysconf)
              (spec_step (page_size_of sysconf) b new_brk result).0
              calls))
    → AfterAll sysconf end
        (run sysconf s ((new_brk, result) ∷ calls))
        (spec_run (page_size_of sysconf) b ((new_brk, result) ∷ calls))
unfolding run spec_run
rest_of_run sysconf end s b new_brk result calls none q a rest = absurd a
rest_of_run sysconf end s b new_brk result calls (some t) q a rest =
    rw (← q, AfterAll, run)
      (run_cons sysconf end (run sysconf t calls) _ (seen t) _ (rest t a.0) a.1)

-- Over any history of calls with honest answers the handlers never stop, end in a state that
-- stands for the abstract break, and show the tracee at each call the break of the abstract machine.
pub run-Refines :
    (sysconf : ℤ) (end : ℕ) (s : Program) (b : Break) (calls : List (ℕ × ℕ))
    → Refines sysconf end s b
    → AreHonest (page_size_of sysconf) b calls
    → AfterAll sysconf end (run sysconf s calls) (spec_run (page_size_of sysconf) b calls)
unfolding run spec_run
run-Refines sysconf end s b [] r h = (r, refl)
run-Refines sysconf end s b ((new_brk, result) ∷ calls) r h =
    rest_of_run sysconf end s b new_brk result calls _ refl
      (brk_call-Refines sysconf end s b new_brk result r h.0 h.1 h.2)
      (λ t rt. run-Refines sysconf end t _ calls rt h.3)
