-- ===== src/Heap/Tests.antt =====
-- Witnesses and runs at concrete inputs.
use neoproot.Base.{ℕ, ◌≡◌, refl, false, List, [], ◌∷◌, arith, inl}
use neoproot.Base.Int.{pos}
use neoproot.Tracee.Regs.{UserRegs, Regs}
use neoproot.Heap.{Heap, Program, bss_end}
use neoproot.Heap.Calls.{IsMapped}
use neoproot.Heap.Refine.{unmapped, AfterAll, run, spec_run, run-Refines}

abbrev idle_regs : UserRegs
idle_regs = record {
  num = 214;
  x0 = 0;
  x1 = 0;
  x2 = 0;
  x3 = 0;
  x4 = 0;
  x5 = 0;
  sp = 0x7000_0000;
  pc = 0x40_0000;
}

abbrev regs : Regs
regs = record {
  current = idle_regs;
  original = idle_regs;
  modified = idle_regs;
  were_changed = false;
}

abbrev fresh : Program
fresh = record {
  heap = record { base = 0; size = 0; disabled = false };
  page_size = 0;
  mappings = record { addr = 0x40_0000; length = 0x3000 } ∷ [];
  regs = regs;
}

abbrev grown : Program
grown = record {
  heap = record { base = 0x50_1000; size = 0x2000; disabled = false };
  page_size = 0x1000;
  mappings = record { addr = 0x40_0000; length = 0x3000 } ∷ [];
  regs = regs;
}

abbrev grown_heap : Heap
grown_heap = record { base = 0x50_1000; size = 0x2000; disabled = false }

grown-IsMapped : IsMapped grown
grown-IsMapped = record {
  enabled = refl;
  has_page = omega arith;
  guarded = omega arith;
  in_range = omega arith;
}

-- Map, query, grow, a refused growth, shrink.
abbrev history : List (ℕ × ℕ)
history =
    (0, 0x50_0000)
    ∷ (0, 1)
    ∷ (0x50_4000, 0x50_0000)
    ∷ (0x60_0000, 0xffff_ffff_ffff_fff4)
    ∷ (0x50_2000, 0x50_0000)
    ∷ []

run-Refines_example :
    AfterAll
      (pos 0x1000)
      0x40_3000
      (run (pos 0x1000) fresh history)
      (spec_run 0x1000 unmapped history)
unfolding bss_end
run-Refines_example =
    run-Refines (pos 0x1000) 0x40_3000 fresh unmapped history (refl, refl, refl, inl refl)
      (omega arith)

history_breaks :
    (spec_run 0x1000 unmapped history).1
    ≡ 0x50_1000 ∷ 0x50_1000 ∷ 0x50_4000 ∷ 0x50_4000 ∷ 0x50_2000 ∷ []
unfolding spec_run
history_breaks = refl
