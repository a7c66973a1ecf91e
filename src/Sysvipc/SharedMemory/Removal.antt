-- ===== src/Sysvipc/SharedMemory/Removal.antt =====
-- src/extension/sysvipc/sysvipc_shm.c: the mappings that are left when a process execs or ends.
use neoproot.Base.{
  ℕ, zero, suc, ◌+◌, ◌≤◌, ◌≡◌, refl, ap, ◌∙◌, sym, Bool, true, false, List, [], ◌∷◌, Option, none,
  some, arith, ◌==◌, Bool-cases, inl, inr, length, get_elem?, if◌then◌else◌,
}
use neoproot.Sysvipc.SharedMemory.{
  SharedMem, SharedMemMap, Segments, do_rmid, after_unlink, take_first, skip, free_found,
}
use neoproot.Sysvipc.SharedMemory.Calls.{remove_mappings, remove_mappings_from_process}

abbrev pub of_process : ℕ → SharedMemMap → Bool
of_process process m = m.process == process

abbrev owned : ℕ → List SharedMemMap → ℕ
owned process [] = 0
owned process (m ∷ ms) = (if of_process process m then 1 else 0) + owned process ms

-- The mappings of the other processes, in their order.
abbrev pub others : ℕ → List SharedMemMap → List SharedMemMap
others process [] = []
others process (m ∷ ms) = if of_process process m then others process ms else m ∷ others process ms

owned-le : (process : ℕ) (ms : List SharedMemMap) → owned process ms ≤ length ms
owned-le process [] = omega arith
owned-le process (m ∷ ms) = ground (arith, owned-le process ms)

others-eq : (process : ℕ) (ms : List SharedMemMap) → owned process ms ≡ 0 → others process ms ≡ ms
others-eq process [] h = refl
others-eq process (m ∷ ms) h = ground (arith, others-eq process ms)

-- A search takes one mapping of the process, or there is none.
abbrev IsOne : ℕ → List SharedMemMap → Option (SharedMemMap × List SharedMemMap) → Type 0
IsOne process ms none = owned process ms ≡ 0
IsOne process ms (some (m, rest)) =
    (owned process ms ≡ suc (owned process rest)) × (others process ms ≡ others process rest)

skip-IsOne :
    (process : ℕ) (m : SharedMemMap) (ms : List SharedMemMap)
    (o : Option (SharedMemMap × List SharedMemMap))
    → of_process process m ≡ false
    → IsOne process ms o
    → IsOne process (m ∷ ms) (skip m o)
skip-IsOne process m ms none n h = ground arith
skip-IsOne process m ms (some (f, rest)) n h = rw n ((omega (arith, h.0), ap (λ l. m ∷ l) h.1))

here-IsOne :
    (process : ℕ) (m : SharedMemMap) (ms : List SharedMemMap)
    → of_process process m ≡ true
    → IsOne process (m ∷ ms) (some (m, ms))
here-IsOne process m ms e = rw e (omega arith, refl)

take_first-IsOne :
    (process : ℕ) (ms : List SharedMemMap) → IsOne process ms (take_first (of_process process) ms)
take_first-IsOne process [] = refl
take_first-IsOne process (m ∷ ms) = elim (Bool-cases (of_process process m)) [
  | inl e ↦ rw e (here-IsOne process m ms e)
  | inr n ↦
      rw n (
        skip-IsOne process m ms (take_first (of_process process) ms) n
          (take_first-IsOne process ms))
]

after_unlink-maps :
    (w : Segments) (idx : ℕ) (o : Option SharedMem) → (after_unlink w idx o).maps ≡ w.maps
unfolding after_unlink do_rmid
after_unlink-maps w idx none = refl
after_unlink-maps w idx (some s) = ground arith

free_found-maps :
    (w : Segments) (process : ℕ) (o : Option (SharedMemMap × List SharedMemMap)) (n : ℕ)
    → IsOne process w.maps o
    → owned process w.maps ≤ suc n
    → (owned process (free_found w o).maps ≤ n)
      × (others process (free_found w o).maps ≡ others process w.maps)
unfolding free_found
free_found-maps w process none n h b = (omega (arith, h), refl)
free_found-maps w process (some (m, rest)) n h b =
    let e =
      after_unlink-maps (record w { maps = rest }) m.shm_index (get_elem? w.shms m.shm_index) in
    rw e (omega (arith, h.0), sym h.1)

remove_mappings-maps :
    (n : ℕ) (w : Segments) (process : ℕ)
    → owned process w.maps ≤ n
    → (remove_mappings n w process).maps ≡ others process w.maps
unfolding remove_mappings
remove_mappings-maps zero w process b = sym (others-eq process w.maps (omega arith))
remove_mappings-maps (suc n) w process b =
    let k =
      free_found-maps w process (take_first (of_process process) w.maps) n
        (take_first-IsOne process w.maps) b in
    remove_mappings-maps n (free_found w (take_first (of_process process) w.maps)) process k.0 ∙ k.1

-- When a process execs or ends, the mappings that are left are those of the other processes, in
-- their order: every mapping of the process has been freed.
pub remove_mappings_from_process-eq :
    (w : Segments) (process : ℕ)
    → (remove_mappings_from_process w process).maps ≡ others process w.maps
unfolding remove_mappings_from_process
remove_mappings_from_process-eq w process =
    remove_mappings-maps (length w.maps) w process (owned-le process w.maps)
