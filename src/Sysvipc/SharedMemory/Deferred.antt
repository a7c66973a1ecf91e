-- ===== src/Sysvipc/SharedMemory/Deferred.antt =====
-- The end of a process, and the removal of a segment that was put off until then.
use neoproot.Base.{
  ℕ, zero, suc, ◌≡◌, ◌≢◌, ◌⊎◌, refl, ap, ◌∙◌, sym, true, false, ◌&&◌, List, [], ◌∷◌, Option, none,
  some, arith, ◌==◌, Bool-cases, inl, inr, length, get_elem?, set, ℕ_discrete, get_elem?-set_self,
  get_elem?-set_ne, get_elem?-lt,
}
use mathlib.Core.Path.{subst}
use mathlib.Core.Option.{some-injective}
use neoproot.Base.Int.{ℤ}
use neoproot.Sysvipc.SharedMemory.{
  SharedMem, SharedMemMap, Segments, attached, do_rmid, after_unlink, take_first, free_found,
}
use neoproot.Sysvipc.SharedMemory.Calls.{remove_mappings, remove_mappings_from_process}
use neoproot.Sysvipc.SharedMemory.Sound.{IsSound, closed}
use neoproot.Sysvipc.SharedMemory.Mappings.{remove_mappings-IsSound}
use neoproot.Sysvipc.SharedMemory.Removal.{of_process, others, remove_mappings_from_process-eq}

abbrev pub IsIn : ℤ → List ℤ → Type 0
IsIn fd [] = ⊥
IsIn fd (x ∷ xs) = (fd ≡ x) ⊎ IsIn fd xs

-- The segment is as it was, or it has been closed, and its descriptor given back.
abbrev pub IsClosed : SharedMem → ℕ → Segments → Type 0
IsClosed s idx w =
    (s' : SharedMem) × (get_elem? w.shms idx ≡ some s')
    × (s'.valid ≡ false)
    × (s'.rmid_pending ≡ false)
    × IsIn s.fd w.freed

abbrev Tracked : SharedMem → ℕ → Segments → Type 0
Tracked s idx w = (get_elem? w.shms idx ≡ some s) ⊎ IsClosed s idx w

IsClosed-at :
    (w : Segments) (i : ℕ) (t : SharedMem) (s : SharedMem)
    → get_elem? w.shms i ≡ some t
    → t ≡ s
    → IsClosed s i (do_rmid w i t)
unfolding do_rmid
IsClosed-at w i t s at one =
    let here : get_elem? (set w.shms i (closed t)) i ≡ some (closed t) =
      get_elem?-set_self w.shms i (closed t) (get_elem?-lt w.shms i at) in
    (closed t, here, refl, refl, inl (sym (ap (λ x. x.fd) one)))

do_rmid-elsewhere :
    (w : Segments) (i : ℕ) (t : SharedMem) (idx : ℕ)
    → i ≢ idx
    → get_elem? (do_rmid w i t).shms idx ≡ get_elem? w.shms idx
unfolding do_rmid
do_rmid-elsewhere w i t idx n = get_elem?-set_ne w.shms (closed t) n

do_rmid-given :
    (w : Segments) (i : ℕ) (t : SharedMem) (fd : ℤ)
    → IsIn fd w.freed
    → IsIn fd (do_rmid w i t).freed
unfolding do_rmid
do_rmid-given w i t fd m = inr m

do_rmid-Tracked :
    (w : Segments) (i : ℕ) (t : SharedMem) (s : SharedMem) (idx : ℕ)
    → get_elem? w.shms i ≡ some t
    → t.rmid_pending ≡ true
    → Tracked s idx w
    → Tracked s idx (do_rmid w i t)
do_rmid-Tracked w i t s idx at p k = by_index (ℕ_discrete i idx) k
  where
    same_entry : {u : SharedMem} → i ≡ idx → get_elem? w.shms idx ≡ some u → t ≡ u
    same_entry {u} q e = some-injective t u (sym at ∙ ap (get_elem? w.shms) q ∙ e)

    by_index : Dec (i ≡ idx) → Tracked s idx w → Tracked s idx (do_rmid w i t)
    by_index (no n) (inl e) = inl (do_rmid-elsewhere w i t idx n ∙ e)
    by_index (no n) (inr (s', e, v, r, m)) =
        inr (s', do_rmid-elsewhere w i t idx n ∙ e, v, r, do_rmid-given w i t s.fd m)
    by_index (yes q) (inl e) =
        inr (subst (λ j. IsClosed s j (do_rmid w i t)) q (IsClosed-at w i t s at (same_entry q e)))
    by_index (yes q) (inr (s', e, v, r, m)) =
        let no_more : t.rmid_pending ≡ false = ap (λ x. x.rmid_pending) (same_entry q e) ∙ r in
        absurd (cc)

after_unlink-Tracked :
    (w : Segments) (i : ℕ) (o : Option SharedMem) (s : SharedMem) (idx : ℕ)
    → get_elem? w.shms i ≡ o
    → Tracked s idx w
    → Tracked s idx (after_unlink w i o)
unfolding after_unlink
after_unlink-Tracked w i none s idx e k = k
after_unlink-Tracked w i (some t) s idx e k =
    elim (Bool-cases (t.rmid_pending && attached i w.maps == 0)) [
      | inl b ↦ rw b (do_rmid-Tracked w i t s idx e (ground arith) k)
      | inr b ↦ rw b k
    ]

free_found-Tracked :
    (w : Segments) (o : Option (SharedMemMap × List SharedMemMap)) (s : SharedMem) (idx : ℕ)
    → Tracked s idx w
    → Tracked s idx (free_found w o)
unfolding free_found
free_found-Tracked w none s idx k = k
free_found-Tracked w (some (m, rest)) s idx k =
    after_unlink-Tracked (record w { maps = rest }) m.shm_index (get_elem? w.shms m.shm_index) s idx
      refl k

remove_mappings-Tracked :
    (n : ℕ) (w : Segments) (process : ℕ) (s : SharedMem) (idx : ℕ)
    → Tracked s idx w
    → Tracked s idx (remove_mappings n w process)
unfolding remove_mappings
remove_mappings-Tracked zero w process s idx k = k
remove_mappings-Tracked (suc n) w process s idx k =
    let next = free_found w (take_first (of_process process) w.maps) in
    remove_mappings-Tracked n next process s idx
      (free_found-Tracked w (take_first (of_process process) w.maps) s idx k)

-- A segment whose removal was put off, and that only the process has mapped, is closed when the
-- process execs or ends, and its descriptor given back to the helper.
pub remove_mappings_from_process-IsClosed :
    (w : Segments) (process idx : ℕ) (s : SharedMem)
    → IsSound w
    → get_elem? w.shms idx ≡ some s
    → s.rmid_pending ≡ true
    → attached idx (others process w.maps) ≡ 0
    → IsClosed s idx (remove_mappings_from_process w process)
unfolding remove_mappings_from_process
remove_mappings_from_process-IsClosed w process idx s h at p alone =
    by_end (remove_mappings-Tracked (length w.maps) w process s idx (inl at))
  where
    left : Segments
    left = remove_mappings (length w.maps) w process

    sound : IsSound left
    sound = remove_mappings-IsSound (length w.maps) w process h

    unmapped : attached idx left.maps ≡ 0
    unmapped = ap (attached idx) (remove_mappings_from_process-eq w process) ∙ alone

    by_end : Tracked s idx left → IsClosed s idx left
    by_end (inr c) = c
    by_end (inl e) = absurd (omega (arith, (sound.kept idx s e).awaited p, unmapped))
