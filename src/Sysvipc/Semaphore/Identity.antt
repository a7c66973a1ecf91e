-- ===== src/Sysvipc/Semaphore/Identity.antt =====
-- Which set an id stands for: from `semget` to the lookup, and over a removal.
use mathlib.Core.Path.{subst}
use mathlib.Core.Option.{some-injective}
use neoproot.Base.{
  All-get, ℕ, ◌+◌, ◌^◌, ◌%◌, ◌≤◌, ◌<◌, ◌≡◌, refl, true, false, List, [], ◌∷◌, ◌++◌, Option, none,
  some, arith, length, length-set, get_elem?, set, inl, inr, get_elem?-set_self, get_elem?-lt,
  get_elem?-append_last,
}
use neoproot.Base.Int.{pos}
use neoproot.Sysvipc.State.{
  lookup_object, object_id, int_of, scan, Scan, existing, absent, int32, has, ipc_creat,
}
use neoproot.Sysvipc.State.Ids.{
  lookup_object-eq-some, lookup_object-set, lookup_object-object_id, object_id-zero, IsScan,
  scan-IsScan, index_zero,
}
use neoproot.Sysvipc.Semaphore.{Semaphore, semaphore_object, max_nsems}
use neoproot.Sysvipc.Semaphore.Calls.{
  World, blank, id_at, semget, semget_by, semget_existing, semget_new, rmid,
}
use neoproot.Sysvipc.Semaphore.Fit.{IsSemSet, IsFit, IsWell}

-- The id leads to a valid set that has the key and at least as many values as were asked for.
abbrev pub LeadsTo : List Semaphore → ℕ → ℕ → ℕ → Type 0
LeadsTo sets id key nsems =
    (idx : ℕ) × (s : Semaphore) × (lookup_object sets id ≡ some (idx, s))
    × (s.key ≡ key)
    × (nsems ≤ s.nsems)

-- A valid set of generation 0 below index 512 is reached by its index plus one, which is the id
-- that the calls return for it.
reach :
    (sets : List Semaphore) (idx : ℕ) (s : Semaphore)
    → get_elem? sets idx ≡ some s
    → s.valid ≡ true
    → s.generation ≡ 0
    → idx < 512
    → (lookup_object sets (idx + 1) ≡ some (idx, s))
      × (int_of (object_id idx s.generation) ≡ pos (idx + 1))
reach sets idx s e v g h = (
  subst (λ i. lookup_object sets i ≡ some (idx, s)) (object_id-zero idx)
      (lookup_object-object_id sets idx s e v g (omega arith)),
  rw (g, object_id-zero idx) (ground arith),
)

existing_leads :
    (w : World) (idx key nsems flg id : ℕ) (s : Semaphore)
    → IsWell w
    → get_elem? w.semaphores idx ≡ some s
    → s.valid ≡ true
    → s.key ≡ key
    → semget_existing w idx nsems flg ≡ pos id
    → LeadsTo w.semaphores id key nsems
unfolding semget_existing
existing_leads w idx key nsems flg id s h e v k r =
    let fit : IsFit s = All-get IsSemSet w.semaphores idx s h.all_sets e v in
    let small : idx < 512 = omega (arith, get_elem?-lt w.semaphores idx e, h.few_sets) in
    let q = reach w.semaphores idx s e v fit.first_generation small in
    let same : (idx + 1 ≡ id) × (nsems ≤ s.nsems) = ground (arith, q.1) in
    (idx, s, subst (λ i. lookup_object w.semaphores i ≡ some (idx, s)) same.0 q.0, k, same.1)

-- An entry that holds a new set.
new_leads :
    (sets : List Semaphore) (idx key nsems id : ℕ)
    → get_elem? sets idx ≡ some (blank key nsems)
    → idx < 512
    → id_at sets idx ≡ pos id
    → LeadsTo sets id key nsems
new_leads sets idx key nsems id e small r =
    let q = reach sets idx (blank key nsems) e refl refl small in
    let same : idx + 1 ≡ id = ground (arith, q.1) in
    (
      idx,
      blank key nsems,
      subst (λ i. lookup_object sets i ≡ some (idx, blank key nsems)) same q.0,
      refl,
      omega arith,
    )

new_set_leads :
    (w : World) (unused : Option ℕ) (key nsems flg id : ℕ)
    → IsWell w
    → ((u : ℕ) → unused ≡ some u → u < length w.semaphores)
    → (semget_new w unused key nsems flg).0 ≡ pos id
    → LeadsTo (semget_new w unused key nsems flg).1.semaphores id (int32 key) nsems
unfolding semget_new
new_set_leads w none key nsems flg id h k r = ground (
  arith,
  new_leads (w.semaphores ++ blank (int32 key) nsems ∷ []) (length w.semaphores) (int32 key) nsems
      id (get_elem?-append_last w.semaphores (blank (int32 key) nsems)),
)
new_set_leads w (some u) key nsems flg id h k r = ground (
  arith,
  h.few_sets,
  k u refl,
  new_leads (set w.semaphores u (blank (int32 key) nsems)) u (int32 key) nsems id
      (get_elem?-set_self w.semaphores u (blank (int32 key) nsems) (k u refl)),
)

by_scan_leads :
    (w : World) (key nsems flg id : ℕ) (r : Scan)
    → IsWell w
    → IsScan key 0 w.semaphores none r
    → (semget_by w key nsems flg r).0 ≡ pos id
    → LeadsTo (semget_by w key nsems flg r).1.semaphores id (int32 key) nsems
unfolding semget_by
by_scan_leads w key nsems flg id (existing idx) h (s, at, v, k, nz) e =
    existing_leads w idx (int32 key) nsems flg id s h (index_zero w.semaphores idx s at) v k e
by_scan_leads w key nsems flg id (absent none) h k e =
    new_set_leads w none key nsems flg id h (λ u p. cc) e
by_scan_leads w key nsems flg id (absent (some u)) h (nk, inl p) e = cc
by_scan_leads w key nsems flg id (absent (some u)) h (nk, inr (s, at, v)) e =
    new_set_leads w (some u) key nsems flg id h
      (λ x p.
        subst (λ y. y < length w.semaphores) (some-injective u x p)
          (get_elem?-lt w.semaphores u (index_zero w.semaphores u s at)))
      e

-- An id that `semget` returns leads, in the state after the call, to a valid set with the key asked
-- for and at least as many values.
pub semget-LeadsTo :
    (w : World) (key nsems flg id : ℕ)
    → IsWell w
    → (semget w key nsems flg).0 ≡ pos id
    → LeadsTo (semget w key nsems flg).1.semaphores id (int32 key) (int32 nsems)
unfolding semget
semget-LeadsTo w key nsems flg id h e = ground (
  arith,
  by_scan_leads w key (int32 nsems) (int32 flg) id (scan key w.semaphores 0 none) h
      (scan-IsScan key w.semaphores 0 none),
)

rmid_lookup :
    (w : World) (idx id : ℕ) (sem : Semaphore)
    → lookup_object w.semaphores id ≡ some (idx, sem)
    → lookup_object (rmid w idx sem).semaphores id ≡ none
unfolding rmid
rmid_lookup w idx id sem e =
    let found = lookup_object-eq-some w.semaphores id idx sem e in
    let removed : Semaphore = record sem {
      valid = false;
      generation = (sem.generation + 1) % 2 ^ 16;
      sems = [];
    } in
    lookup_object-set w.semaphores id idx removed (get_elem?-lt w.semaphores idx found.0) found.3

length-rmid :
    (w : World) (idx : ℕ) (sem : Semaphore)
    → length (rmid w idx sem).semaphores ≡ length w.semaphores
unfolding rmid
length-rmid w idx sem = length-set w.semaphores idx _

-- IPC_RMID moves a set to generation 1, so its id is refused; but `semget` clears the generation of
-- the entry that it takes. So if the entry of a removed set is the first unused one for a key that
-- no set has, a call that creates a set for the key returns, and the old id then leads to the new
-- set.
pub semget_revives_id :
    (w : World) (idx id key nsems flg : ℕ) (sem : Semaphore)
    → IsWell w
    → lookup_object w.semaphores id ≡ some (idx, sem)
    → scan key (rmid w idx sem).semaphores 0 none ≡ absent (some idx)
    → 0 < int32 nsems
    → int32 nsems ≤ max_nsems
    → has (int32 flg) ipc_creat ≡ true
    → (lookup_object (rmid w idx sem).semaphores id ≡ none)
      × (lookup_object (semget (rmid w idx sem) key nsems flg).1.semaphores id
          ≡ some (idx, blank (int32 key) (int32 nsems)))
unfolding semget semget_by semget_new
semget_revives_id w idx id key nsems flg sem h e s a b c =
    let new : Semaphore = blank (int32 key) (int32 nsems) in
    let sets = (rmid w idx sem).semaphores in
    let found = lookup_object-eq-some w.semaphores id idx sem e in
    let fit = All-get IsSemSet w.semaphores idx sem h.all_sets found.0 found.1 in
    let size = length-rmid w idx sem in
    (
      rmid_lookup w idx id sem e,
      rw s (
          ground (
            arith,
            fit.first_generation,
            found.2,
            get_elem?-lt w.semaphores idx found.0,
            lookup_object-set sets id idx new
                (omega (arith, size, get_elem?-lt w.semaphores idx found.0)) found.3,
          )),
    )
