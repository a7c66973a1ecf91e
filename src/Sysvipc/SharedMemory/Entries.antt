-- ===== src/Sysvipc/SharedMemory/Entries.antt =====
-- shmget and shmdt keep what holds of the segments.
use neoproot.Base.{
  ℕ, zero, suc, ◌≡◌, ◌≢◌, refl, ap, ◌∙◌, sym, false, List, [], ◌∷◌, ◌++◌, Option, none, some, arith,
  inl, inr, length, get_elem?, length-append, get_elem?-append_last, ℕ_discrete,
}
use mathlib.Core.Path.{subst}
use mathlib.Core.Option.{some-injective}
use neoproot.Sysvipc.State.{Scan, existing, absent, scan, int32}
use neoproot.Sysvipc.State.Ids.{scan-IsScan, IsScan, index_zero}
use neoproot.Sysvipc.SharedMemory.{
  SharedMem, shared_mem_object, SharedMemMap, Segments, Task, attached, take_first, free_found,
}
use neoproot.Sysvipc.SharedMemory.Calls.{
  unallocated, created, put_entry, shmget_alloc, shmget_by, shmget, shmdt_found, is_at, shmdt,
}
use neoproot.Sysvipc.SharedMemory.Counts.{InBounds-more, attached-out}
use neoproot.Sysvipc.SharedMemory.Sound.{Fits, IsSound, set-IsSound, free_found-IsSound}

-- What a scan tells of an unused entry: it is there and not valid.
abbrev IsUnused : List SharedMem → Option ℕ → Type 0
IsUnused shms none = Unit {0}
IsUnused shms (some u) = (s : SharedMem) × (get_elem? shms u ≡ some s) × (s.valid ≡ false)

get_elem?-append :
    (xs : List SharedMem) (v : SharedMem) (j : ℕ) (s : SharedMem)
    → get_elem? (xs ++ v ∷ []) j ≡ some s
    → length xs ≢ j
    → get_elem? xs j ≡ some s
get_elem?-append [] v zero s e n = absurd (n refl)
get_elem?-append [] v (suc j) s e n = cc
get_elem?-append (x ∷ xs) v zero s e n = e
get_elem?-append (x ∷ xs) v (suc j) s e n = get_elem?-append xs v j s e (λ q. n (ap suc q))

-- An entry that is new or reused has no mapping, so any segment without a pending removal fits.
put_entry-IsSound :
    (w : Segments) (unused : Option ℕ) (v : SharedMem)
    → IsSound w
    → IsUnused w.shms unused
    → v.rmid_pending ≡ false
    → IsSound (record w { shms = put_entry w.shms unused v })
put_entry-IsSound w (some u) v h (s, at, dead) r =
    let empty : attached u w.maps ≡ 0 = ((h.kept u s at).dead dead).0 in
    set-IsSound w u v h (record { dead = λ x. (empty, r); awaited = λ x. cc })
put_entry-IsSound w none v h u r = record {
  in_bounds =
      InBounds-more (length w.shms) (length (w.shms ++ v ∷ [])) w.maps
        (omega (arith, length-append w.shms (v ∷ []))) h.in_bounds;
  kept = λ j s e. each j s e (ℕ_discrete (length w.shms) j);
}
  where
    empty : attached (length w.shms) w.maps ≡ 0
    empty = attached-out (length w.shms) w.maps h.in_bounds

    each :
        (j : ℕ) (s : SharedMem)
        → get_elem? (w.shms ++ v ∷ []) j ≡ some s
        → Dec (length w.shms ≡ j)
        → Fits (attached j w.maps) s
    each j s e (no n) = h.kept j s (get_elem?-append w.shms v j s e n)
    each j s e (yes p) =
        let here : get_elem? (w.shms ++ v ∷ []) (length w.shms) ≡ some s =
          subst (λ k. get_elem? (w.shms ++ v ∷ []) k ≡ some s) (sym p) e in
        let same : v ≡ s = some-injective v s (sym (get_elem?-append_last w.shms v) ∙ here) in
        let new : Fits (attached (length w.shms) w.maps) v = record {
          dead = λ x. (empty, r);
          awaited = λ x. cc;
        } in
        subst (λ k. Fits (attached k w.maps) s) p
          (subst (Fits (attached (length w.shms) w.maps)) same new)

scan-IsUnused :
    (key : ℕ) (shms : List SharedMem) (unused : Option ℕ)
    → IsScan key 0 shms none (absent unused)
    → IsUnused shms unused
scan-IsUnused key shms none k = tt
scan-IsUnused key shms (some u) (nk, inl p) = cc
scan-IsUnused key shms (some u) (nk, inr (s, at, v)) = (s, index_zero shms u s at, v)

shmget_alloc-IsSound :
    (w : Segments) (unused : Option ℕ) (key size flg pgid : ℕ) (helper : Option ℕ)
    → IsSound w
    → IsUnused w.shms unused
    → IsSound (shmget_alloc w unused key size flg pgid helper).1
unfolding shmget_alloc
shmget_alloc-IsSound w unused key size flg pgid none h u =
    put_entry-IsSound w unused unallocated h u refl
shmget_alloc-IsSound w unused key size flg pgid (some fd) h u =
    put_entry-IsSound w unused (created (int32 key) size flg pgid fd) h u refl

pub shmget-IsSound :
    (w : Segments) (key size flg pgid : ℕ) (helper : Option ℕ)
    → IsSound w
    → IsSound (shmget w key size flg pgid helper).1
unfolding shmget shmget_by
shmget-IsSound w key size flg pgid helper h =
    by_scan (scan key w.shms 0 none) (scan-IsScan key w.shms 0 none)
  where
    by_scan :
        (r : Scan) → IsScan key 0 w.shms none r → IsSound (shmget_by w key size flg pgid helper r).1
    by_scan (existing idx) k = h
    by_scan (absent unused) k = ground (
      arith,
      h,
      shmget_alloc-IsSound w unused key size flg pgid helper h (scan-IsUnused key w.shms unused k),
    )

pub shmdt-IsSound : (w : Segments) (t : Task) (addr : ℕ) → IsSound w → IsSound (shmdt w t addr).1
unfolding shmdt shmdt_found
shmdt-IsSound w t addr h =
    by_found (take_first (is_at t.process addr) w.maps)
      (free_found-IsSound w (is_at t.process addr) h)
  where
    by_found :
        (o : Option (SharedMemMap × List SharedMemMap))
        → IsSound (free_found w o)
        → IsSound (shmdt_found w t o).1
    by_found none k = h
    by_found (some (m, ms)) k = k
