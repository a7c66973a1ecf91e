-- ===== src/Sysvipc/SharedMemory/Sound.antt =====
-- What holds of the segments and their mappings, and that freeing a mapping keeps it.
use neoproot.Base.{
  ℕ, suc, ◌+◌, ◌%◌, ◌^◌, ◌<◌, ◌≡◌, ◌≢◌, refl, ap, ◌∙◌, sym, Bool, true, false, ◌&&◌, List, Option,
  none, some, arith, ◌==◌, if◌then◌else◌, Bool-cases, inl, inr, length, get_elem?, set, length-set,
  get_elem?-set_self, get_elem?-set_ne, get_elem?-lt, get_elem?-some, ℕ_discrete,
}
use mathlib.Core.Path.{subst}
use mathlib.Core.Option.{some-injective}
use neoproot.Base.Int.{negsuc}
use neoproot.Sysvipc.SharedMemory.{
  SharedMem, SharedMemMap, Segments, attached, do_rmid, after_unlink, take_first, free_found,
}
use neoproot.Sysvipc.SharedMemory.Counts.{InBounds, IsTaken, take_first-IsTaken}

-- A segment and the number of its mappings: an entry that is not valid has none and awaits no
-- removal, and one that awaits its removal has some.
pub record Fits (n : ℕ) (s : SharedMem) : Type 0 where
  pub dead : s.valid ≡ false → (n ≡ 0) × (s.rmid_pending ≡ false)
  pub awaited : s.rmid_pending ≡ true → 0 < n

pub record IsSound (w : Segments) : Type 0 where
  pub in_bounds : InBounds (length w.shms) w.maps
  pub kept :
      (idx : ℕ) (s : SharedMem) → get_elem? w.shms idx ≡ some s → Fits (attached idx w.maps) s

pub Fits-set :
    (shms : List SharedMem) (ms : List SharedMemMap) (i : ℕ) (v : SharedMem)
    → ((j : ℕ) (s : SharedMem) → i ≢ j → get_elem? shms j ≡ some s → Fits (attached j ms) s)
    → Fits (attached i ms) v
    → (j : ℕ) (s : SharedMem) → get_elem? (set shms i v) j ≡ some s
    → Fits (attached j ms) s
Fits-set shms ms i v others new j s e = elim (ℕ_discrete i j) [
  | yes p ↦
      (let at : get_elem? (set shms i v) i ≡ some s =
          subst (λ k. get_elem? (set shms i v) k ≡ some s) (sym p) e in
        let inside : i < length shms =
          omega (arith, get_elem?-lt (set shms i v) i at, length-set shms i v) in
        let same : v ≡ s = some-injective v s (sym (get_elem?-set_self shms i v inside) ∙ at) in
        subst (λ k. Fits (attached k ms) s) p (subst (Fits (attached i ms)) same new))
  | no n ↦ others j s n (sym (get_elem?-set_ne shms v n) ∙ e)
]

-- A closed segment fits without mappings.
closed-Fits : (s : SharedMem) → s.valid ≡ false → s.rmid_pending ≡ false → Fits 0 s
closed-Fits s v r = record { dead = λ h. (refl, r); awaited = λ h. cc }

abbrev pub closed : SharedMem → SharedMem
closed s = record s {
  valid = false;
  rmid_pending = false;
  generation = (s.generation + 1) % 2 ^ 16;
  fd = negsuc 0;
}

pub do_rmid-IsSound :
    (w : Segments) (idx : ℕ) (s : SharedMem)
    → InBounds (length w.shms) w.maps
    → ((j : ℕ) (t : SharedMem) → idx ≢ j → get_elem? w.shms j ≡ some t → Fits (attached j w.maps) t)
    → attached idx w.maps ≡ 0
    → IsSound (do_rmid w idx s)
unfolding do_rmid
do_rmid-IsSound w idx s bound others none_left = record {
  in_bounds = rw (length-set w.shms idx) bound;
  kept =
      Fits-set w.shms w.maps idx (closed s) others
        (subst (λ n. Fits n (closed s)) (sym none_left) (closed-Fits (closed s) refl refl));
}

pub set-IsSound :
    (w : Segments) (idx : ℕ) (s : SharedMem)
    → IsSound w
    → Fits (attached idx w.maps) s
    → IsSound (record w { shms = set w.shms idx s })
set-IsSound w idx s h k = record {
  in_bounds = rw (length-set w.shms idx) h.in_bounds;
  kept = Fits-set w.shms w.maps idx s (λ j t n e. h.kept j t e) k;
}

-- A mapping is gone from the lists, and its segment is looked at.
after_unlink-IsSound :
    (w : Segments) (idx : ℕ) (s : SharedMem)
    → get_elem? w.shms idx ≡ some s
    → InBounds (length w.shms) w.maps
    → ((j : ℕ) (t : SharedMem) → idx ≢ j → get_elem? w.shms j ≡ some t → Fits (attached j w.maps) t)
    → Fits (suc (attached idx w.maps)) s
    → IsSound (after_unlink w idx (some s))
unfolding after_unlink
after_unlink-IsSound w idx s e bound others mine =
    elim (Bool-cases (s.rmid_pending && attached idx w.maps == 0)) [
      | inl b ↦ rw b (do_rmid-IsSound w idx s bound others (ground arith))
      | inr b ↦ rw b (record { in_bounds = bound; kept = λ j t q. each b j t q (ℕ_discrete idx j) })
    ]
  where
    here : (s.rmid_pending && attached idx w.maps == 0) ≡ false → Fits (attached idx w.maps) s
    here b = record {
      dead = λ v. absurd (omega (arith, (mine.dead v).0));
      awaited = λ r. ground arith;
    }

    each :
        (s.rmid_pending && attached idx w.maps == 0) ≡ false
        → (j : ℕ) (t : SharedMem) → get_elem? w.shms j ≡ some t
        → Dec (idx ≡ j)
        → Fits (attached j w.maps) t
    each b j t q (no n) = others j t n q
    each b j t q (yes p) =
        let same : s ≡ t = some-injective s t (sym e ∙ ap (get_elem? w.shms) p ∙ q) in
        subst (λ k. Fits (attached k w.maps) t) p (subst (Fits (attached idx w.maps)) same (here b))

freed-IsSound :
    (w : Segments) (m : SharedMemMap) (rest : List SharedMemMap) (o : Option SharedMem)
    → get_elem? w.shms m.shm_index ≡ o
    → m.shm_index < length w.shms
    → IsSound w
    → ((idx : ℕ) → attached idx w.maps ≡ (if m.shm_index == idx then 1 else 0) + attached idx rest)
    → InBounds (length w.shms) rest
    → IsSound (after_unlink (record w { maps = rest }) m.shm_index o)
freed-IsSound w m rest none e inside h count bound =
    absurd (get_elem?-some w.shms m.shm_index inside e)
freed-IsSound w m rest (some s) e inside h count bound =
    let others : (j : ℕ) (t : SharedMem)
        → m.shm_index ≢ j
        → get_elem? w.shms j ≡ some t
        → Fits (attached j rest) t =
      λ j t n q. subst (λ k. Fits k t) (ground (arith, count j)) (h.kept j t q) in
    let mine : Fits (suc (attached m.shm_index rest)) s =
      subst (λ k. Fits k s) (ground (arith, count m.shm_index)) (h.kept m.shm_index s e) in
    after_unlink-IsSound (record w { maps = rest }) m.shm_index s e bound others mine

pub free_found-IsSound :
    (w : Segments) (p : SharedMemMap → Bool)
    → IsSound w
    → IsSound (free_found w (take_first p w.maps))
unfolding free_found
free_found-IsSound w p h = by_found (take_first p w.maps) (take_first-IsTaken p w.maps)
  where
    by_found :
        (o : Option (SharedMemMap × List SharedMemMap))
        → IsTaken p w.maps o
        → IsSound (free_found w o)
    by_found none t = h
    by_found (some (m, rest)) (e, count, bound) =
        let b = bound (length w.shms) h.in_bounds in
        freed-IsSound w m rest (get_elem? w.shms m.shm_index) refl b.0 h count b.1
