-- ===== src/Sysvipc/SharedMemory/Mappings.antt =====
-- shmctl, shmat, a fork and an exit keep what holds of the segments.
use neoproot.Base.{
  ℕ, zero, suc, ◌+◌, ◌<◌, ◌≡◌, refl, ap, ◌∙◌, sym, Bool, true, List, Option, none, some, arith,
  ◌==◌, Bool-cases, inl, inr, length, get_elem?, get_elem?-lt, if◌then◌else◌,
}
use mathlib.Core.Path.{subst}
use mathlib.Core.Option.{some-injective}
use neoproot.Base.Int.{ℤ}
use neoproot.Sysvipc.State.{lookup_object, int32}
use neoproot.Sysvipc.State.Ids.{lookup_object-eq-some}
use neoproot.Sysvipc.SharedMemory.{
  Stats, SharedMem, shared_mem_object, SharedMemMap, Segments, Task, World, attached, take_first,
  free_found,
}
use neoproot.Sysvipc.SharedMemory.Calls.{
  rmid, counted, shmctl_on, shmctl, inherited, inherit_process, remove_mappings,
}
use neoproot.Sysvipc.SharedMemory.Attach.{shmat_on, shmat}
use neoproot.Sysvipc.SharedMemory.Steps.{finish_map}
use neoproot.Sysvipc.SharedMemory.Counts.{
  InBounds, attached-inherited, attached-inherited_zero, InBounds-inherited, attached-finish_map,
  InBounds-finish_map,
}
use neoproot.Sysvipc.SharedMemory.Sound.{
  Fits, IsSound, set-IsSound, do_rmid-IsSound, free_found-IsSound,
}

rmid-IsSound :
    (w : Segments) (idx : ℕ) (s : SharedMem)
    → get_elem? w.shms idx ≡ some s
    → s.valid ≡ true
    → IsSound w
    → IsSound (rmid w idx s)
unfolding rmid
rmid-IsSound w idx s e v h = elim (Bool-cases (attached idx w.maps == 0)) [
  | inl b ↦ rw b (do_rmid-IsSound w idx s h.in_bounds (λ j t n q. h.kept j t q) (ground arith))
  | inr b ↦ rw b (
      set-IsSound w idx (record s { rmid_pending = true }) h
        (record { dead = λ x. cc; awaited = λ x. ground arith }))
]

shmctl_on-IsSound :
    (write : ℕ → Stats → ℤ) (w : Segments) (cmd buf : ℕ) (o : Option (ℕ × SharedMem))
    → ((idx : ℕ) (s : SharedMem)
        → o ≡ some (idx, s)
        → (get_elem? w.shms idx ≡ some s) × (s.valid ≡ true))
    → IsSound w
    → IsSound (shmctl_on write w cmd buf o).1
unfolding shmctl_on
shmctl_on-IsSound write w cmd buf none found h = h
shmctl_on-IsSound write w cmd buf (some (idx, s)) found h =
    let f = found idx s refl in
    let fits = h.kept idx s f.0 in
    ground (
      arith,
      h,
      rmid-IsSound w idx s f.0 f.1 h,
      set-IsSound w idx (counted w idx s) h (record { dead = fits.dead; awaited = fits.awaited }),
    )

pub shmctl-IsSound :
    (write : ℕ → Stats → ℤ) (w : Segments) (id cmd buf : ℕ)
    → IsSound w
    → IsSound (shmctl write w id cmd buf).1
unfolding shmctl
shmctl-IsSound write w id cmd buf h =
    shmctl_on-IsSound write w (int32 cmd) buf (lookup_object w.shms id)
      (λ idx s e. let k = lookup_object-eq-some w.shms id idx s e in (k.0, k.1)) h

-- The mappings change so that every segment keeps some if it had some, and none if it had none.
maps-IsSound :
    (w : Segments) (ms : List SharedMemMap)
    → IsSound w
    → InBounds (length w.shms) ms
    → ((idx : ℕ) → attached idx w.maps ≡ 0 → attached idx ms ≡ 0)
    → ((idx : ℕ) → 0 < attached idx w.maps → 0 < attached idx ms)
    → IsSound (record w { maps = ms })
maps-IsSound w ms h bound none_new none_lost = record {
  in_bounds = bound;
  kept = λ idx s e. record {
    dead = λ v. (none_new idx ((h.kept idx s e).dead v).0, ((h.kept idx s e).dead v).1);
    awaited = λ r. none_lost idx ((h.kept idx s e).awaited r);
  };
}

pub inherit_process-IsSound :
    (w : Segments) (parent child : ℕ) → IsSound w → IsSound (inherit_process w parent child)
unfolding inherit_process
inherit_process-IsSound w parent child h =
    maps-IsSound w (inherited parent child w.maps) h
      (InBounds-inherited (length w.shms) parent child w.maps h.in_bounds)
      (λ idx e. attached-inherited_zero idx parent child w.maps e)
      (λ idx e. omega (arith, attached-inherited idx parent child w.maps))

pub remove_mappings-IsSound :
    (n : ℕ) (w : Segments) (process : ℕ) → IsSound w → IsSound (remove_mappings n w process)
unfolding remove_mappings
remove_mappings-IsSound zero w process h = h
remove_mappings-IsSound (suc n) w process h =
    remove_mappings-IsSound n (free_found w (take_first (λ m. m.process == process) w.maps)) process
      (free_found-IsSound w (λ m. m.process == process) h)

one_more-Fits :
    (w : Segments) (idx j : ℕ) (s r : SharedMem)
    → IsSound w
    → get_elem? w.shms idx ≡ some s
    → s.valid ≡ true
    → get_elem? w.shms j ≡ some r
    → Fits ((if idx == j then 1 else 0) + attached j w.maps) r
one_more-Fits w idx j s r h at v e = elim (Bool-cases (idx == j)) [
  | inr n ↦ rw n (
      let zero_more : attached j w.maps ≡ 0 + attached j w.maps = omega arith in
      subst (λ k. Fits k r) zero_more (h.kept j r e))
  | inl p ↦
      (let same : idx ≡ j = ground arith in
        let one : s ≡ r = some-injective s r (sym at ∙ ap (get_elem? w.shms) same ∙ e) in
        let alive : r.valid ≡ true = ap (λ x. x.valid) (sym one) ∙ v in
        rw p (record { dead = λ d. cc; awaited = λ a. omega arith }))
]

-- A mapping of a valid segment is added.
shmat_on-IsSound :
    (w : World) (t : Task) (o : Option (ℕ × SharedMem))
    → ((idx : ℕ) (s : SharedMem)
        → o ≡ some (idx, s)
        → (get_elem? w.segments.shms idx ≡ some s) × (s.valid ≡ true))
    → IsSound w.segments
    → IsSound (shmat_on w t o).1.segments
unfolding shmat_on
shmat_on-IsSound w t none found h = h
shmat_on-IsSound w t (some (idx, s)) found h =
    let f = found idx s refl in
    record {
      in_bounds = (get_elem?-lt w.segments.shms idx f.0, h.in_bounds);
      kept = λ j r e. one_more-Fits w.segments idx j s r h f.0 f.1 e;
    }

pub shmat-IsSound :
    (w : World) (t : Task) (id : ℕ) → IsSound w.segments → IsSound (shmat w t id).1.segments
unfolding shmat
shmat-IsSound w t id h =
    shmat_on-IsSound w t (lookup_object w.segments.shms id)
      (λ idx s e. let k = lookup_object-eq-some w.segments.shms id idx s e in (k.0, k.1)) h

pub finish_map-IsSound :
    (w : Segments) (p : SharedMemMap → Bool) (addr size : ℕ)
    → IsSound w
    → IsSound (record w { maps = finish_map p addr size w.maps })
finish_map-IsSound w p addr size h =
    maps-IsSound w (finish_map p addr size w.maps) h
      (InBounds-finish_map p addr size (length w.shms) w.maps h.in_bounds)
      (λ idx e. attached-finish_map p addr size idx w.maps ∙ e)
      (λ idx e. omega (arith, attached-finish_map p addr size idx w.maps))
