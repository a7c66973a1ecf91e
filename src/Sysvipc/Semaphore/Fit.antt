-- ===== src/Sysvipc/Semaphore/Fit.antt =====
-- What holds of every semaphore set, and that a check and `semget` keep it.
use neoproot.Base.{
  ℕ, zero, suc, ◌≤◌, ◌<◌, ◌≡◌, refl, true, false, List, [], ◌∷◌, Option, none, some, arith, All,
  All-set, All-append, length, length-set, length-append, length-replicate, replicate, inl, inr,
  Bool-cases,
}
use neoproot.Sysvipc.State.{Sembuf, scan, Scan, existing, absent, int32}
use neoproot.Sysvipc.Semaphore.{
  Semaphore, semaphore_object, Check, done, would_wait, fails, sem_check, commit, max_semval,
  max_nsems, max_sems,
}
use neoproot.Sysvipc.Semaphore.Calls.{World, blank, semget, semget_new, semget_by}
use neoproot.Sysvipc.Semaphore.Ops.{AllLe, OnDone, IsResult, check_ops-IsResult}

-- A valid set has its values, up to 512, none above the limit, and its generation is 0.
pub record IsFit (s : Semaphore) : Type 0 where
  pub first_generation : s.generation ≡ 0
  pub has_sems : 0 < s.nsems
  pub few_sems : s.nsems ≤ max_nsems
  pub sized : length s.sems ≡ s.nsems
  pub bounded : AllLe max_semval s.sems

abbrev pub IsSemSet : Semaphore → Type 0
IsSemSet s = s.valid ≡ true → IsFit s

pub record IsWell (w : World) : Type 0 where
  pub all_sets : All IsSemSet w.semaphores
  pub few_sets : length w.semaphores ≤ max_sems

AllLe-replicate : (n : ℕ) → AllLe max_semval (replicate n 0)
AllLe-replicate zero = tt
AllLe-replicate (suc n) = (omega arith, AllLe-replicate n)

blank-IsSemSet : (key nsems : ℕ) → 0 < nsems → nsems ≤ max_nsems → IsSemSet (blank key nsems)
blank-IsSemSet key nsems h k v = record {
  first_generation = refl;
  has_sems = h;
  few_sems = k;
  sized = length-replicate nsems 0;
  bounded = AllLe-replicate nsems;
}

semget_new-IsWell :
    (w : World) (unused : Option ℕ) (key nsems flg : ℕ)
    → IsWell w
    → 0 < nsems
    → nsems ≤ max_nsems
    → IsWell (semget_new w unused key nsems flg).1
unfolding semget_new
semget_new-IsWell w none key nsems flg h a b =
    let more =
      All-append IsSemSet w.semaphores (blank (int32 key) nsems ∷ []) h.all_sets
        (blank-IsSemSet (int32 key) nsems a b, tt) in
    ground (arith, more, length-append w.semaphores (blank (int32 key) nsems ∷ []))
semget_new-IsWell w (some u) key nsems flg h a b =
    let reused =
      All-set IsSemSet w.semaphores u (blank (int32 key) nsems) h.all_sets
        (blank-IsSemSet (int32 key) nsems a b) in
    ground (arith, reused, length-set w.semaphores u (blank (int32 key) nsems))

pub semget-IsWell : (w : World) (key nsems flg : ℕ) → IsWell w → IsWell (semget w key nsems flg).1
unfolding semget
semget-IsWell w key nsems flg h = ground (arith, by_scan (scan key w.semaphores 0 none))
  where
    by_scan :
        (r : Scan)
        → 0 < int32 nsems
        → int32 nsems ≤ max_nsems
        → IsWell (semget_by w key (int32 nsems) (int32 flg) r).1
    by_scan (existing idx) a b = h
    by_scan (absent unused) a b = semget_new-IsWell w unused key (int32 nsems) (int32 flg) h a b

-- Checking the operations of a tracee, and keeping the values if they pass, keeps a set fit.
pub commit-IsSemSet :
    (sem : Semaphore) (sops : List Sembuf)
    → IsSemSet sem
    → IsSemSet (commit sem (sem_check sops sem))
unfolding sem_check
commit-IsSemSet sem sops h = elim (Bool-cases sem.valid) [
  | inl v ↦ λ _.
      ground
        (arith, kept _ (h v) (check_ops-IsResult sem.nsems sem.sems sops (h v).sized (h v).bounded))
  | inr n ↦ λ v. ground (arith, invalid (sem_check sops sem) n v)
]
  where
    kept : (c : Check) → IsFit sem → OnDone c (IsResult sem.sems sops) → IsFit (commit sem c)
    kept (done vals) f r = ground arith
    kept would_wait f r = f
    kept (fails e) f r = f

    invalid : (c : Check) → sem.valid ≡ false → (commit sem c).valid ≡ true → ⊥
    invalid (done vals) n v = cc
    invalid would_wait n v = cc
    invalid (fails e) n v = cc
