-- ===== src/Sysvipc/Semaphore/Invariant.antt =====
-- Every call keeps what holds of the semaphore sets.
use neoproot.Base.{
  All-get, All-set, ℕ, ◌≤◌, ◌≡◌, refl, not, ◌&&◌, List, [], ◌∷◌, Option, none, some, arith,
  length-set, set, inl, inr, Bool-cases, ◌==◌,
}
use mathlib.Core.Path.{subst, sym, ◌∙◌}
use neoproot.Base.Int.{ℤ}
use neoproot.Sysvipc.State.{waits_semop, with_config, Sembuf, Tracee, lookup_object}
use neoproot.Sysvipc.State.Ids.{lookup_object-eq-some}
use neoproot.Sysvipc.Semaphore.{
  Semaphore, semaphore_object, Check, done, would_wait, fails, sem_check, commit, max_semval,
}
use neoproot.Sysvipc.Semaphore.Calls.{
  World, semget, semop_at, semop_read, semctl_at, visit, revisit, visit_all, semop_on, semop_pass,
  start_wait, semop, settle, semop_timedout, semctl, semctl_on, rmid, Read, faulted, got, Out,
}
use neoproot.Sysvipc.Semaphore.Ops.{AllLe-set}
use neoproot.Sysvipc.Semaphore.Fit.{IsSemSet, IsWell, semget-IsWell, commit-IsSemSet}

pub revisit-commit : (sem : Semaphore) (t : Tracee) (c : Check) → (revisit sem t c).0 ≡ commit sem c
unfolding revisit
revisit-commit sem t (done vals) = refl
revisit-commit sem t would_wait = refl
revisit-commit sem t (fails e) = refl

pub visit-IsSemSet :
    (ns me idx : ℕ) (sem : Semaphore) (t : Tracee)
    → IsSemSet sem
    → IsSemSet (visit ns me idx sem t).0
unfolding visit
visit-IsSemSet ns me idx sem t h =
    let c = sem_check t.config.semop_sops sem in
    let kept : IsSemSet (revisit sem t c).0 =
      subst IsSemSet (sym (revisit-commit sem t c)) (commit-IsSemSet sem t.config.semop_sops h) in
    elim (Bool-cases (not (t.pid == me) && waits_semop ns idx t)) [
      | inl yes_waits ↦ rw yes_waits kept
      | inr not_waits ↦ rw not_waits h
    ]

pub visit_all-IsSemSet :
    (ns me idx : ℕ) (sem : Semaphore) (ts : List Tracee)
    → IsSemSet sem
    → IsSemSet (visit_all ns me idx sem ts).0
unfolding visit_all
visit_all-IsSemSet ns me idx sem [] h = h
visit_all-IsSemSet ns me idx sem (t ∷ ts) h =
    visit_all-IsSemSet ns me idx (visit ns me idx sem t).0 ts (visit-IsSemSet ns me idx sem t h)

pub settle-semaphores :
    (me : ℕ) (c : Check) (w : World) → (settle me c w).1.semaphores ≡ w.semaphores
unfolding settle
settle-semaphores me (done vals) w = refl
settle-semaphores me would_wait w = refl
settle-semaphores me (fails e) w = refl

IsWell-cong : (w w' : World) → w'.semaphores ≡ w.semaphores → IsWell w → IsWell w'
IsWell-cong w w' e h = record { all_sets = rw e h.all_sets; few_sets = rw e h.few_sets }

set-IsWell :
    (w : World) (idx : ℕ) (sem : Semaphore) (ts : List Tracee)
    → IsWell w
    → IsSemSet sem
    → IsWell (record w { semaphores = set w.semaphores idx sem; tracees = ts })
set-IsWell w idx sem ts h k = record {
  all_sets = All-set IsSemSet w.semaphores idx sem h.all_sets k;
  few_sets = omega (arith, length-set w.semaphores idx sem, h.few_sets);
}

semop_pass-IsWell :
    (w : World) (me idx : ℕ) (sem : Semaphore) (sops : List Sembuf)
    → IsWell w
    → IsSemSet sem
    → IsWell (semop_pass w me idx sem sops)
unfolding semop_pass
semop_pass-IsWell w me idx sem sops h k =
    let waiting = with_config me (start_wait idx sops) w.tracees in
    let first = commit sem (sem_check sops sem) in
    set-IsWell w idx (visit_all w.namespace me idx first waiting).0
      (visit_all w.namespace me idx first waiting).1 h
      (visit_all-IsSemSet w.namespace me idx first waiting (commit-IsSemSet sem sops k))

semop_on-IsWell :
    (w : World) (me idx : ℕ) (sem : Semaphore) (sops : List Sembuf)
    → IsWell w
    → IsSemSet sem
    → IsWell (semop_on w me idx sem sops).1
unfolding semop_on
semop_on-IsWell w me idx sem sops h k =
    IsWell-cong (semop_pass w me idx sem sops) _ (settle-semaphores me (sem_check sops sem) _)
      (semop_pass-IsWell w me idx sem sops h k)

semop_at-IsWell :
    (read : ℕ → ℕ → Read) (w : World) (me ptr n : ℕ) (o : Option (ℕ × Semaphore))
    → IsWell w
    → ((idx : ℕ) (sem : Semaphore) → o ≡ some (idx, sem) → IsSemSet sem)
    → IsWell (semop_at read w me ptr n o).1
unfolding semop_at
semop_at-IsWell read w me ptr n none h k = h
semop_at-IsWell read w me ptr n (some (idx, sem)) h k = ground (arith, by_read (read ptr n))
  where
    by_read : (r : Read) → IsWell (semop_read w me idx sem r).1
    by_read (faulted e) = h
    by_read (got sops) = ground (arith, semop_on-IsWell w me idx sem sops h (k idx sem refl))

found-IsSemSet :
    (w : World) (id idx : ℕ) (sem : Semaphore)
    → IsWell w
    → lookup_object w.semaphores id ≡ some (idx, sem)
    → IsSemSet sem
found-IsSemSet w id idx sem h e =
    All-get IsSemSet w.semaphores idx sem h.all_sets
      (lookup_object-eq-some w.semaphores id idx sem e).0

semop-IsWell :
    (read : ℕ → ℕ → Read) (w : World) (me id ptr n : ℕ)
    → IsWell w
    → IsWell (semop read w me id ptr n).1
unfolding semop
semop-IsWell read w me id ptr n h =
    semop_at-IsWell read w me ptr n (lookup_object w.semaphores id) h
      (λ idx sem e. found-IsSemSet w id idx sem h e)

setval-IsSemSet :
    (sem : Semaphore) (num v : ℕ)
    → IsSemSet sem
    → v ≤ max_semval
    → IsSemSet (record sem { sems = set sem.sems num v })
setval-IsSemSet sem num v h k valid = record {
  first_generation = (h valid).first_generation;
  has_sems = (h valid).has_sems;
  few_sems = (h valid).few_sems;
  sized = length-set sem.sems num v ∙ (h valid).sized;
  bounded = AllLe-set max_semval sem.sems num v (h valid).bounded k;
}

rmid-IsWell : (w : World) (idx : ℕ) (sem : Semaphore) → IsWell w → IsWell (rmid w idx sem)
unfolding rmid
rmid-IsWell w idx sem h = set-IsWell w idx _ _ h (λ v. cc)

semctl_at-IsWell :
    (write : ℕ → Out → ℤ) (w : World) (o : Option (ℕ × Semaphore)) (num cmd arg : ℕ)
    → IsWell w
    → ((idx : ℕ) (sem : Semaphore) → o ≡ some (idx, sem) → IsSemSet sem)
    → IsWell (semctl_at write w o num cmd arg).1
unfolding semctl_at semctl_on
semctl_at-IsWell write w none num cmd arg h k = h
semctl_at-IsWell write w (some (idx, sem)) num cmd arg h k = ground (
  arith,
  rmid-IsWell w idx sem h,
  set-IsWell w idx (record sem { sems = set sem.sems num arg }) w.tracees h,
  setval-IsSemSet sem num arg (k idx sem refl),
)

-- A call of a tracee, with what its memory gives or takes at that moment.
pub data Call : Type 0 where
  get : ℕ → ℕ → ℕ → Call
  op : (ℕ → ℕ → Read) → ℕ → ℕ → ℕ → ℕ → Call
  timeout : ℕ → Call
  ctl : (ℕ → Out → ℤ) → ℕ → ℕ → ℕ → ℕ → Call

pub step : World → Call → World
step w (get key nsems flg) = (semget w key nsems flg).1
step w (op read me id ptr n) = (semop read w me id ptr n).1
step w (timeout me) = semop_timedout w me
step w (ctl write id num cmd arg) = (semctl write w id num cmd arg).1

step-IsWell : (w : World) (c : Call) → IsWell w → IsWell (step w c)
unfolding step semop_timedout semctl
step-IsWell w (get key nsems flg) h = semget-IsWell w key nsems flg h
step-IsWell w (op read me id ptr n) h = semop-IsWell read w me id ptr n h
step-IsWell w (timeout me) h = IsWell-cong w _ refl h
step-IsWell w (ctl write id num cmd arg) h =
    semctl_at-IsWell write w (lookup_object w.semaphores id) _ _ arg h
      (λ idx sem e. found-IsSemSet w id idx sem h e)

pub run : World → List Call → World
run w [] = w
run w (c ∷ cs) = run (step w c) cs

-- Whatever calls the tracees make, and whatever their memory holds, there are at most 512 sets, and
-- each valid one keeps its 1 to 512 values, none above 0x7000, and is of generation 0.
pub run-IsWell : (w : World) (cs : List Call) → IsWell w → IsWell (run w cs)
unfolding run
run-IsWell w [] h = h
run-IsWell w (c ∷ cs) h = run-IsWell (step w c) cs (step-IsWell w c h)
