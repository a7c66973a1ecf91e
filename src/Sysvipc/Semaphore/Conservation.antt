-- ===== src/Sysvipc/Semaphore/Conservation.antt =====
-- Over a whole `semop`, what the values gain and lose is what the operations that passed add and
-- take: the caller's, and those of the waiters that it lets through.
use mathlib.Core.Path.{subst}
use neoproot.Base.{
  ℕ, ◌+◌, ◌≡◌, refl, sym, ◌∙◌, true, not, ◌&&◌, List, [], ◌∷◌, ◌++◌, some, arith, get_elem?,
  get_elem?-set_self, get_elem?-lt, inl, inr, Bool-cases, ◌==◌, if◌then◌else◌, ltb,
}
use neoproot.Sysvipc.State.{Sembuf, Tracee, with_config, waits_semop}
use neoproot.Sysvipc.Semaphore.{
  Semaphore, Check, done, would_wait, fails, sem_check, commit, max_nsems,
}
use neoproot.Sysvipc.Semaphore.Calls.{
  World, visit, revisit, visit_all, semop_on, semop_pass, start_wait,
}
use neoproot.Sysvipc.Semaphore.Ops.{OnDone, IsResult, ups, downs, check_ops-IsResult}
use neoproot.Sysvipc.Semaphore.Fit.{IsFit, commit-IsSemSet}
use neoproot.Sysvipc.Semaphore.Invariant.{revisit-commit, visit-IsSemSet, settle-semaphores}

ups-append : (i : ℕ) (xs ys : List Sembuf) → ups i (xs ++ ys) ≡ ups i xs + ups i ys
ups-append i [] ys = omega arith
ups-append i (x ∷ xs) ys = omega (arith, ups-append i xs ys)

downs-append : (i : ℕ) (xs ys : List Sembuf) → downs i (xs ++ ys) ≡ downs i xs + downs i ys
downs-append i [] ys = omega arith
downs-append i (x ∷ xs) ys = omega (arith, downs-append i xs ys)

IsResult-append :
    (vals v1 v2 : List ℕ) (xs ys : List Sembuf)
    → IsResult vals xs v1
    → IsResult v1 ys v2
    → IsResult vals (xs ++ ys) v2
IsResult-append vals v1 v2 xs ys a b = (
  omega (arith, a.0, b.0),
  b.1,
  λ i. omega (arith, a.2 i, b.2 i, ups-append i xs ys, downs-append i xs ys),
)

-- The operations that are carried out when a check passes.
abbrev pub passed : Check → List Sembuf → List Sembuf
passed (done vals) sops = sops
passed would_wait sops = []
passed (fails e) sops = []

-- The operations of the waiters that pass when the tracees are visited in order.
served_here : ℕ → ℕ → ℕ → Semaphore → Tracee → List Sembuf
served_here ns me idx sem t =
    if not (t.pid == me) && waits_semop ns idx t
    then passed (sem_check t.config.semop_sops sem) t.config.semop_sops
    else []

pub served : ℕ → ℕ → ℕ → Semaphore → List Tracee → List Sembuf
served ns me idx sem [] = []
served ns me idx sem (t ∷ ts) =
    served_here ns me idx sem t ++ served ns me idx (visit ns me idx sem t).0 ts

sem_check-IsResult :
    (sem : Semaphore) (sops : List Sembuf)
    → IsFit sem
    → OnDone (sem_check sops sem) (IsResult sem.sems sops)
unfolding sem_check
sem_check-IsResult sem sops f = elim (Bool-cases (ltb max_nsems sem.nsems)) [
  | inl big ↦ rw (big, OnDone) tt
  | inr small ↦ rw (small, OnDone) (check_ops-IsResult sem.nsems sem.sems sops f.sized f.bounded)
]

commit-IsResult :
    (sem : Semaphore) (sops : List Sembuf) (c : Check)
    → IsFit sem
    → OnDone c (IsResult sem.sems sops)
    → IsResult sem.sems (passed c sops) (commit sem c).sems
commit-IsResult sem sops (done vals) f r = r
commit-IsResult sem sops would_wait f r = (refl, f.bounded, λ i. refl)
commit-IsResult sem sops (fails e) f r = (refl, f.bounded, λ i. refl)

checked-IsResult :
    (sem : Semaphore) (sops : List Sembuf)
    → IsFit sem
    → IsResult sem.sems (passed (sem_check sops sem) sops) (commit sem (sem_check sops sem)).sems
checked-IsResult sem sops f =
    commit-IsResult sem sops (sem_check sops sem) f (sem_check-IsResult sem sops f)

visit-IsResult :
    (ns me idx : ℕ) (sem : Semaphore) (t : Tracee)
    → IsFit sem
    → IsResult sem.sems (served_here ns me idx sem t) (visit ns me idx sem t).0.sems
unfolding visit served_here
visit-IsResult ns me idx sem t f = elim (Bool-cases (not (t.pid == me) && waits_semop ns idx t)) [
  | inl w ↦ rw w (
      subst
        (λ s.
          IsResult sem.sems (passed (sem_check t.config.semop_sops sem) t.config.semop_sops) s.sems)
        (sym (revisit-commit sem t (sem_check t.config.semop_sops sem)))
        (checked-IsResult sem t.config.semop_sops f))
  | inr n ↦ rw n (refl, f.bounded, λ i. refl)
]

commit-valid : (sem : Semaphore) (c : Check) → (commit sem c).valid ≡ sem.valid
commit-valid sem (done vals) = refl
commit-valid sem would_wait = refl
commit-valid sem (fails e) = refl

visit-valid :
    (ns me idx : ℕ) (sem : Semaphore) (t : Tracee) → (visit ns me idx sem t).0.valid ≡ sem.valid
unfolding visit
visit-valid ns me idx sem t = ground (arith, by_check (sem_check t.config.semop_sops sem))
  where
    by_check : (c : Check) → (revisit sem t c).0.valid ≡ sem.valid
    by_check c = rw (revisit-commit sem t c) (commit-valid sem c)

visit_all-IsResult :
    (ns me idx : ℕ) (sem : Semaphore) (ts : List Tracee)
    → sem.valid ≡ true
    → IsFit sem
    → IsResult sem.sems (served ns me idx sem ts) (visit_all ns me idx sem ts).0.sems
unfolding served visit_all
visit_all-IsResult ns me idx sem [] v f = (refl, f.bounded, λ i. refl)
visit_all-IsResult ns me idx sem (t ∷ ts) v f =
    let next = (visit ns me idx sem t).0 in
    let v' : next.valid ≡ true = visit-valid ns me idx sem t ∙ v in
    IsResult-append sem.sems next.sems _ _ _ (visit-IsResult ns me idx sem t f)
      (visit_all-IsResult ns me idx next ts v' (visit-IsSemSet ns me idx sem t (λ _. f) v'))

-- A `semop` on a valid set changes each value by exactly what the operations that passed add and
-- take: the caller's if they passed, then those of the other waiters that pass as they are visited
-- in order. No value exceeds the limit, and a caller or waiter that is blocked or refused changes
-- nothing.
pub semop_on-IsResult :
    (w : World) (me idx : ℕ) (sem : Semaphore) (sops : List Sembuf)
    → get_elem? w.semaphores idx ≡ some sem
    → sem.valid ≡ true
    → IsFit sem
    → (sem' : Semaphore) × (get_elem? (semop_on w me idx sem sops).1.semaphores idx ≡ some sem')
      × IsResult sem.sems
          (passed (sem_check sops sem) sops
            ++ served w.namespace me idx
                (commit sem (sem_check sops sem))
                (with_config me (start_wait idx sops) w.tracees))
          sem'.sems
unfolding semop_on semop_pass
semop_on-IsResult w me idx sem sops e v f =
    let c = sem_check sops sem in
    let first = commit sem c in
    let waiting = with_config me (start_wait idx sops) w.tracees in
    let final = (visit_all w.namespace me idx first waiting).0 in
    let v' : first.valid ≡ true = commit-valid sem c ∙ v in
    (
      final,
      subst (λ ss. get_elem? ss idx ≡ some final)
          (sym (settle-semaphores me c (semop_pass w me idx sem sops)))
          (get_elem?-set_self w.semaphores idx final (get_elem?-lt w.semaphores idx e)),
      IsResult-append sem.sems first.sems final.sems _ _ (checked-IsResult sem sops f) (
          visit_all-IsResult w.namespace me idx first waiting v'
            (commit-IsSemSet sem sops (λ _. f) v')),
    )
