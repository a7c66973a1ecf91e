-- ===== src/Sysvipc/Semaphore/Wakeups.antt =====
-- What a call does to the other tracees that wait on the set.
use mathlib.Core.Path.{subst}
use mathlib.Core.Option.{some-injective}
use neoproot.Base.{
  ℕ, zero, suc, ◌≡◌, refl, Bool, true, false, List, [], ◌∷◌, some, arith, get_elem?, if◌then◌else◌,
}
use neoproot.Base.Int.{ℤ, neg}
use neoproot.Sysvipc.State.{Tracee, wake_tracee, wake_all, waits_semop, eidrm, not_waiting}
use neoproot.Sysvipc.Semaphore.{Semaphore}
use neoproot.Sysvipc.Semaphore.Calls.{World, rmid}

pub wake_tracee_lem :
    (t : Tracee) (status : ℤ)
    → ((wake_tracee t status).config.wait_reason ≡ not_waiting)
      × ((wake_tracee t status).config.status_after_wait ≡ status)
      × ((wake_tracee t status).pid ≡ t.pid)
unfolding wake_tracee
wake_tracee_lem t status = ground arith

-- What becomes of a tracee when every tracee that waits on the set is woken with `status`.
abbrev Woken : ℕ → ℕ → ℤ → Tracee → Tracee → Type 0
Woken ns idx status t t' =
    (waits_semop ns idx t' ≡ false)
    × (t'.pid ≡ t.pid)
    × (waits_semop ns idx t ≡ true → t'.config.status_after_wait ≡ status)
    × (waits_semop ns idx t ≡ false → t' ≡ t)

wake_by_test :
    (ns idx : ℕ) (status : ℤ) (t : Tracee) (b : Bool)
    → waits_semop ns idx t ≡ b
    → Woken ns idx status t (if b then wake_tracee t status else t)
wake_by_test ns idx status t true w = ground (arith, wake_tracee_lem t status)
wake_by_test ns idx status t false n = (n, refl, (λ e. cc), (λ e. refl))

wake_all-Woken :
    (ns idx : ℕ) (status : ℤ) (ts : List Tracee) (i : ℕ) (t : Tracee)
    → get_elem? ts i ≡ some t
    → (t' : Tracee) × (get_elem? (wake_all (waits_semop ns idx) status ts) i ≡ some t')
      × Woken ns idx status t t'
unfolding wake_all
wake_all-Woken ns idx status [] i t e = cc
wake_all-Woken ns idx status (x ∷ ts) zero t e = (
  (if waits_semop ns idx x then wake_tracee x status else x),
  refl,
  subst (λ y. Woken ns idx status y (if waits_semop ns idx x then wake_tracee x status else x))
      (some-injective x t e) (wake_by_test ns idx status x (waits_semop ns idx x) refl),
)
wake_all-Woken ns idx status (x ∷ ts) (suc i) t e = wake_all-Woken ns idx status ts i t e

-- IPC_RMID leaves no tracee of the namespace waiting on the set: each one that waited is woken with
-- -EIDRM, and every other tracee is as it was.
rmid-Woken :
    (w : World) (idx : ℕ) (sem : Semaphore) (i : ℕ) (t : Tracee)
    → get_elem? w.tracees i ≡ some t
    → (t' : Tracee) × (get_elem? (rmid w idx sem).tracees i ≡ some t')
      × Woken w.namespace idx (neg eidrm) t t'
unfolding rmid
rmid-Woken w idx sem i t e = wake_all-Woken w.namespace idx (neg eidrm) w.tracees i t e
