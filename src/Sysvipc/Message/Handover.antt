-- ===== src/Sysvipc/Message/Handover.antt =====
-- The handing over of a message: msgsnd wakes a waiting receiver, which tries again by
-- sysvipc_msgrcv_retry. src/extension/sysvipc/sysvipc_msg.c.
use neoproot.Base.{
  ℕ, ◌≡◌, ◌⊎◌, refl, ap, Bool, true, false, List, [], ◌∷◌, ◌++◌, set, inl, inr, All, if◌then◌else◌,
}
use neoproot.Base.Int.{neg}
use neoproot.Sysvipc.State.{Tracee, wake_tracee, eagain, msgrcv_retry}
use neoproot.Sysvipc.Message.{Item, Queue}
use neoproot.Sysvipc.Message.Calls.{Namespace, wake_receiver, waits_for, append_item, send}

-- No tracee of the list passes the test.
abbrev pub NoneWaits : (Tracee → Bool) → List Tracee → Type 0
NoneWaits waits ts = All (λ t. waits t ≡ false) ts

-- A tracee that was told to try to receive again.
abbrev pub retrying : Tracee → Tracee
retrying t =
    wake_tracee (record t { config = record (t.config) { chain_state = msgrcv_retry } })
      (neg eagain)

-- Either no tracee waits and none is touched, or the first that waits is told to try again, and no
-- other is touched.
abbrev pub IsHandover : (Tracee → Bool) → List Tracee → List Tracee → Type 0
IsHandover waits ts ts' =
    (NoneWaits waits ts × (ts' ≡ ts))
    ⊎ ((before : List Tracee) × (t : Tracee) × (behind : List Tracee) × (ts ≡ before ++ t ∷ behind)
        × NoneWaits waits before
        × (waits t ≡ true)
        × (ts' ≡ before ++ retrying t ∷ behind))

past-IsHandover :
    (waits : Tracee → Bool) (x : Tracee) (ts ts' : List Tracee)
    → waits x ≡ false
    → IsHandover waits ts ts'
    → IsHandover waits (x ∷ ts) (x ∷ ts')
past-IsHandover waits x ts ts' n (inl (h, e)) = inl ((n, h), ap (λ r. x ∷ r) e)
past-IsHandover waits x ts ts' n (inr (before, t, behind, e, h, w, e')) =
    inr (x ∷ before, t, behind, ap (λ r. x ∷ r) e, (n, h), w, ap (λ r. x ∷ r) e')

test-IsHandover :
    (waits : Tracee → Bool) (x : Tracee) (ts ts' : List Tracee) (b : Bool)
    → waits x ≡ b
    → IsHandover waits ts ts'
    → IsHandover waits (x ∷ ts) (if b then retrying x ∷ ts else x ∷ ts')
test-IsHandover waits x ts ts' true w h = inr ([], x, ts, refl, tt, w, refl)
test-IsHandover waits x ts ts' false n h = past-IsHandover waits x ts ts' n h

wake_receiver-IsHandover :
    (waits : Tracee → Bool) (ts : List Tracee) → IsHandover waits ts (wake_receiver waits ts)
unfolding wake_receiver
wake_receiver-IsHandover waits [] = inl (tt, refl)
wake_receiver-IsHandover waits (x ∷ ts) =
    test-IsHandover waits x ts (wake_receiver waits ts) (waits x) refl
      (wake_receiver-IsHandover waits ts)

-- A message that is sent puts itself last in its queue, and the first tracee in the list that waits
-- on the queue for such a message is told to try again; no other tracee is touched.
pub send-IsHandover :
    (n : Namespace) (me now idx : ℕ) (q : Queue) (m : Item)
    → ((send n me now idx q m).1.queues ≡ set n.queues idx (append_item q m me now))
      × IsHandover (waits_for n.id idx m) n.tracees (send n me now idx q m).1.tracees
unfolding send
send-IsHandover n me now idx q m = (refl, wake_receiver-IsHandover (waits_for n.id idx m) n.tracees)
