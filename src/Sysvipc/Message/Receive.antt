-- ===== src/Sysvipc/Message/Receive.antt =====
-- src/extension/sysvipc/sysvipc_msg.c: msgrcv, and its second attempt after a wait.
use neoproot.Base.{
  ℕ, ◌+◌, ◌-◌, ◌^◌, Bool, true, false, not, Option, none, some, ltb, ◌==◌, if◌then◌else◌, get_elem?,
  set,
}
use neoproot.Base.Int.{ℤ, pos, negsuc, neg}
use neoproot.Sysvipc.State.{
  eagain, eintr, int32, int_of, is_waiting, not_waiting, ChainState, msgrcv_retry, not_chained,
  Config, with_config, lookup_object,
}
use neoproot.Sysvipc.Message.{Queue, queue_object, Memory, Receipt, do_msgrcv}
use neoproot.Sysvipc.Message.Calls.{Namespace}

-- The arguments of msgrcv, as it keeps them in the caller's configuration.
abbrev pub with_arguments : Config → ℕ → ℕ → ℕ → ℕ → Config
with_arguments c ptr size typ flg = record c {
  msgrcv_msgp = ptr;
  msgrcv_msgsz = if ltb (int32 size) (2 ^ 31) then int32 size else int32 size + (2 ^ 64 - 2 ^ 32);
  msgrcv_msgtyp = int_of (int32 typ);
  msgrcv_msgflg = int32 flg;
}

-- What a receipt leaves in the namespace.
abbrev pub after_receipt : Namespace → ℕ → ℕ → Receipt → Namespace
after_receipt n me idx r = record n {
  queues = set n.queues idx r.queue;
  tracees = with_config me (λ _. r.config) n.tracees;
}

unfoldable pub msgrcv_at :
    Memory → Namespace → ℕ → ℕ → Config → Option (ℕ × Queue) → Namespace × Option Receipt
msgrcv_at mem n me now c none = (n, none)
msgrcv_at mem n me now c (some (idx, q)) =
    let r = do_msgrcv mem c q idx me now in (after_receipt n me idx r, some r)

-- sysvipc_msgrcv, for the caller `me` whose configuration is `c`; no receipt is -EINVAL.
unfoldable pub msgrcv :
    Memory → Namespace → ℕ → ℕ → Config → ℕ → ℕ → ℕ → ℕ → ℕ → Namespace × Option Receipt
unfolding msgrcv_at
msgrcv mem n me now c id ptr size typ flg =
    msgrcv_at mem n me now (with_arguments c ptr size typ flg) (lookup_object n.queues id)

abbrev pub is_retry : ChainState → Bool
is_retry msgrcv_retry = true
is_retry _ = false

abbrev pub is_eagain : ℤ → Bool
is_eagain (pos n) = false
is_eagain (negsuc n) = n == eagain - 1

-- A receiver that finds nothing the second time does not wait again: it is interrupted.
abbrev pub retry_end : Receipt → Receipt
retry_end r =
    if is_waiting r.config.wait_reason
    then record r {
      status = neg eintr;
      config = record (r.config) { wait_reason = not_waiting; chain_state = not_chained };
    }
    else record r { config = record (r.config) { chain_state = not_chained } }

-- A retry ends with an assertion that fails, with the status of the wait, or with a receipt.
pub data Retried : Type 0 where
  aborted : Retried
  passed_on : ℤ → Namespace → Retried
  received : Receipt → Namespace → Retried

unfoldable pub retry_at : Memory → Namespace → ℕ → ℕ → Config → Option Queue → Retried
retry_at mem n me now c none = aborted
retry_at mem n me now c (some q) =
    let r = retry_end (do_msgrcv mem c q c.waiting_object_index me now) in
    if not q.valid then aborted else received r (after_receipt n me c.waiting_object_index r)

abbrev pub unchained : Config → Config
unchained c = record c { chain_state = not_chained }

-- sysvipc_msgrcv_retry.
unfoldable pub msgrcv_retry_call : Memory → Namespace → ℕ → ℕ → Config → Retried
unfolding retry_at
msgrcv_retry_call mem n me now c =
    if not (is_retry c.chain_state)
    then aborted
    else if is_eagain c.status_after_wait
    then retry_at mem n me now c (get_elem? n.queues c.waiting_object_index)
    else passed_on c.status_after_wait (record n { tracees = with_config me unchained n.tracees })
