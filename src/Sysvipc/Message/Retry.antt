-- ===== src/Sysvipc/Message/Retry.antt =====
-- The second attempt of a receiver: sysvipc_msgrcv_retry of src/extension/sysvipc/sysvipc_msg.c.
use neoproot.Base.{
  ℕ, ◌+◌, ◌%◌, ◌^◌, ◌<◌, ◌≤◌, ◌≡◌, refl, ap, true, false, List, [], ◌∷◌, none, some, arith, length,
  get_elem?, inl, take, length-set, get_elem?-set_self,
}
use mathlib.Core.List.{append-nil}
use mathlib.Core.Path.{sym, ◌∙◌, subst}
use neoproot.Base.Words.{add64}
use neoproot.Base.Int.{pos, neg}
use neoproot.Sysvipc.State.{
  Config, Tracee, wake_tracee, wake_all, waits_queue, not_waiting, not_chained, eagain,
  msgrcv_retry, has,
}
use neoproot.Sysvipc.Message.{
  Out, max_msg_size, type_word, text, Item, Queue, Memory, Receipt, wants, do_msgrcv, bad_flags,
  is_copying, msg_match, sender_type, msg_copy,
}
use neoproot.Sysvipc.Message.Delivery.{received_length, IsTaken, do_msgrcv-IsTaken}
use neoproot.Sysvipc.Message.Find.{NoMatch}
use neoproot.Sysvipc.Message.Calls.{Namespace, wake_receiver, waits_for, append_item, send, rmid}
use neoproot.Sysvipc.Message.Receive.{
  Retried, aborted, passed_on, received, retry_at, retry_end, msgrcv_retry_call, is_retry,
  is_eagain,
}
use neoproot.Sysvipc.Message.Handover.{retrying}

-- What the sender leaves in the configuration of the receiver that it wakes.
record IsRetrying (c d : Config) : Type 0 where
  reason : d.wait_reason ≡ not_waiting
  status : d.status_after_wait ≡ neg eagain
  chain : d.chain_state ≡ msgrcv_retry
  index : d.waiting_object_index ≡ c.waiting_object_index
  size : d.msgrcv_msgsz ≡ c.msgrcv_msgsz
  filter : d.msgrcv_msgtyp ≡ c.msgrcv_msgtyp
  flags : d.msgrcv_msgflg ≡ c.msgrcv_msgflg

retrying-IsRetrying : (t : Tracee) → IsRetrying t.config (retrying t).config
unfolding wake_tracee
retrying-IsRetrying t = ground arith

wants-eq : (c d : Config) → IsRetrying c d → wants c ≡ wants d
wants-eq c d k = λ i m. msg_match (sender_type m) (sym k.filter i) (sym k.flags i)

retry_call-eq :
    (mem : Memory) (n : Namespace) (me now : ℕ) (c d : Config)
    → IsRetrying c d
    → msgrcv_retry_call mem n me now d
      ≡ retry_at mem n me now d (get_elem? n.queues d.waiting_object_index)
unfolding msgrcv_retry_call
retry_call-eq mem n me now c d k =
    let chain : is_retry d.chain_state ≡ true = ap is_retry k.chain in
    let status : is_eagain d.status_after_wait ≡ true = ap is_eagain k.status in
    simp (chain, status) refl

-- The retry received something, for which `P` holds.
abbrev pub OnReceived : Retried → (Receipt → Type 0) → Type 0
OnReceived aborted P = ⊥
OnReceived (passed_on st n) P = ⊥
OnReceived (received r n) P = P r

-- A tracee that waits no longer, and has received the message.
pub record HasReceived (c : Config) (m : Item) (left : List Item) (r : Receipt) : Type 0 where
  pub status : r.status ≡ pos (received_length c m)
  pub kept : r.queue.items ≡ left
  pub awake : r.config.wait_reason ≡ not_waiting
  pub chain_ended : r.config.chain_state ≡ not_chained
  pub written :
      r.written
      ≡ (c.msgrcv_msgp, type_word m.mtype)
        ∷ (add64 c.msgrcv_msgp 8, text (take (received_length c m) m.mtext))
        ∷ []

retry_end-HasReceived :
    (c : Config) (m : Item) (left : List Item) (r : Receipt)
    → c.wait_reason ≡ not_waiting
    → IsTaken c m left r
    → HasReceived c m left (retry_end r)
retry_end-HasReceived c m left r h k =
    let awake : r.config.wait_reason ≡ not_waiting = ap (λ d. d.wait_reason) k.unchanged ∙ h in
    let ended : retry_end r
        ≡ record r { config = record (r.config) { chain_state = not_chained } } =
      rw awake refl in
    rw ended (record {
      status = k.status;
      kept = k.kept;
      awake = awake;
      chain_ended = refl;
      written = k.written;
    })

retry_at-HasReceived :
    (mem : Memory) (n : Namespace) (pid now : ℕ) (c : Config) (q : Queue) (m : Item)
    (left : List Item)
    → q.valid ≡ true
    → c.wait_reason ≡ not_waiting
    → IsTaken c m left (do_msgrcv mem c q c.waiting_object_index pid now)
    → OnReceived (retry_at mem n pid now c (some q)) (HasReceived c m left)
unfolding retry_at
retry_at-HasReceived mem n pid now c q m left v h k =
    simp v (retry_end-HasReceived c m left (do_msgrcv mem c q c.waiting_object_index pid now) h k)

waits_for-wants :
    (ns idx : ℕ) (m : Item) (t : Tracee) → waits_for ns idx m t ≡ true → wants t.config m ≡ true
waits_for-wants ns idx m t w = ground arith

waits_for-index :
    (ns idx : ℕ) (m : Item) (t : Tracee)
    → waits_for ns idx m t ≡ true
    → t.config.waiting_object_index ≡ idx
waits_for-index ns idx m t w = ground arith

-- The whole way of a message: `t` waits on a valid queue that has no message for it, its arguments
-- are in order, and one that fits is sent. If the queue is as the sender left it when `t` tries
-- again, and its memory can be written, then `t` receives that message, with the bytes sent, and
-- waits no longer, and the queue holds the messages of before.
pub send_then_retry :
    (mem : Memory) (n : Namespace) (me now later idx : ℕ) (q : Queue) (m : Item) (t : Tracee)
    → idx < length n.queues
    → q.valid ≡ true
    → waits_for n.id idx m t ≡ true
    → NoMatch (wants t.config) q.items
    → bad_flags t.config.msgrcv_msgflg ≡ false
    → is_copying t.config ≡ false
    → m.mtext_length ≤ t.config.msgrcv_msgsz
    → m.mtext_length ≤ max_msg_size
    → ((p : ℕ) (o : Out) → mem.write_data p o ≡ none)
    → OnReceived
        (msgrcv_retry_call mem (send n me now idx q m).1 t.pid later (retrying t).config)
        (HasReceived (retrying t).config m q.items)
unfolding send
send_then_retry mem n me now later idx q m t inside v w no_match g k fits small writes =
    let d = (retrying t).config in
    let sent = (send n me now idx q m).1 in
    let q2 = append_item q m me now in
    let p = retrying-IsRetrying t in
    let here : t.config.waiting_object_index ≡ idx = waits_for-index n.id idx m t w in
    let at : get_elem? sent.queues d.waiting_object_index ≡ some q2 =
      ap (get_elem? sent.queues) (p.index ∙ here) ∙ get_elem?-set_self n.queues idx q2 inside in
    let same = wants-eq t.config d p in
    let taken : IsTaken d m q.items (do_msgrcv mem d q2 d.waiting_object_index t.pid later) =
      subst (λ left. IsTaken d m left (do_msgrcv mem d q2 d.waiting_object_index t.pid later))
        (append-nil q.items)
        (do_msgrcv-IsTaken mem d q2 d.waiting_object_index t.pid later q.items [] m
          (ap bad_flags p.flags ∙ g) (ap (λ f. has f msg_copy) p.flags ∙ k) refl
          (subst (λ f. NoMatch f q.items) same no_match)
          (sym (ap (λ f. f m) same) ∙ waits_for-wants n.id idx m t w)
          (inl (subst (λ z. m.mtext_length ≤ z) (sym p.size) fits)) (ground arith) writes) in
    rw (retry_call-eq mem sent t.pid later t.config d p, at)
      (retry_at-HasReceived mem sent t.pid later d q2 m q.items v p.reason taken)

-- A message is sent to a queue on which the first tracee `t` of the list waits for it, and the queue
-- is removed before `t` tries again. The removal leaves `t` as the sender left it, and its retry
-- then fails the assertion that the queue is valid.
pub retry_after_rmid :
    (mem : Memory) (n : Namespace) (me now later idx : ℕ) (q q' : Queue) (m : Item) (t : Tracee)
    (ts : List Tracee)
    → n.tracees ≡ t ∷ ts
    → idx < length n.queues
    → waits_for n.id idx m t ≡ true
    → (get_elem? (rmid (send n me now idx q m).1 idx q').tracees 0 ≡ some (retrying t))
      × (msgrcv_retry_call mem
            (rmid (send n me now idx q m).1 idx q')
            t.pid
            later
            (retrying t).config
          ≡ aborted)
unfolding send rmid wake_receiver wake_all retry_at
retry_after_rmid mem n me now later idx q q' m t ts e inside w =
    let d = (retrying t).config in
    let sent = (send n me now idx q m).1 in
    let gone = rmid sent idx q' in
    let p = retrying-IsRetrying t in
    let asleep : waits_queue n.id idx (retrying t) ≡ false = ground (arith, p.reason) in
    let woken : wake_receiver (waits_for n.id idx m) n.tracees ≡ retrying t ∷ ts =
      ap (wake_receiver (waits_for n.id idx m)) e ∙ simp w refl in
    let at : get_elem? gone.queues d.waiting_object_index
        ≡ some
            (record q' { valid = false; generation = (q'.generation + 1) % 2 ^ 16; items = [] }) =
      ap (get_elem? gone.queues) (p.index ∙ waits_for-index n.id idx m t w)
      ∙ get_elem?-set_self sent.queues idx _
          (subst (λ l. idx < l) (sym (length-set n.queues idx (append_item q m me now))) inside) in
    (
      rw woken (rw asleep refl),
      retry_call-eq mem gone t.pid later t.config d p ∙ ap (retry_at mem gone t.pid later d) at,
    )
