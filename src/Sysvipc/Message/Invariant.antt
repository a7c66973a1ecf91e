-- ===== src/Sysvipc/Message/Invariant.antt =====
-- What holds of the queues over any sequence of calls of src/extension/sysvipc/sysvipc_msg.c.
use neoproot.Base.{
  ℕ, ◌+◌, ◌%◌, ◌^◌, ◌<◌, ◌≤◌, ◌≡◌, refl, false, List, [], ◌∷◌, Option, none, some, arith, length,
  All, All-set, All-append, All-get, get_elem?,
}
use mathlib.Core.Path.{sym, subst}
use neoproot.Base.Words.{add64}
use neoproot.Sysvipc.State.{
  Config, Scan, existing, absent, scan, int32, lookup_object, plain_command,
}
use neoproot.Sysvipc.State.Ids.{lookup_object-eq-some}
use neoproot.Sysvipc.Message.{
  Queue, queue_object, Fetched, faulted, got, Memory, Receipt, do_msgrcv, max_msg_size,
}
use neoproot.Sysvipc.Message.Calls.{
  Namespace, blank, msgget, msgget_by, send, send_text, send_type, msgsnd_at, msgsnd, rmid,
  msgctl_at, msgctl,
}
use neoproot.Sysvipc.Message.Receive.{
  msgrcv_at, msgrcv, Retried, aborted, passed_on, received, retry_at, retry_end, msgrcv_retry_call,
  with_arguments,
}
use neoproot.Sysvipc.Message.Delivery.{do_msgrcv-Effect}
use neoproot.Sysvipc.Message.Counts.{IsQueue, IsWell, Effect-IsQueue, append_item-IsQueue}

-- A read of text that succeeds gives as many bytes as were asked for.
abbrev pub IsHonest : Memory → Type 0
IsHonest mem =
    (ptr len : ℕ) (bytes : List ℕ) → mem.read_text ptr len ≡ got bytes → length bytes ≡ len

blank-IsQueue : (key : ℕ) → IsQueue (blank key)
blank-IsQueue key v = record { first_generation = refl; sized = tt; counted = refl; weighed = refl }

msgget-IsWell : (n : Namespace) (key flg : ℕ) → IsWell n → IsWell (msgget n key flg).1
unfolding msgget msgget_by
msgget-IsWell n key flg h = by_scan (scan key n.queues 0 none)
  where
    by_scan : (r : Scan) → IsWell (msgget_by n key flg r).1
    by_scan (existing idx) = ground (arith, h)
    by_scan (absent none) = ground (
      arith,
      h,
      All-append IsQueue n.queues (blank (int32 key) ∷ []) h (blank-IsQueue (int32 key), tt),
    )
    by_scan (absent (some u)) =
        ground
          (arith, h, All-set IsQueue n.queues u (blank (int32 key)) h (blank-IsQueue (int32 key)))

found-IsQueue :
    (n : Namespace) (id idx : ℕ) (q : Queue)
    → IsWell n
    → lookup_object n.queues id ≡ some (idx, q)
    → IsQueue q
found-IsQueue n id idx q h e =
    All-get IsQueue n.queues idx q h (lookup_object-eq-some n.queues id idx q e).0

send_text-IsWell :
    (n : Namespace) (me now idx : ℕ) (q : Queue) (mtype len : ℕ) (r : Fetched (List ℕ))
    → IsWell n
    → IsQueue q
    → 0 < len
    → len ≤ max_msg_size
    → ((bytes : List ℕ) → r ≡ got bytes → length bytes ≡ len)
    → IsWell (send_text n me now idx q mtype len r).1
unfolding send_text send
send_text-IsWell n me now idx q mtype len (faulted e) h k a b honest = h
send_text-IsWell n me now idx q mtype len (got bytes) h k a b honest =
    All-set IsQueue n.queues idx _ h (
      append_item-IsQueue q (record { mtype = mtype; mtext = bytes; mtext_length = len }) me now
        (a, b, honest bytes refl) k)

send_type-IsWell :
    (mem : Memory) (n : Namespace) (me now idx : ℕ) (q : Queue) (ptr len : ℕ) (r : Fetched ℕ)
    → IsHonest mem
    → IsWell n
    → IsQueue q
    → 0 < len
    → len ≤ max_msg_size
    → IsWell (send_type mem n me now idx q ptr len r).1
unfolding send_type
send_type-IsWell mem n me now idx q ptr len (faulted e) honest h k a b = h
send_type-IsWell mem n me now idx q ptr len (got mtype) honest h k a b = ground (
  arith,
  h,
  send_text-IsWell n me now idx q mtype len (mem.read_text (add64 ptr 8) len) h k a b
      (honest (add64 ptr 8) len),
)

msgsnd_at-IsWell :
    (mem : Memory) (n : Namespace) (me now ptr len : ℕ) (o : Option (ℕ × Queue))
    → IsHonest mem
    → IsWell n
    → ((idx : ℕ) (q : Queue) → o ≡ some (idx, q) → IsQueue q)
    → IsWell (msgsnd_at mem n me now ptr len o).1
unfolding msgsnd_at
msgsnd_at-IsWell mem n me now ptr len none honest h k = h
msgsnd_at-IsWell mem n me now ptr len (some (idx, q)) honest h k = ground (
  arith,
  h,
  send_type-IsWell mem n me now idx q ptr len (mem.read_long ptr) honest h (k idx q refl),
)

msgrcv_at-IsWell :
    (mem : Memory) (n : Namespace) (me now : ℕ) (c : Config) (o : Option (ℕ × Queue))
    → IsWell n
    → ((idx : ℕ) (q : Queue) → o ≡ some (idx, q) → IsQueue q)
    → IsWell (msgrcv_at mem n me now c o).0
unfolding msgrcv_at
msgrcv_at-IsWell mem n me now c none h k = h
msgrcv_at-IsWell mem n me now c (some (idx, q)) h k = All-set IsQueue n.queues idx _ h (
    Effect-IsQueue q (do_msgrcv mem c q idx me now) (do_msgrcv-Effect mem c q idx me now)
      (k idx q refl))

-- What a retry leaves; the program stops where an assertion fails.
abbrev pub after : Namespace → Retried → Namespace
after n aborted = n
after n (passed_on st n') = n'
after n (received r n') = n'

retry_end-queue : (r : Receipt) → (retry_end r).queue ≡ r.queue
retry_end-queue r = ground arith

retry_at-IsWell :
    (mem : Memory) (n : Namespace) (me now : ℕ) (c : Config) (o : Option Queue)
    → IsWell n
    → ((q : Queue) → o ≡ some q → IsQueue q)
    → IsWell (after n (retry_at mem n me now c o))
unfolding retry_at
retry_at-IsWell mem n me now c none h k = h
retry_at-IsWell mem n me now c (some q) h k =
    let idx = c.waiting_object_index in
    let r = do_msgrcv mem c q idx me now in
    let kept : IsQueue (retry_end r).queue =
      subst IsQueue (sym (retry_end-queue r))
        (Effect-IsQueue q r (do_msgrcv-Effect mem c q idx me now) (k q refl)) in
    ground (arith, h, All-set IsQueue n.queues idx (retry_end r).queue h kept)

retry-IsWell :
    (mem : Memory) (n : Namespace) (me now : ℕ) (c : Config)
    → IsWell n
    → IsWell (after n (msgrcv_retry_call mem n me now c))
unfolding msgrcv_retry_call
retry-IsWell mem n me now c h = ground (
  arith,
  h,
  retry_at-IsWell mem n me now c (get_elem? n.queues c.waiting_object_index) h
      (λ q e. All-get IsQueue n.queues c.waiting_object_index q h e),
)

msgctl_at-IsWell :
    (mem : Memory) (n : Namespace) (cmd buf : ℕ) (o : Option (ℕ × Queue))
    → IsWell n
    → IsWell (msgctl_at mem n cmd buf o).1
unfolding msgctl_at rmid
msgctl_at-IsWell mem n cmd buf none h = h
msgctl_at-IsWell mem n cmd buf (some (idx, q)) h = ground (
  arith,
  h,
  All-set IsQueue n.queues idx
      (record q { valid = false; generation = (q.generation + 1) % 2 ^ 16; items = [] }) h
      (λ v. cc),
)

-- A call of a tracee: its memory and configuration at that moment, its pid, the time, the arguments.
pub data Call : Type 0 where
  get : ℕ → ℕ → Call
  snd : Memory → ℕ → ℕ → ℕ → ℕ → ℕ → Call
  rcv : Memory → Config → ℕ → ℕ → ℕ → ℕ → ℕ → ℕ → ℕ → Call
  retry : Memory → Config → ℕ → ℕ → Call
  ctl : Memory → ℕ → ℕ → ℕ → Call

pub step : Namespace → Call → Namespace
step n (get key flg) = (msgget n key flg).1
step n (snd mem me now id ptr len) = (msgsnd mem n me now id ptr len).1
step n (rcv mem c me now id ptr size typ flg) = (msgrcv mem n me now c id ptr size typ flg).0
step n (retry mem c me now) = after n (msgrcv_retry_call mem n me now c)
step n (ctl mem id cmd buf) = (msgctl mem n id cmd buf).1

-- The memory that a call sends from is honest.
abbrev pub SendsHonestly : Call → Type 0
SendsHonestly (snd mem me now id ptr len) = IsHonest mem
SendsHonestly _ = Unit {0}

step-IsWell : (n : Namespace) (c : Call) → SendsHonestly c → IsWell n → IsWell (step n c)
unfolding step msgsnd msgrcv msgctl
step-IsWell n (get key flg) a h = msgget-IsWell n key flg h
step-IsWell n (snd mem me now id ptr len) a h =
    msgsnd_at-IsWell mem n me now ptr len (lookup_object n.queues id) a h
      (λ idx q e. found-IsQueue n id idx q h e)
step-IsWell n (rcv mem c me now id ptr size typ flg) a h =
    msgrcv_at-IsWell mem n me now (with_arguments c ptr size typ flg) (lookup_object n.queues id) h
      (λ idx q e. found-IsQueue n id idx q h e)
step-IsWell n (retry mem c me now) a h = retry-IsWell mem n me now c h
step-IsWell n (ctl mem id cmd buf) a h =
    msgctl_at-IsWell mem n (plain_command (int32 cmd)) buf (lookup_object n.queues id) h

pub run_messages : Namespace → List Call → Namespace
run_messages n [] = n
run_messages n (c ∷ cs) = run_messages (step n c) cs

-- Whatever calls the tracees make, where a read of text gives the bytes asked for, each valid queue
-- holds only messages of 1 to 0xffff bytes, msg_qnum counts them and msg_cbytes counts their bytes,
-- as 64-bit words, and its generation is 0.
pub run_messages-IsWell :
    (n : Namespace) (cs : List Call) → All SendsHonestly cs → IsWell n → IsWell (run_messages n cs)
unfolding run_messages
run_messages-IsWell n [] a h = h
run_messages-IsWell n (c ∷ cs) a h = run_messages-IsWell (step n c) cs a.1 (step-IsWell n c a.0 h)
