-- ===== src/Sysvipc/Message.antt =====
-- src/extension/sysvipc/sysvipc_msg.c: message queues, up to the receipt of a message. What the
-- memory of the calling tracee gives and takes is a parameter.
pub mod Calls
pub mod Receive
pub mod Find
pub mod Delivery
pub mod Outcome
pub mod Counts
pub mod Invariant
pub mod Handover
pub mod Retry
pub mod Tests
use neoproot.Base.{
  ℕ, zero, suc, ◌+◌, ◌-◌, ◌*◌, ◌≤◌, ◌≡◌, ◌^◌, Bool, true, false, not, ◌&&◌, ◌||◌, List, [], ◌∷◌,
  ◌++◌, Option, none, some, ltb, leb, ◌==◌, if◌then◌else◌, length, take, bit_and,
}
use neoproot.Base.Int.{ℤ, pos, negsuc, neg, is_neg}
use neoproot.Base.Words.{add64, sub64}
use neoproot.Sysvipc.State.{
  einval, e2big, enomsg, ipc_nowait, has, int32, int_of, wait_queue_recv, Config, Object,
}

abbrev pub max_msg_size : ℕ
max_msg_size = 0xffff

abbrev pub default_qbytes : ℕ
default_qbytes = 1024 * 64

abbrev pub msg_noerror : ℕ
msg_noerror = 0o10000

abbrev pub msg_except : ℕ
msg_except = 0o20000

abbrev pub msg_copy : ℕ
msg_copy = 0o40000

-- `struct SysVIpcMsgQueueItem`; `mtype` is the 64-bit word of the `long`.
pub record Item : Type 0 where
  pub mtype : ℕ
  pub mtext : List ℕ
  pub mtext_length : ℕ

-- The fields of `struct msqid_ds` that are set.
pub record Stats : Type 0 where
  pub msg_qnum : ℕ
  pub msg_cbytes : ℕ
  pub msg_qbytes : ℕ
  pub msg_lspid : ℕ
  pub msg_lrpid : ℕ
  pub msg_stime : ℕ
  pub msg_rtime : ℕ

-- `struct SysVIpcMsgQueue`; `items` is empty where the source has no list.
pub record Queue : Type 0 where
  pub key : ℕ
  pub generation : ℕ
  pub valid : Bool
  pub items : List Item
  pub stats : Stats

instance abbrev pub queue_object : Object Queue
queue_object = record { key = λ q. q.key; valid = λ q. q.valid; generation = λ q. q.generation }

-- What a call writes to the caller's memory.
pub data Out : Type 0 where
  type_word : ℕ → Out
  text : List ℕ → Out
  queue_stats : Stats → Out

-- What `read_data` gives.
pub data Fetched {ℓ} (A : Type ℓ) : Type ℓ where
  faulted : ℕ → Fetched A
  got : A → Fetched A

-- The memory of the calling tracee: `some e` of a write is the negative status -(e + 1).
pub record Memory : Type 0 where
  pub read_long : ℕ → Fetched ℕ
  pub read_text : ℕ → ℕ → Fetched (List ℕ)
  pub write_data : ℕ → Out → Option ℕ

abbrev pub same_int : ℤ → ℤ → Bool
same_int (pos m) (pos n) = m == n
same_int (negsuc m) (negsuc n) = m == n
same_int (pos m) (negsuc n) = false
same_int (negsuc m) (pos n) = false

-- `receiver_filter < 0 && sender_type <= -receiver_filter`; the source is undefined at the least
-- `int`.
abbrev pub within : ℤ → ℤ → Bool
within sender (pos n) = false
within (pos m) (negsuc n) = leb m (suc n)
within (negsuc m) (negsuc n) = true

unfoldable pub msg_match : ℤ → ℤ → ℕ → Bool
msg_match sender filter flag =
    let matched = same_int filter (pos 0) || same_int sender filter || within sender filter in
    if has flag msg_except then not matched else matched

-- The type of an item as the `int` that `msg_match` takes.
abbrev pub sender_type : Item → ℤ
sender_type m = int_of (int32 m.mtype)

abbrev pub wants : Config → Item → Bool
wants c m = msg_match (sender_type m) c.msgrcv_msgtyp c.msgrcv_msgflg

-- A message of a queue, with those before it and those behind it.
pub record Found : Type 0 where
  pub before : List Item
  pub target : Item
  pub behind : List Item

abbrev pub past : Item → Option Found → Option Found
past m none = none
past m (some f) = some (record f { before = m ∷ f.before })

-- The first message that matches.
unfoldable pub find : (Item → Bool) → List Item → Option Found
find p [] = none
find p (m ∷ ms) =
    let rest = past m (find p ms) in
    if p m then some (record { before = []; target = m; behind = ms }) else rest

-- The message at an index, for MSG_COPY; a negative index is never reached.
unfoldable pub find_at : ℤ → List Item → Option Found
find_at (negsuc n) ms = none
find_at (pos n) [] = none
find_at (pos zero) (m ∷ ms) = some (record { before = []; target = m; behind = ms })
find_at (pos (suc n)) (m ∷ ms) = past m (find_at (pos n) ms)

-- What a receipt ends with: the status, the caller's configuration, the queue, and what was written.
pub record Receipt : Type 0 where
  pub status : ℤ
  pub config : Config
  pub queue : Queue
  pub written : List (ℕ × Out)

abbrev deliver_end : Config → Queue → ℕ → ℕ → Out → Out → ℕ → Option ℕ → Receipt
deliver_end c q pid now head body len (some e) = record {
  status = negsuc e;
  config = c;
  queue = q;
  written = (c.msgrcv_msgp, head) ∷ [];
}
deliver_end c q pid now head body len none = record {
  status = int_of (int32 len);
  config = c;
  queue = record q { stats = record (q.stats) { msg_lrpid = pid; msg_rtime = now } };
  written = (c.msgrcv_msgp, head) ∷ (add64 c.msgrcv_msgp 8, body) ∷ [];
}

abbrev deliver_text : Memory → Config → Queue → ℕ → ℕ → Item → ℕ → Option ℕ → Receipt
deliver_text mem c q pid now m len (some e) = record {
  status = negsuc e;
  config = c;
  queue = q;
  written = [];
}
deliver_text mem c q pid now m len none =
    deliver_end c q pid now (type_word m.mtype) (text (take len m.mtext)) len
      (mem.write_data (add64 c.msgrcv_msgp 8) (text (take len m.mtext)))

unfoldable pub msg_deliver : Memory → Config → Queue → ℕ → ℕ → Item → Receipt
msg_deliver mem c q pid now m =
    let too_long = ltb c.msgrcv_msgsz m.mtext_length in
    let len = if too_long then c.msgrcv_msgsz else m.mtext_length in
    if too_long && not (has c.msgrcv_msgflg msg_noerror)
    then record { status = neg e2big; config = c; queue = q; written = [] }
    else deliver_text mem c q pid now m len (mem.write_data c.msgrcv_msgp (type_word m.mtype))

-- The queue without a message that was received.
abbrev pub remove : Queue → Found → Queue
remove q f = record q {
  items = f.before ++ f.behind;
  stats = record (q.stats) {
    msg_qnum = sub64 q.stats.msg_qnum 1;
    msg_cbytes = sub64 q.stats.msg_cbytes f.target.mtext_length;
  };
}

abbrev pub settle_receipt : Bool → Found → Receipt → Receipt
settle_receipt is_copy f r =
    if is_neg r.status || is_copy then r else record r { queue = remove r.queue f }

abbrev pub is_copying : Config → Bool
is_copying c = has c.msgrcv_msgflg msg_copy

unfoldable pub receive : Memory → Config → Queue → ℕ → ℕ → ℕ → Option Found → Receipt
unfolding msg_deliver
receive mem c q idx pid now none =
    if has c.msgrcv_msgflg ipc_nowait
    then record { status = neg enomsg; config = c; queue = q; written = [] }
    else (let waiting : Config = record c {
      wait_reason = wait_queue_recv;
      waiting_object_index = idx;
    } in
        record { status = pos 0; config = waiting; queue = q; written = [] })
receive mem c q idx pid now (some f) =
    settle_receipt (is_copying c) f (msg_deliver mem c q pid now f.target)

-- The flags that `do_msgrcv` refuses.
abbrev pub bad_flags : ℕ → Bool
bad_flags flg =
    not (bit_and flg (2 ^ 32 - 1 - (ipc_nowait + msg_noerror + msg_copy + msg_except)) == 0)
    || (has flg msg_copy && (not (has flg ipc_nowait) || has flg msg_except))

abbrev pub selected : Config → List Item → Option Found
selected c ms = if is_copying c then find_at c.msgrcv_msgtyp ms else find (wants c) ms

-- do_msgrcv. Its test `msgrcv_msgsz < 0` is on a `size_t` and never holds.
unfoldable pub do_msgrcv : Memory → Config → Queue → ℕ → ℕ → ℕ → Receipt
unfolding receive
do_msgrcv mem c q idx pid now =
    if bad_flags c.msgrcv_msgflg
    then record { status = neg einval; config = c; queue = q; written = [] }
    else receive mem c q idx pid now (selected c q.items)
