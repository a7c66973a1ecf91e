-- ===== src/Sysvipc/Message/Calls.antt =====
-- src/extension/sysvipc/sysvipc_msg.c: the entry points. `me` is the pid of the calling tracee,
-- `now` what time() returns.
use neoproot.Base.{
  ℕ, ◌+◌, ◌%◌, ◌^◌, Bool, true, false, not, ◌&&◌, ◌||◌, List, [], ◌∷◌, ◌++◌, Option, none, some,
  ltb, leb, ◌==◌, if◌then◌else◌, get_elem?, set, length,
}
use neoproot.Base.Int.{ℤ, pos, negsuc, neg}
use neoproot.Base.Words.{add64}
use neoproot.Sysvipc.State.{
  einval, enoent, eexist, eidrm, eagain, ipc_creat, ipc_excl, has, int32, int_of, plain_command,
  msgrcv_retry, Tracee, waits_queue, wake_tracee, wake_all, object_id, lookup_object, scan, Scan,
  existing, absent,
}
use neoproot.Sysvipc.Message.{
  Item, Queue, queue_object, queue_stats, Fetched, faulted, got, Memory, wants, default_qbytes,
  max_msg_size,
}

-- `struct SysVIpcNamespace` as these handlers use it, and the tracees.
pub record Namespace : Type 0 where
  pub id : ℕ
  pub queues : List Queue
  pub tracees : List Tracee

-- A new queue.
abbrev pub blank : ℕ → Queue
blank key = record {
  key = key;
  generation = 0;
  valid = true;
  items = [];
  stats = record {
    msg_qnum = 0;
    msg_cbytes = 0;
    msg_qbytes = default_qbytes;
    msg_lspid = 0;
    msg_lrpid = 0;
    msg_stime = 0;
    msg_rtime = 0;
  };
}

-- The id of the queue at this index, as the call returns it.
abbrev pub id_at : List Queue → ℕ → ℤ
id_at qs idx = elim (get_elem? qs idx) [
  | none ↦ neg einval
  | some q ↦ int_of (object_id idx q.generation)
]

unfoldable pub msgget_by : Namespace → ℕ → ℕ → Scan → ℤ × Namespace
msgget_by n key flg (existing idx) =
    if has flg ipc_creat && has flg ipc_excl then (neg eexist, n) else (id_at n.queues idx, n)
msgget_by n key flg (absent none) =
    let qs = n.queues ++ blank (int32 key) ∷ [] in
    if not (has flg ipc_creat)
    then (neg enoent, n)
    else (id_at qs (length n.queues), record n { queues = qs })
msgget_by n key flg (absent (some u)) =
    let qs = set n.queues u (blank (int32 key)) in
    if not (has flg ipc_creat) then (neg enoent, n) else (id_at qs u, record n { queues = qs })

-- sysvipc_msgget.
unfoldable pub msgget : Namespace → ℕ → ℕ → ℤ × Namespace
unfolding msgget_by
msgget n key flg = msgget_by n key flg (scan key n.queues 0 none)

-- The loop of msgsnd: the first tracee that waits on the queue for such a message is told to try
-- again.
unfoldable pub wake_receiver : (Tracee → Bool) → List Tracee → List Tracee
wake_receiver waits [] = []
wake_receiver waits (t ∷ ts) =
    let rest = wake_receiver waits ts in
    let retrying : Tracee = record t {
      config = record (t.config) { chain_state = msgrcv_retry };
    } in
    if waits t then wake_tracee retrying (neg eagain) ∷ ts else t ∷ rest

abbrev pub waits_for : ℕ → ℕ → Item → Tracee → Bool
waits_for ns idx m t = waits_queue ns idx t && wants t.config m

-- The queue with a new last message.
abbrev pub append_item : Queue → Item → ℕ → ℕ → Queue
append_item q m pid now = record q {
  items = q.items ++ m ∷ [];
  stats = record (q.stats) {
    msg_lspid = pid;
    msg_stime = now;
    msg_qnum = add64 q.stats.msg_qnum 1;
    msg_cbytes = add64 q.stats.msg_cbytes m.mtext_length;
  };
}

unfoldable pub send : Namespace → ℕ → ℕ → ℕ → Queue → Item → ℤ × Namespace
send n me now idx q m = (
  pos 0,
  record n {
    queues = set n.queues idx (append_item q m me now);
    tracees = wake_receiver (waits_for n.id idx m) n.tracees;
  },
)

unfoldable pub send_text : Namespace → ℕ → ℕ → ℕ → Queue → ℕ → ℕ → Fetched (List ℕ) → ℤ × Namespace
unfolding send
send_text n me now idx q mtype len (faulted e) = (negsuc e, n)
send_text n me now idx q mtype len (got bytes) =
    send n me now idx q (record { mtype = mtype; mtext = bytes; mtext_length = len })

-- A type below 1 is refused: 0, or a word that is negative as a `long`.
unfoldable pub send_type :
    Memory → Namespace → ℕ → ℕ → ℕ → Queue → ℕ → ℕ → Fetched ℕ → ℤ × Namespace
unfolding send_text
send_type mem n me now idx q ptr len (faulted e) = (negsuc e, n)
send_type mem n me now idx q ptr len (got mtype) =
    if mtype == 0 || leb (2 ^ 63) mtype
    then (neg einval, n)
    else send_text n me now idx q mtype len (mem.read_text (add64 ptr 8) len)

unfoldable pub msgsnd_at : Memory → Namespace → ℕ → ℕ → ℕ → ℕ → Option (ℕ × Queue) → ℤ × Namespace
unfolding send_type
msgsnd_at mem n me now ptr len none = (neg einval, n)
msgsnd_at mem n me now ptr len (some (idx, q)) =
    if len == 0 || ltb max_msg_size len
    then (neg einval, n)
    else send_type mem n me now idx q ptr len (mem.read_long ptr)

-- sysvipc_msgsnd.
unfoldable pub msgsnd : Memory → Namespace → ℕ → ℕ → ℕ → ℕ → ℕ → ℤ × Namespace
unfolding msgsnd_at
msgsnd mem n me now id ptr len = msgsnd_at mem n me now ptr len (lookup_object n.queues id)

-- IPC_RMID.
unfoldable pub rmid : Namespace → ℕ → Queue → Namespace
rmid n idx q = record n {
  queues =
      set n.queues idx
        (record q { valid = false; generation = (q.generation + 1) % 2 ^ 16; items = [] });
  tracees = wake_all (waits_queue n.id idx) (neg eidrm) n.tracees;
}

abbrev pub stat_status : Option ℕ → ℤ
stat_status none = pos 0
stat_status (some e) = negsuc e

unfoldable pub msgctl_at : Memory → Namespace → ℕ → ℕ → Option (ℕ × Queue) → ℤ × Namespace
unfolding rmid
msgctl_at mem n cmd buf none = (neg einval, n)
msgctl_at mem n cmd buf (some (idx, q)) =
    if cmd == 0
    then (pos 0, rmid n idx q)
    else if cmd == 2
    then (stat_status (mem.write_data buf (queue_stats q.stats)), n)
    else (neg einval, n)

-- sysvipc_msgctl.
unfoldable pub msgctl : Memory → Namespace → ℕ → ℕ → ℕ → ℤ × Namespace
unfolding msgctl_at
msgctl mem n id cmd_word buf =
    msgctl_at mem n (plain_command (int32 cmd_word)) buf (lookup_object n.queues id)
