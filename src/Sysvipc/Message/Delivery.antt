-- ===== src/Sysvipc/Message/Delivery.antt =====
-- What one receipt does: do_msgrcv and msg_deliver of src/extension/sysvipc/sysvipc_msg.c.
use neoproot.Base.{
  ℕ, ◌<◌, ◌≤◌, ◌≡◌, ◌⊎◌, ◌^◌, refl, ap, ◌∙◌, Bool, true, false, ◌||◌, List, [], ◌∷◌, ◌++◌, Option,
  none, some, arith, take, ltb, if◌then◌else◌, Bool-cases, inl, inr,
}
use neoproot.Base.Int.{pos, is_neg}
use neoproot.Base.Words.{add64, sub64}
use neoproot.Sysvipc.State.{Config, has, ipc_nowait}
use neoproot.Sysvipc.Message.{
  Item, Found, Queue, Out, type_word, text, Memory, Receipt, wants, is_copying, bad_flags, selected,
  receive, do_msgrcv, msg_deliver, msg_noerror, find, settle_receipt, remove,
}
use neoproot.Sysvipc.Message.Find.{NoMatch, find-first, IsSplit, find-IsSplit, find_at-IsSplit}

-- What a receiver reads of a message: its first `msgrcv_msgsz` bytes.
abbrev pub received_length : Config → Item → ℕ
received_length c m = if ltb c.msgrcv_msgsz m.mtext_length then c.msgrcv_msgsz else m.mtext_length

-- The receiver was given the message, and the queue keeps `left`.
pub record IsTaken (c : Config) (m : Item) (left : List Item) (r : Receipt) : Type 0 where
  pub status : r.status ≡ pos (received_length c m)
  pub kept : r.queue.items ≡ left
  pub unchanged : r.config ≡ c
  pub written :
      r.written
      ≡ (c.msgrcv_msgp, type_word m.mtype)
        ∷ (add64 c.msgrcv_msgp 8, text (take (received_length c m) m.mtext))
        ∷ []

receive-IsTaken :
    (mem : Memory) (c : Config) (q : Queue) (idx pid now : ℕ) (f : Found)
    → is_copying c ≡ false
    → (f.target.mtext_length ≤ c.msgrcv_msgsz ⊎ (has c.msgrcv_msgflg msg_noerror ≡ true))
    → received_length c f.target < 2 ^ 31
    → ((p : ℕ) (o : Out) → mem.write_data p o ≡ none)
    → IsTaken c f.target (f.before ++ f.behind) (receive mem c q idx pid now (some f))
unfolding receive msg_deliver
receive-IsTaken mem c q idx pid now f k fits small writes = ground (
  arith,
  writes c.msgrcv_msgp (type_word f.target.mtype),
  writes (add64 c.msgrcv_msgp 8) (text (take (received_length c f.target) f.target.mtext)),
)

-- Where a queue holds a message that the receiver wants, none before it that it wants, and it fits
-- or may be cut, an accepted receipt that does not copy gives the receiver that message's type and
-- first bytes and takes it out of the queue, with no other change of order.
pub do_msgrcv-IsTaken :
    (mem : Memory) (c : Config) (q : Queue) (idx pid now : ℕ) (before behind : List Item) (m : Item)
    → bad_flags c.msgrcv_msgflg ≡ false
    → is_copying c ≡ false
    → q.items ≡ before ++ m ∷ behind
    → NoMatch (wants c) before
    → wants c m ≡ true
    → (m.mtext_length ≤ c.msgrcv_msgsz ⊎ (has c.msgrcv_msgflg msg_noerror ≡ true))
    → received_length c m < 2 ^ 31
    → ((p : ℕ) (o : Out) → mem.write_data p o ≡ none)
    → IsTaken c m (before ++ behind) (do_msgrcv mem c q idx pid now)
unfolding do_msgrcv
do_msgrcv-IsTaken mem c q idx pid now before behind m g k e no_match w fits small writes =
    let found : Found = record { before = before; target = m; behind = behind } in
    let first : find (wants c) q.items ≡ some found =
      ap (find (wants c)) e ∙ find-first (wants c) before m behind no_match w in
    rw (g, k, first) (receive-IsTaken mem c q idx pid now found k fits small writes)

-- The same queue, but for who received last and when.
pub record IsSame (q r : Queue) : Type 0 where
  pub same_key : r.key ≡ q.key
  pub same_generation : r.generation ≡ q.generation
  pub same_valid : r.valid ≡ q.valid
  pub same_items : r.items ≡ q.items
  pub same_qnum : r.stats.msg_qnum ≡ q.stats.msg_qnum
  pub same_cbytes : r.stats.msg_cbytes ≡ q.stats.msg_cbytes

abbrev pub Effect : Queue → Receipt → Type 0
Effect q r =
    IsSame q r.queue
    ⊎ ((is_neg r.status ≡ false)
        × (f : Found) × (q.items ≡ f.before ++ f.target ∷ f.behind)
        × IsSame (remove q f) r.queue)

pub self-IsSame : (q : Queue) → IsSame q q
self-IsSame q = record {
  same_key = refl;
  same_generation = refl;
  same_valid = refl;
  same_items = refl;
  same_qnum = refl;
  same_cbytes = refl;
}

pub msg_deliver-IsSame :
    (mem : Memory) (c : Config) (q : Queue) (pid now : ℕ) (m : Item)
    → IsSame q (msg_deliver mem c q pid now m).queue
unfolding msg_deliver
msg_deliver-IsSame mem c q pid now m = ground (arith, self-IsSame q)

pub remove-IsSame : (q r : Queue) (f : Found) → IsSame q r → IsSame (remove q f) (remove r f)
remove-IsSame q r f h = record {
  same_key = h.same_key;
  same_generation = h.same_generation;
  same_valid = h.same_valid;
  same_items = refl;
  same_qnum = ap (λ n. sub64 n 1) h.same_qnum;
  same_cbytes = ap (λ n. sub64 n f.target.mtext_length) h.same_cbytes;
}

settle_receipt-Effect :
    (copy : Bool) (q : Queue) (f : Found) (r : Receipt)
    → q.items ≡ f.before ++ f.target ∷ f.behind
    → IsSame q r.queue
    → Effect q (settle_receipt copy f r)
settle_receipt-Effect copy q f r e h = elim (Bool-cases (is_neg r.status || copy)) [
  | inl stop ↦ rw stop (inl h)
  | inr go ↦ rw go (inr (ground arith, f, e, remove-IsSame q r.queue f h))
]

receive-Effect :
    (mem : Memory) (c : Config) (q : Queue) (idx pid now : ℕ) (o : Option Found)
    → IsSplit q.items o
    → Effect q (receive mem c q idx pid now o)
unfolding receive
receive-Effect mem c q idx pid now none e = elim (Bool-cases (has c.msgrcv_msgflg ipc_nowait)) [
  | inl b ↦ rw b (inl (self-IsSame q))
  | inr b ↦ rw b (inl (self-IsSame q))
]
receive-Effect mem c q idx pid now (some f) e =
    settle_receipt-Effect (is_copying c) q f (msg_deliver mem c q pid now f.target) e
      (msg_deliver-IsSame mem c q pid now f.target)

selected-IsSplit : (c : Config) (ms : List Item) → IsSplit ms (selected c ms)
selected-IsSplit c ms = elim (Bool-cases (is_copying c)) [
  | inl b ↦ rw b (find_at-IsSplit c.msgrcv_msgtyp ms)
  | inr b ↦ rw b (find-IsSplit (wants c) ms)
]

-- A receipt, whatever its arguments and whatever memory answers, leaves the messages and their
-- counts as they were, or its status is not negative and one message has left the queue, the
-- others in their order, with one message and its length taken off the counts.
pub do_msgrcv-Effect :
    (mem : Memory) (c : Config) (q : Queue) (idx pid now : ℕ)
    → Effect q (do_msgrcv mem c q idx pid now)
unfolding do_msgrcv
do_msgrcv-Effect mem c q idx pid now = elim (Bool-cases (bad_flags c.msgrcv_msgflg)) [
  | inl b ↦ rw b (inl (self-IsSame q))
  | inr b ↦
      rw b (receive-Effect mem c q idx pid now (selected c q.items) (selected-IsSplit c q.items))
]
