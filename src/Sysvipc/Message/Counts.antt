-- ===== src/Sysvipc/Message/Counts.antt =====
-- Every call of src/extension/sysvipc/sysvipc_msg.c keeps the counts of the queues.
use neoproot.Base.{
  ℕ, ◌+◌, ◌%◌, ◌^◌, ◌<◌, ◌≤◌, ◌≡◌, ap, true, List, [], ◌∷◌, ◌++◌, arith, length, length-append, All,
  All-append, All-left, All-right, inl, inr,
}
use mathlib.Core.Path.{sym, ◌∙◌, subst}
use neoproot.Sysvipc.Message.{Item, Queue, queue_object, Found, Receipt, remove, max_msg_size}
use neoproot.Sysvipc.Message.Calls.{Namespace, append_item}
use neoproot.Sysvipc.Message.Delivery.{IsSame, Effect}

-- The bytes of all messages.
abbrev pub total : List Item → ℕ
total [] = 0
total (m ∷ ms) = m.mtext_length + total ms

-- A message holds the bytes that it says, at least one and at most the limit.
abbrev pub IsSized : Item → Type 0
IsSized m =
    (0 < m.mtext_length) × (m.mtext_length ≤ max_msg_size) × (length m.mtext ≡ m.mtext_length)

-- The counts of a queue are those of its messages, as 64-bit words.
pub record IsSound (q : Queue) : Type 0 where
  pub first_generation : q.generation ≡ 0
  pub sized : All IsSized q.items
  pub counted : q.stats.msg_qnum ≡ length q.items % 2 ^ 64
  pub weighed : q.stats.msg_cbytes ≡ total q.items % 2 ^ 64

abbrev pub IsQueue : Queue → Type 0
IsQueue q = q.valid ≡ true → IsSound q

abbrev pub IsWell : Namespace → Type 0
IsWell n = All IsQueue n.queues

total-append : (ms ns : List Item) → total (ms ++ ns) ≡ total ms + total ns
total-append [] ns = omega arith
total-append (m ∷ ms) ns = omega (arith, total-append ms ns)

All-without :
    (P : Item → Type 0) (ms : List Item) (m : Item) (ns : List Item)
    → All P (ms ++ m ∷ ns)
    → All P (ms ++ ns)
All-without P ms m ns h =
    All-append P ms ns (All-left P ms (m ∷ ns) h) (All-right P ms (m ∷ ns) h).1

remove-IsSound :
    (q : Queue) (f : Found)
    → q.items ≡ f.before ++ f.target ∷ f.behind
    → IsSound q
    → IsSound (remove q f)
remove-IsSound q f e h =
    let split : All IsSized (f.before ++ f.target ∷ f.behind) = subst (All IsSized) e h.sized in
    let small : f.target.mtext_length ≤ max_msg_size = (All-right IsSized f.before _ split).0.1 in
    let count : length q.items ≡ length (f.before ++ f.target ∷ f.behind) = ap length e in
    let weight : total q.items ≡ total (f.before ++ f.target ∷ f.behind) = ap total e in
    record {
      first_generation = h.first_generation;
      sized = All-without IsSized f.before f.target f.behind split;
      counted = omega (
        arith,
        h.counted,
        count,
        length-append f.before (f.target ∷ f.behind),
        length-append f.before f.behind,
      );
      weighed = omega (
        arith,
        h.weighed,
        weight,
        small,
        total-append f.before (f.target ∷ f.behind),
        total-append f.before f.behind,
      );
    }

IsSame-IsQueue : (q r : Queue) → IsSame q r → IsQueue q → IsQueue r
IsSame-IsQueue q r s h v =
    let k = h (sym s.same_valid ∙ v) in
    record {
      first_generation = s.same_generation ∙ k.first_generation;
      sized = subst (All IsSized) (sym s.same_items) k.sized;
      counted = s.same_qnum ∙ k.counted ∙ ap (λ ms. length ms % 2 ^ 64) (sym s.same_items);
      weighed = s.same_cbytes ∙ k.weighed ∙ ap (λ ms. total ms % 2 ^ 64) (sym s.same_items);
    }

pub Effect-IsQueue : (q : Queue) (r : Receipt) → Effect q r → IsQueue q → IsQueue r.queue
Effect-IsQueue q r (inl s) h = IsSame-IsQueue q r.queue s h
Effect-IsQueue q r (inr (ok, f, e, s)) h =
    IsSame-IsQueue (remove q f) r.queue s (λ v. remove-IsSound q f e (h v))

pub append_item-IsQueue :
    (q : Queue) (m : Item) (pid now : ℕ) → IsSized m → IsQueue q → IsQueue (append_item q m pid now)
append_item-IsQueue q m pid now s h v = record {
  first_generation = (h v).first_generation;
  sized = All-append IsSized q.items (m ∷ []) (h v).sized (s, tt);
  counted = omega (arith, (h v).counted, length-append q.items (m ∷ []));
  weighed = omega (arith, (h v).weighed, total-append q.items (m ∷ []));
}
