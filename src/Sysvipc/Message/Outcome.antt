-- ===== src/Sysvipc/Message/Outcome.antt =====
-- Every outcome of do_msgrcv in src/extension/sysvipc/sysvipc_msg.c, and which message it is about.
use neoproot.Base.{
  ℕ, ◌≡◌, ◌⊎◌, Bool, true, false, List, [], ◌∷◌, ◌++◌, Option, none, some, take, length,
}
use neoproot.Base.Int.{ℤ, pos, is_neg}
use neoproot.Base.Words.{add64}
use neoproot.Sysvipc.State.{Config, int32, int_of, wait_queue_recv}
use neoproot.Sysvipc.Message.{
  Item, Found, Queue, type_word, text, Receipt, wants, is_copying, remove,
}
use neoproot.Sysvipc.Message.Find.{NoMatch}
use neoproot.Sysvipc.Message.Delivery.{received_length, IsSame}

-- The first message that matches, or that there is none.
abbrev pub IsFirst : (Item → Bool) → List Item → Option Found → Type 0
IsFirst p ms none = NoMatch p ms
IsFirst p ms (some f) =
    (ms ≡ f.before ++ f.target ∷ f.behind) × NoMatch p f.before × (p f.target ≡ true)

-- The message at an index.
abbrev pub IsAt : ℤ → List Item → Option Found → Type 0
IsAt i ms none = Unit {0}
IsAt i ms (some f) = (ms ≡ f.before ++ f.target ∷ f.behind) × (pos (length f.before) ≡ i)

-- The receiver was given this message: its type, and its first bytes behind that.
abbrev pub IsGiven : Config → Item → Receipt → Type 0
IsGiven c m r =
    (r.status ≡ int_of (int32 (received_length c m)))
    × (r.config ≡ c)
    × (r.written
        ≡ (c.msgrcv_msgp, type_word m.mtype)
          ∷ (add64 c.msgrcv_msgp 8, text (take (received_length c m) m.mtext))
          ∷ [])

abbrev pub IsRefused : Config → Queue → Receipt → Type 0
IsRefused c q r = (is_neg r.status ≡ true) × (r.config ≡ c) × IsSame q r.queue

abbrev pub IsWaiting : Config → Queue → ℕ → Receipt → Type 0
IsWaiting c q idx r =
    NoMatch (wants c) q.items
    × (r.status ≡ pos 0)
    × (r.written ≡ [])
    × (r.config ≡ record c { wait_reason = wait_queue_recv; waiting_object_index = idx })
    × IsSame q r.queue

abbrev pub IsCopied : Config → Queue → Receipt → Type 0
IsCopied c q r =
    (is_copying c ≡ true)
    × (f : Found) × IsAt c.msgrcv_msgtyp q.items (some f)
    × IsGiven c f.target r
    × IsSame q r.queue

abbrev pub IsReceived : Config → Queue → Receipt → Type 0
IsReceived c q r =
    (is_copying c ≡ false)
    × (f : Found) × IsFirst (wants c) q.items (some f)
    × IsGiven c f.target r
    × IsSame (remove q f) r.queue

abbrev pub EndsReceipt : Config → Queue → ℕ → Receipt → Type 0
EndsReceipt c q idx r =
    IsRefused c q r ⊎ (IsWaiting c q idx r ⊎ (IsCopied c q r ⊎ IsReceived c q r))
