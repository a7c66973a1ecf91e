-- ===== src/Sysvipc/Message/Tests.antt =====
-- Witnesses and runs at concrete inputs.
use neoproot.Base.{
  ℕ, ◌≡◌, refl, true, false, List, [], ◌∷◌, none, some, arith, get_elem?, ap, sym, ◌∙◌, length,
  replicate, length-replicate, inl,
}
use neoproot.Base.Int.{pos, negsuc}
use neoproot.Sysvipc.State.{
  Config, Tracee, not_waiting, wait_queue_recv, idle, entered_ppoll, not_chained,
}
use neoproot.Sysvipc.Message.{Fetched, Item, Queue, Memory, faulted, got, msg_match, do_msgrcv}
use neoproot.Sysvipc.Message.Calls.{Namespace, blank, append_item, waits_for, send, rmid}
use neoproot.Sysvipc.Message.Receive.{msgrcv_retry_call, aborted}
use neoproot.Sysvipc.Message.Delivery.{IsTaken, do_msgrcv-IsTaken}
use neoproot.Sysvipc.Message.Counts.{IsWell}
use neoproot.Sysvipc.Message.Invariant.{
  IsHonest, get, snd, rcv, retry, ctl, run_messages, run_messages-IsWell,
}
use neoproot.Sysvipc.Message.Handover.{IsHandover, retrying, send-IsHandover}
use neoproot.Sysvipc.Message.Retry.{OnReceived, HasReceived, send_then_retry, retry_after_rmid}

-- Waits for a message of type 3 with a buffer of 16 bytes.
abbrev receiver : Config
receiver = record {
  ipc_namespace = 1;
  wait_reason = wait_queue_recv;
  wait_state = entered_ppoll;
  chain_state = not_chained;
  status_after_wait = pos 0;
  waiting_object_index = 0;
  msgrcv_msgp = 0x1000;
  msgrcv_msgsz = 16;
  msgrcv_msgtyp = pos 3;
  msgrcv_msgflg = 0;
  semop_sops = [];
}

abbrev waiter : Tracee
waiter = record { pid = 11; config = receiver; stops = 0; sigstop_ignored = false }

abbrev sender : Tracee
sender = record {
  pid = 10;
  config = record receiver { wait_reason = not_waiting; wait_state = idle };
  stops = 0;
  sigstop_ignored = false;
}

abbrev hello : Item
hello = record { mtype = 3; mtext = 104 ∷ 105 ∷ []; mtext_length = 2 }

abbrev other_type : Item
other_type = record { mtype = 4; mtext = 7 ∷ []; mtext_length = 1 }

abbrev empty_queue : Queue
empty_queue = blank 5

abbrev busy_queue : Queue
busy_queue = append_item (append_item empty_queue other_type 10 99) hello 10 100

abbrev namespace_of_two : Namespace
namespace_of_two = record { id = 1; queues = empty_queue ∷ []; tracees = waiter ∷ sender ∷ [] }

-- Reads type 3 and zeros, and takes any write.
abbrev zeros : Memory
zeros = record {
  read_long = λ ptr. got 3;
  read_text = λ ptr len. got (replicate len 0);
  write_data = λ ptr out. none;
}

abbrev text_of : Fetched (List ℕ) → List ℕ
text_of (faulted e) = []
text_of (got bytes) = bytes

zeros-IsHonest : IsHonest zeros
zeros-IsHonest ptr len bytes e = ap (λ r. length (text_of r)) (sym e) ∙ length-replicate len 0

namespace_of_two-IsWell : IsWell namespace_of_two
namespace_of_two-IsWell =
    ((λ v. record { first_generation = refl; sized = tt; counted = refl; weighed = refl }), tt)

-- A receiver of type 3 matches 3, one of -3 matches up to 3, and MSG_EXCEPT turns the answer round.
msg_match_test :
    (msg_match (pos 3) (pos 3) 0 ≡ true)
    × (msg_match (pos 2) (negsuc 2) 0 ≡ true)
    × (msg_match (pos 4) (negsuc 2) 0 ≡ false)
    × (msg_match (pos 3) (pos 3) 0o20000 ≡ false)
unfolding msg_match
msg_match_test = (refl, refl, refl, refl)

do_msgrcv-IsTaken_example :
    IsTaken receiver hello (other_type ∷ []) (do_msgrcv zeros receiver busy_queue 0 11 7)
unfolding msg_match
do_msgrcv-IsTaken_example =
    do_msgrcv-IsTaken zeros receiver busy_queue 0 11 7 (other_type ∷ []) [] hello refl refl refl
      (refl, tt) refl (inl (omega arith)) (omega arith) (λ p o. refl)

run_messages-IsWell_example : IsWell (
    run_messages namespace_of_two (
      snd zeros 10 100 1 0x2000 2
      ∷ retry zeros (retrying waiter).config 11 101
      ∷ rcv zeros receiver 11 102 1 0x1000 16 0 0
      ∷ get 9 0o1000
      ∷ ctl zeros 1 0 0
      ∷ []))
run_messages-IsWell_example =
    run_messages-IsWell namespace_of_two
      (snd zeros 10 100 1 0x2000 2
        ∷ retry zeros (retrying waiter).config 11 101
        ∷ rcv zeros receiver 11 102 1 0x1000 16 0 0
        ∷ get 9 0o1000
        ∷ ctl zeros 1 0 0
        ∷ [])
      (zeros-IsHonest, (tt, (tt, (tt, (tt, tt))))) namespace_of_two-IsWell

send-IsHandover_example :
    ((send namespace_of_two 10 100 0 empty_queue hello).1.queues
      ≡ append_item empty_queue hello 10 100 ∷ [])
    × IsHandover
        (waits_for 1 0 hello)
        (waiter ∷ sender ∷ [])
        (send namespace_of_two 10 100 0 empty_queue hello).1.tracees
send-IsHandover_example = send-IsHandover namespace_of_two 10 100 0 empty_queue hello

send_then_retry_example :
    OnReceived
      (msgrcv_retry_call zeros
        (send namespace_of_two 10 100 0 empty_queue hello).1
        11
        101
        (retrying waiter).config)
      (HasReceived (retrying waiter).config hello [])
unfolding msg_match
send_then_retry_example =
    send_then_retry zeros namespace_of_two 10 100 101 0 empty_queue hello waiter (omega arith) refl
      refl tt refl refl (omega arith) (omega arith) (λ p o. refl)

retry_after_rmid_example :
    (get_elem? (rmid (send namespace_of_two 10 100 0 empty_queue hello).1 0 busy_queue).tracees 0
      ≡ some (retrying waiter))
    × (msgrcv_retry_call zeros
          (rmid (send namespace_of_two 10 100 0 empty_queue hello).1 0 busy_queue)
          11
          101
          (retrying waiter).config
        ≡ aborted)
unfolding msg_match
retry_after_rmid_example =
    retry_after_rmid zeros namespace_of_two 10 100 101 0 empty_queue busy_queue hello waiter
      (sender ∷ []) refl (omega arith) refl
