-- ===== src/Sysvipc/Semaphore/Tests.antt =====
-- Witnesses and runs at concrete inputs.
use neoproot.Base.{◌++◌, ◌≡◌, refl, true, false, List, [], ◌∷◌, none, some, arith, get_elem?}
use neoproot.Base.Int.{pos, negsuc}
use neoproot.Sysvipc.State.{
  Sembuf, Config, Tracee, not_waiting, wait_semop, idle, entered_ppoll, not_chained, lookup_object,
  object_id, scan, with_config,
}
use neoproot.Sysvipc.Semaphore.{Semaphore, semaphore_object, sem_check, commit}
use neoproot.Sysvipc.Semaphore.Calls.{World, blank, semget, semop_on, start_wait, rmid, got}
use neoproot.Sysvipc.Semaphore.Ops.{IsResult}
use neoproot.Sysvipc.Semaphore.Fit.{IsFit, IsWell}
use neoproot.Sysvipc.Semaphore.Invariant.{get, op, ctl, timeout, run, run-IsWell}
use neoproot.Sysvipc.Semaphore.Identity.{LeadsTo, semget-LeadsTo, semget_revives_id}
use neoproot.Sysvipc.Semaphore.Conservation.{passed, served, semop_on-IsResult}

abbrev at_rest : Config
at_rest = record {
  ipc_namespace = 1;
  wait_reason = not_waiting;
  wait_state = idle;
  chain_state = not_chained;
  status_after_wait = pos 0;
  waiting_object_index = 0;
  msgrcv_msgp = 0;
  msgrcv_msgsz = 0;
  msgrcv_msgtyp = pos 0;
  msgrcv_msgflg = 0;
  semop_sops = [];
}

abbrev take_two : List Sembuf
take_two = record { sem_num = 0; sem_op = negsuc 1; sem_flg = 0 } ∷ []

abbrev give_three : List Sembuf
give_three =
    record { sem_num = 0; sem_op = pos 3; sem_flg = 0 }
    ∷ record { sem_num = 1; sem_op = pos 1; sem_flg = 0 }
    ∷ []

abbrev caller : Tracee
caller = record { pid = 10; config = at_rest; stops = 0; sigstop_ignored = false }

abbrev waiter : Tracee
waiter = record {
  pid = 11;
  config = record at_rest {
    wait_reason = wait_semop;
    wait_state = entered_ppoll;
    semop_sops = take_two;
  };
  stops = 0;
  sigstop_ignored = false;
}

abbrev pair : Semaphore
pair = record { key = 5; generation = 0; valid = true; sems = 0 ∷ 7 ∷ []; nsems = 2 }

abbrev world : World
world = record { namespace = 1; semaphores = pair ∷ []; tracees = caller ∷ waiter ∷ [] }

abbrev pair-IsFit : IsFit pair
pair-IsFit = record {
  first_generation = refl;
  has_sems = omega arith;
  few_sems = omega arith;
  sized = refl;
  bounded = omega arith;
}

abbrev world-IsWell : IsWell world
world-IsWell = record { all_sets = ((λ v. pair-IsFit), tt); few_sets = omega arith }

run-IsWell_example : IsWell (
    run world (
      op (λ ptr n. got give_three) 10 1 0x1000 2
      ∷ ctl (λ p o. pos 0) 1 1 16 9
      ∷ ctl (λ p o. pos 0) 1 0 0 0
      ∷ get 9 3 0o1000
      ∷ timeout 11
      ∷ []))
run-IsWell_example =
    run-IsWell world
      (op (λ ptr n. got give_three) 10 1 0x1000 2
        ∷ ctl (λ p o. pos 0) 1 1 16 9
        ∷ ctl (λ p o. pos 0) 1 0 0 0
        ∷ get 9 3 0o1000
        ∷ timeout 11
        ∷ [])
      world-IsWell

semget-LeadsTo_example : LeadsTo (semget world 9 3 0o1000).1.semaphores 2 9 3
unfolding semget object_id scan
semget-LeadsTo_example = semget-LeadsTo world 9 3 0o1000 2 world-IsWell refl

semget_revives_id_example :
    (lookup_object (rmid world 0 pair).semaphores 1 ≡ none)
    × (lookup_object (semget (rmid world 0 pair) 9 3 0o1000).1.semaphores 1 ≡ some (0, blank 9 3))
unfolding lookup_object rmid scan
semget_revives_id_example =
    semget_revives_id world 0 1 9 3 0o1000 pair world-IsWell refl refl (omega arith) (omega arith)
      refl

semop_on-IsResult_example :
    (sem' : Semaphore) × (get_elem? (semop_on world 10 0 pair give_three).1.semaphores 0
      ≡ some sem')
    × IsResult
        (0 ∷ 7 ∷ [])
        (passed (sem_check give_three pair) give_three
          ++ served 1 10 0
              (commit pair (sem_check give_three pair))
              (with_config 10 (start_wait 0 give_three) world.tracees))
        sem'.sems
semop_on-IsResult_example = semop_on-IsResult world 10 0 pair give_three refl refl pair-IsFit
