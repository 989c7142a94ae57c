-- ===== src/Backend/Transfer/Examples.antt =====
-- The theorems on the transfers of the service at concrete schedules.
use stellar_true_stub.Common.{ℕ, ◌≤◌, ◌≡◌, refl, List, [], ◌∷◌, arith}
use stellar_true_stub.Backend.Transfer.{
  accept, cancel, initiate, finalize, Step, arrive, go_on, step, advance, acquire, release, leave,
  drop_task, set_task, task_at, insert_if_absent, finalize_read, initiated, is_pending, is_valid,
}
use stellar_true_stub.Backend.Transfer.Serial.{
  IsSerial, start, run, decisions, decisions_bound, run-IsSerial,
}
use stellar_true_stub.Backend.Transfer.Draining.{IsIdle, going_on, run-going_on-IsIdle}

-- A transfer is initiated, and then accepted and cancelled at once: the second call waits.
abbrev race : List (Step × ℕ)
race =
    (arrive (initiate "e1" "ann" "bob"), 1)
    ∷ (go_on 0, 2)
    ∷ (arrive (finalize accept), 3)
    ∷ (go_on 0, 4)
    ∷ (arrive (finalize cancel), 5)
    ∷ (go_on 0, 6)
    ∷ []

abbrev rest : List (Step × ℕ)
rest = (go_on 0, 7) ∷ (go_on 0, 8) ∷ []

race_decides_one : (decisions "t1" race start ≡ 1) × (decisions "t1" rest (run "t1" race start) ≡ 0)
unfolding decisions run step acquire advance release leave drop_task set_task task_at
    insert_if_absent finalize_read initiated is_pending is_valid
race_decides_one = (refl, refl)

decisions_bound_example : decisions "t1" race start ≤ 1
decisions_bound_example = decisions_bound "t1" race

run-IsSerial_example : IsSerial (run "t1" race start)
run-IsSerial_example = run-IsSerial "t1" race

run-going_on-IsIdle_example :
    IsIdle (run "t1" (going_on (7 ∷ 8 ∷ 9 ∷ 10 ∷ [])) (run "t1" race start))
unfolding run step acquire advance release leave drop_task set_task task_at insert_if_absent
    finalize_read initiated is_pending is_valid
run-going_on-IsIdle_example = run-going_on-IsIdle "t1" race (7 ∷ 8 ∷ 9 ∷ 10 ∷ []) (omega arith)
