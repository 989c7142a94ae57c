-- ===== src/Frontend/Transfer/Examples.antt =====
-- The theorems on transfers at concrete calls.
use stellar_true_stub.Common.{◌+◌, ◌≤◌, ◌≡◌, refl, none, some, List, [], ◌∷◌, arith, eq_refl}
use stellar_true_stub.Map
use stellar_true_stub.Map.Laws
use stellar_true_stub.Map.Laws.{Every}
use stellar_true_stub.Frontend.Transfer.{
  TransferStore, completed, get_transfer_state, get_transfer_record, register_transfer,
  clear_all_transfers, TransferRecord,
}
use stellar_true_stub.Frontend.Transfer.Calls.{
  Call, initiate, accept, cancel, perform, Outcome, perform-Outcome, pending,
}
use stellar_true_stub.Frontend.Transfer.Traces.{Event, run, returned, rank, returned_bound}

abbrev event : Call → Event
event call = record { call = call; contract_id = "t1"; now = 7 }

-- A transfer is offered, a second one to somebody else is tried, and both sides answer.
abbrev story : List Event
story =
    event (initiate "ann" "bob" (some "0x1"))
    ∷ event (initiate "ann" "eve" none)
    ∷ event (accept (some "0x2"))
    ∷ event (cancel none)
    ∷ []

story_ends : (get_transfer_state "t1" (run story []) ≡ completed) × (returned "t1" story [] ≡ 2)
unfolding run returned perform get_transfer_state Map.get Map.set
story_ends = (refl, refl)

perform-Outcome_example : Outcome "t1" 9 (run story []) (cancel none)
perform-Outcome_example = perform-Outcome "t1" 9 (run story []) (cancel none)

returned_bound_example : returned "t1" story [] + rank (get_transfer_state "t1" []) ≤ 2
returned_bound_example = returned_bound "t1" story []

abbrev offered : TransferStore
offered = ("t1", pending "t1" "ann" "bob" none 3) ∷ []

-- A record that is registered again after a logout is read as it was.
registered :
    (r : TransferRecord)
    → r.contract_id ≡ "t1"
    → get_transfer_record "t1" (register_transfer r (clear_all_transfers (run story []))) ≡ some r
unfolding get_transfer_record register_transfer clear_all_transfers
registered r h = rw h (grind (arith, Laws.get-set, eq_refl))
