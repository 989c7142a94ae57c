-- ===== src/Frontend/Dispute/Examples.antt =====
-- The theorems on disputes at concrete calls.
use stellar_true_stub.Common.{◌≡◌, refl, ◌⊎◌, Option, String, some, List, [], ◌∷◌, ok, err}
use stellar_true_stub.Map
use stellar_true_stub.Frontend.Dispute.Types.{
  DisputeState, escalated, refunded, DisputeAction, ResolveOutcome, DisputeRecord,
  invalid_dispute_transition,
}
use stellar_true_stub.Frontend.Dispute.{
  is_valid_dispute_transition, get_dispute_state, resolve_outcome_to_state, get_dispute_record,
  clear_all_disputes,
}
use stellar_true_stub.Frontend.Dispute.Table.{Transition}
use stellar_true_stub.Frontend.Dispute.Calls.{
  Call, open_call, escalate_call, resolve_call, withdraw_call, action_of, perform, perform_cases,
}
use stellar_true_stub.Frontend.Dispute.Invariant.{IsWellFormed}
use stellar_true_stub.Frontend.Dispute.Traces.{Event, run, accepted, run-IsWellFormed}

abbrev event : Call → String → Event
event call c = record { call = call; contract_id = c; now = 7 }

-- Contract "a" is opened, escalated and resolved for the buyer; "b" is opened and withdrawn.
abbrev story : List Event
story =
    event (open_call "ann" (some "late") Option.none) "a"
    ∷ event (open_call "bob" Option.none Option.none) "b"
    ∷ event (escalate_call (some "see mail")) "a"
    ∷ event (withdraw_call "bob") "b"
    ∷ event (resolve_call "judge" (some ResolveOutcome.buyer_wins) Option.none) "a"
    ∷ []

abbrev more : List Event
more = event (withdraw_call "eve") "a" ∷ event (open_call "eve" Option.none Option.none) "a" ∷ []

story_ends :
    (get_dispute_state "a" (run story []) ≡ refunded)
    × (get_dispute_state "b" (run story []) ≡ DisputeState.withdrawn_by_claimant)
    × (accepted "a" story [] ≡ 3)
unfolding run accepted perform get_dispute_state Map.get Map.set is_valid_dispute_transition
    resolve_outcome_to_state
story_ends = (refl, refl, refl)

-- An escalated dispute cannot be withdrawn.
escalated_stays :
    (perform (withdraw_call "ann") "a" 9 (
      run
        (event (open_call "ann" Option.none Option.none) "a"
          ∷ event (escalate_call Option.none) "a"
          ∷ [])
        [])).1
    ≡ err (invalid_dispute_transition "a" escalated DisputeAction.withdraw)
unfolding run perform get_dispute_state Map.get Map.set is_valid_dispute_transition
escalated_stays = refl

perform_cases_example :
    ((r : DisputeRecord) × (perform (withdraw_call "eve") "a" 9 (run story [])
        ≡ (Map.set "a" r (run story []), ok r))
      × Transition (get_dispute_state "a" (run story [])) (action_of (withdraw_call "eve")) r.state)
    ⊎ ((perform (withdraw_call "eve") "a" 9 (run story []) ≡ (
      run story [],
      err (
          invalid_dispute_transition "a"
            (get_dispute_state "a" (run story []))
            (action_of (withdraw_call "eve"))),
    ))
        × ((t : DisputeState)
            → ¬ Transition
                (get_dispute_state "a" (run story []))
                (action_of (withdraw_call "eve"))
                t))
perform_cases_example = perform_cases (withdraw_call "eve") "a" 9 (run story [])

run-IsWellFormed_example : IsWellFormed (run story [])
run-IsWellFormed_example = run-IsWellFormed story

-- What is read is what stands in the store, and nothing does after a logout.
story_read :
    (c : String)
    → (get_dispute_record c (run story []) ≡ Map.get c (run story []))
      × (get_dispute_record c (clear_all_disputes (run story [])) ≡ Option.none)
unfolding get_dispute_record clear_all_disputes Map.get
story_read c = (refl, refl)
