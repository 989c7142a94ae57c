-- ===== src/Frontend/Dispute/Invariant.antt =====
-- What every stored record satisfies between two calls.
use stellar_true_stub.Common.{
  ℕ, ◌≡◌, ◌≢◌, inl, inr, String, true, false, Option, some, arith, Bool-cases, Option-cases,
  is_some,
}
use stellar_true_stub.Map
use stellar_true_stub.Map.Laws
use stellar_true_stub.Map.Laws.{Every}
use stellar_true_stub.Frontend.Dispute.Types.{
  DisputeState, refunded, released, buyer_wins, seller_wins, DisputeRecord, DisputeStore,
}
use stellar_true_stub.Frontend.Dispute.{
  terminal_dispute_states, is_valid_dispute_transition, get_dispute_state, resolve_outcome_to_state,
  register_dispute_record,
}
use stellar_true_stub.Frontend.Dispute.Calls.{
  Call, action_of, perform, moved, perform_refused, perform_accepted,
}

-- `r` may stand under the key `c`: it names that contract, is in a state after NONE, has a date
-- and an author of its end exactly when its state is terminal, and is REFUNDED exactly when the
-- buyer won and RELEASED exactly when the seller did.
pub record Fits (c : String) (r : DisputeRecord) : Type 0 where
  pub keyed : r.contract_id ≡ c
  pub begun : r.state ≢ DisputeState.none
  pub dated : is_some r.resolved_at ≡ terminal_dispute_states r.state
  pub signed : is_some r.resolved_by ≡ terminal_dispute_states r.state
  pub refund_of : r.state ≡ refunded → r.outcome ≡ some buyer_wins
  pub of_refund : r.outcome ≡ some buyer_wins → r.state ≡ refunded
  pub release_of : r.state ≡ released → r.outcome ≡ some seller_wins
  pub of_release : r.outcome ≡ some seller_wins → r.state ≡ released
  pub undecided : terminal_dispute_states r.state ≡ false → r.outcome ≡ Option.none

abbrev pub IsWellFormed : DisputeStore → Type 0
IsWellFormed s = Every Fits s

moved-Fits :
    (call : Call) (c : String) (now : ℕ) (old new : DisputeRecord)
    → is_valid_dispute_transition old.state (action_of call) ≡ true
    → Fits c old
    → moved call c now (some old) ≡ some new
    → Fits c new
unfolding moved action_of is_valid_dispute_transition resolve_outcome_to_state
moved-Fits call c now old new h f e = ground arith

-- Opening needs no record to start from.
opened-Fits :
    (call : Call) (c : String) (now : ℕ) (new : DisputeRecord)
    → moved call c now Option.none ≡ some new
    → Fits c new
unfolding moved terminal_dispute_states
opened-Fits call c now new e = ground arith

-- Every call, accepted or refused, keeps every stored record fit.
pub perform-IsWellFormed :
    (call : Call) (c : String) (now : ℕ) (s : DisputeStore)
    → IsWellFormed s
    → IsWellFormed (perform call c now s).0
unfolding get_dispute_state
perform-IsWellFormed call c now s w =
    elim (Bool-cases (is_valid_dispute_transition (get_dispute_state c s) (action_of call))) [
      | inl h ↦
          let (r, stored, e, _) = perform_accepted c now s call h in
          let fits : Fits c r = elim (Option-cases (Map.get c s)) [
            | inl missing ↦ opened-Fits call c now r (rw missing at stored)
            | inr (old, found) ↦
                moved-Fits call c now old r (rw (found, get_dispute_state) at h) (w c old found)
                  (rw found at stored)
          ] in
          rw e (Laws.Every-set Fits c r s fits w)
      | inr h ↦ rw (perform_refused c now s call h) w
    ]

-- Re-hydration keeps the store well-formed if the record that is given fits.
pub register_dispute_record-IsWellFormed :
    (r : DisputeRecord) (s : DisputeStore)
    → Fits r.contract_id r
    → IsWellFormed s
    → IsWellFormed (register_dispute_record r s)
unfolding register_dispute_record
register_dispute_record-IsWellFormed r s f w = Laws.Every-set Fits r.contract_id r s f w
