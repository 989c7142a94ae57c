-- ===== src/Frontend/Dispute/Calls.antt =====
-- The four calls of dispute-state-machine.ts that move a dispute, as one type, and what each does.
use stellar_true_stub.Common.{
  ℕ, ◌≡◌, refl, ◌≢◌, ◌⊎◌, inl, inr, String, true, false, Option, some, ok, err, Action, arith,
  Option-cases, Bool-cases,
}
use stellar_true_stub.Map
use stellar_true_stub.Frontend.Dispute.Types.{
  DisputeState, opened, escalated, withdrawn_by_claimant, DisputeAction, ResolveOutcome,
  DisputeRecord, DisputeError, invalid_dispute_transition, DisputeStore,
}
use stellar_true_stub.Frontend.Dispute.{
  is_valid_dispute_transition, get_dispute_state, resolve_outcome_to_state, open_dispute,
  escalate_dispute, resolve_dispute, withdraw_dispute,
}
use stellar_true_stub.Frontend.Dispute.Table.{
  Verdict, is_resolved, is_refunded, is_released, Transition, opens, escalates, withdraws, resolves,
  settles, valid_transition_iff,
}

pub data Call : Type 0 where
  open_call : String → Option String → Option String → Call
  escalate_call : Option String → Call
  resolve_call : String → Option ResolveOutcome → Option String → Call
  withdraw_call : String → Call

unfoldable pub action_of : Call → DisputeAction
action_of (open_call by reason tx) = DisputeAction.open_dispute
action_of (escalate_call memo) = DisputeAction.escalate
action_of (resolve_call by outcome tx) = DisputeAction.resolve
action_of (withdraw_call by) = DisputeAction.withdraw

unfoldable pub perform : Call → String → ℕ → Action DisputeStore DisputeError DisputeRecord
unfolding open_dispute escalate_dispute resolve_dispute withdraw_dispute
perform (open_call by reason tx) c now = open_dispute c by reason tx now
perform (escalate_call memo) c now = escalate_dispute c memo
perform (resolve_call by outcome tx) c now = resolve_dispute c by outcome tx now
perform (withdraw_call by) c now = withdraw_dispute c by now

abbrev escalating : Option String → DisputeRecord → DisputeRecord
escalating memo r = record r { state = escalated; escalation_note = memo }

abbrev resolving :
    String → Option ResolveOutcome → Option String → ℕ → DisputeRecord → DisputeRecord
resolving by outcome tx now r = record r {
  state = resolve_outcome_to_state outcome;
  resolved_at = some now;
  resolved_by = some by;
  outcome = outcome;
  tx_hash_resolve = tx;
}

abbrev withdrawing : String → ℕ → DisputeRecord → DisputeRecord
withdrawing by now r = record r {
  state = withdrawn_by_claimant;
  resolved_at = some now;
  resolved_by = some by;
}

-- What an accepted call stores, from the contract, the time and the record that is there.
unfoldable pub moved : Call → String → ℕ → Option DisputeRecord → Option DisputeRecord
moved (open_call by reason tx) c now old = some (record {
  contract_id = c;
  state = opened;
  opened_at = some now;
  resolved_at = Option.none;
  opened_by = by;
  resolved_by = Option.none;
  reason = reason;
  outcome = Option.none;
  tx_hash_open = tx;
  tx_hash_resolve = Option.none;
  escalation_note = Option.none;
})
moved (escalate_call memo) c now (some r) = some (escalating memo r)
moved (resolve_call by outcome tx) c now (some r) = some (resolving by outcome tx now r)
moved (withdraw_call by) c now (some r) = some (withdrawing by now r)
moved call c now Option.none = Option.none

-- The transition that each accepted action makes, from a state that is left as a variable.
open_transition :
    (s : DisputeState)
    → is_valid_dispute_transition s DisputeAction.open_dispute ≡ true
    → Transition s DisputeAction.open_dispute opened
unfolding is_valid_dispute_transition
open_transition DisputeState.none h = opens
open_transition _ h = cc

escalate_transition :
    (s : DisputeState)
    → is_valid_dispute_transition s DisputeAction.escalate ≡ true
    → Transition s DisputeAction.escalate escalated
unfolding is_valid_dispute_transition
escalate_transition opened h = escalates
escalate_transition _ h = cc

withdraw_transition :
    (s : DisputeState)
    → is_valid_dispute_transition s DisputeAction.withdraw ≡ true
    → Transition s DisputeAction.withdraw withdrawn_by_claimant
unfolding is_valid_dispute_transition
withdraw_transition opened h = withdraws
withdraw_transition _ h = cc

outcome-Verdict : (o : Option ResolveOutcome) → Verdict (resolve_outcome_to_state o)
unfolding resolve_outcome_to_state
outcome-Verdict Option.none = is_resolved
outcome-Verdict (some ResolveOutcome.buyer_wins) = is_refunded
outcome-Verdict (some ResolveOutcome.seller_wins) = is_released
outcome-Verdict (some ResolveOutcome.split) = is_resolved

resolve_transition :
    (s : DisputeState) (o : Option ResolveOutcome)
    → is_valid_dispute_transition s DisputeAction.resolve ≡ true
    → Transition s DisputeAction.resolve (resolve_outcome_to_state o)
unfolding is_valid_dispute_transition
resolve_transition opened o h = resolves (outcome-Verdict o)
resolve_transition escalated o h = settles (outcome-Verdict o)
resolve_transition _ o h = cc

-- Only opening is accepted where no record is stored.
stored_of_valid :
    (c : String) (s : DisputeStore) (a : DisputeAction)
    → is_valid_dispute_transition (get_dispute_state c s) a ≡ true
    → a ≢ DisputeAction.open_dispute
    → (r : DisputeRecord) × (Map.get c s ≡ some r)
unfolding is_valid_dispute_transition get_dispute_state
stored_of_valid c s a h ne = elim (Option-cases (Map.get c s)) [
  | inl e ↦ absurd (ground arith)
  | inr found ↦ found
]

module _ (c : String) (now : ℕ) (s : DisputeStore) where
  -- A call that its guard refuses.
  pub perform_refused :
      (call : Call)
      → is_valid_dispute_transition (get_dispute_state c s) (action_of call) ≡ false
      → perform call c now s
        ≡ (s, err (invalid_dispute_transition c (get_dispute_state c s) (action_of call)))
  unfolding perform action_of
  perform_refused (open_call by reason tx) h = ground arith
  perform_refused (escalate_call memo) h = ground arith
  perform_refused (resolve_call by outcome tx) h = ground arith
  perform_refused (withdraw_call by) h = ground arith

  -- A call that its guard accepts finds the record that it needs.
  pub perform_accepted :
      (call : Call)
      → is_valid_dispute_transition (get_dispute_state c s) (action_of call) ≡ true
      → (r : DisputeRecord) × (moved call c now (Map.get c s) ≡ some r)
        × (perform call c now s ≡ (Map.set c r s, ok r))
        × Transition (get_dispute_state c s) (action_of call) r.state
  unfolding perform action_of moved
  perform_accepted (open_call by reason tx) h = (_, refl, ground arith, open_transition _ h)
  perform_accepted (escalate_call memo) h =
      let (r, found) = stored_of_valid c s _ h (λ e. cc) in
      (escalating memo r, rw found refl, ground arith, escalate_transition _ h)
  perform_accepted (resolve_call by outcome tx) h =
      let (r, found) = stored_of_valid c s _ h (λ e. cc) in
      (resolving by outcome tx now r, rw found refl, ground arith, resolve_transition _ outcome h)
  perform_accepted (withdraw_call by) h =
      let (r, found) = stored_of_valid c s _ h (λ e. cc) in
      (withdrawing by now r, rw found refl, ground arith, withdraw_transition _ h)

-- Each of the four calls, on each contract and store, does one of two things. Where the table has a
-- transition from the contract's state, the call stores and returns a record of that contract in a
-- state that the table allows. Where it has none, the call throws `InvalidDisputeTransitionError`
-- with the contract, its state and the action, and the store is as it was. So
-- `DisputeNotFoundError` is never thrown.
pub perform_cases :
    (call : Call) (c : String) (now : ℕ) (s : DisputeStore)
    → ((r : DisputeRecord) × (perform call c now s ≡ (Map.set c r s, ok r))
        × Transition (get_dispute_state c s) (action_of call) r.state)
      ⊎ ((perform call c now s
            ≡ (s, err (invalid_dispute_transition c (get_dispute_state c s) (action_of call))))
          × ((t : DisputeState) → ¬ Transition (get_dispute_state c s) (action_of call) t))
perform_cases call c now s =
    elim (Bool-cases (is_valid_dispute_transition (get_dispute_state c s) (action_of call))) [
      | inl h ↦ let (r, _, e, t) = perform_accepted c now s call h in inl (r, e, t)
      | inr h ↦
          inr (
            perform_refused c now s call h,
            λ t p. let v = (valid_transition_iff _ _).1 (t, p) in cc,
          )
    ]
