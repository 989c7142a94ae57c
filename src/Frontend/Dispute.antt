-- ===== src/Frontend/Dispute.antt =====
-- The operations of apps/frontend/src/lib/dispute/dispute-state-machine.ts. `new Date()` is the
-- argument `now`; an `options` object is one argument for each of its fields.
pub mod Types
pub mod Table
pub mod Calls
pub mod Invariant
pub mod Traces
mod Examples
use stellar_true_stub.Common.{
  ℕ, String, Bool, true, false, not, ◌&&◌, Option, some, [], if◌then◌else◌, Result, ok, err, Action,
  ◌>>=◌, ◌>>◌, get_store, put_store, pure, throw, is_some,
}
use stellar_true_stub.Map
use Types.{
  DisputeState, none, opened, escalated, resolved, refunded, released, withdrawn_by_claimant,
  DisputeAction, ResolveOutcome, buyer_wins, seller_wins, split, DisputeRecord, DisputeError,
  invalid_dispute_transition, dispute_not_found, DisputeStore,
}

-- `TERMINAL_DISPUTE_STATES.has`.
pub terminal_dispute_states : DisputeState → Bool
terminal_dispute_states resolved = true
terminal_dispute_states refunded = true
terminal_dispute_states released = true
terminal_dispute_states withdrawn_by_claimant = true
terminal_dispute_states _ = false

pub resolve_outcome_to_state : Option ResolveOutcome → DisputeState
resolve_outcome_to_state (some buyer_wins) = refunded
resolve_outcome_to_state (some seller_wins) = released
resolve_outcome_to_state _ = resolved

-- An entry of the table: a state, or a function of the outcome.
pub data Target : Type 0 where
  to : DisputeState → Target
  by_outcome : (Option ResolveOutcome → DisputeState) → Target

-- A row of `DISPUTE_TRANSITIONS`.
open_row : DisputeAction → Option Target
open_row DisputeAction.escalate = some (to escalated)
open_row DisputeAction.resolve = some (by_outcome resolve_outcome_to_state)
open_row DisputeAction.withdraw = some (to withdrawn_by_claimant)
open_row DisputeAction.open_dispute = Option.none

none_row : DisputeAction → Option Target
none_row DisputeAction.open_dispute = some (to opened)
none_row _ = Option.none

escalated_row : DisputeAction → Option Target
escalated_row DisputeAction.resolve = some (by_outcome resolve_outcome_to_state)
escalated_row _ = Option.none

dispute_transitions : DisputeState → Option (DisputeAction → Option Target)
dispute_transitions none = some none_row
dispute_transitions opened = some open_row
dispute_transitions escalated = some escalated_row
dispute_transitions _ = Option.none

-- `action in allowed`, where there is a row.
in_row : Option (DisputeAction → Option Target) → DisputeAction → Bool
in_row Option.none a = false
in_row (some row) a = is_some (row a)

pub is_valid_dispute_transition : DisputeState → DisputeAction → Bool
unfolding terminal_dispute_states dispute_transitions in_row none_row open_row escalated_row
is_valid_dispute_transition s a =
    if terminal_dispute_states s then false else in_row (dispute_transitions s) a

state_of : Option DisputeRecord → DisputeState
state_of Option.none = none
state_of (some r) = r.state

pub get_dispute_state : String → DisputeStore → DisputeState
unfolding state_of
get_dispute_state c store = state_of (Map.get c store)

pub get_dispute_record : String → DisputeStore → Option DisputeRecord
get_dispute_record c store = Map.get c store

assert_transition : String → DisputeAction → Action DisputeStore DisputeError (Unit {0})
assert_transition c a store =
    let current = get_dispute_state c store in
    if is_valid_dispute_transition current a
    then pure tt store
    else throw (invalid_dispute_transition c current a) store

found : String → Option DisputeRecord → Action DisputeStore DisputeError DisputeRecord
found c Option.none = throw (dispute_not_found c)
found c (some r) = pure r

require_record : String → Action DisputeStore DisputeError DisputeRecord
unfolding found
require_record c store = found c (Map.get c store) store

-- `_disputeStore.set(contractId, r)`, and the copy that is returned.
save : String → DisputeRecord → Action DisputeStore DisputeError DisputeRecord
save c r store = (Map.set c r store, ok r)

pub open_dispute :
    String
    → String
    → Option String
    → Option String
    → ℕ
    → Action DisputeStore DisputeError DisputeRecord
unfolding assert_transition save
open_dispute c opened_by reason tx_hash now = do
  assert_transition c DisputeAction.open_dispute
  save c (record {
    contract_id = c;
    state = opened;
    opened_at = some now;
    resolved_at = Option.none;
    opened_by = opened_by;
    resolved_by = Option.none;
    reason = reason;
    outcome = Option.none;
    tx_hash_open = tx_hash;
    tx_hash_resolve = Option.none;
    escalation_note = Option.none;
  })

pub escalate_dispute : String → Option String → Action DisputeStore DisputeError DisputeRecord
unfolding assert_transition require_record save
escalate_dispute c note = do
  assert_transition c DisputeAction.escalate
  r ← require_record c
  save c (record r { state = escalated; escalation_note = note })

pub resolve_dispute :
    String
    → String
    → Option ResolveOutcome
    → Option String
    → ℕ
    → Action DisputeStore DisputeError DisputeRecord
unfolding assert_transition require_record save
resolve_dispute c resolved_by outcome tx_hash now = do
  assert_transition c DisputeAction.resolve
  r ← require_record c
  save c (record r {
    state = resolve_outcome_to_state outcome;
    resolved_at = some now;
    resolved_by = some resolved_by;
    outcome = outcome;
    tx_hash_resolve = tx_hash;
  })

pub withdraw_dispute : String → String → ℕ → Action DisputeStore DisputeError DisputeRecord
unfolding assert_transition require_record save
withdraw_dispute c withdrawn_by now = do
  assert_transition c DisputeAction.withdraw
  r ← require_record c
  save c (record r {
    state = withdrawn_by_claimant;
    resolved_at = some now;
    resolved_by = some withdrawn_by;
  })

pub register_dispute_record : DisputeRecord → DisputeStore → DisputeStore
register_dispute_record r store = Map.set r.contract_id r store

pub clear_all_disputes : DisputeStore → DisputeStore
clear_all_disputes store = []
