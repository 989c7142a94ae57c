-- ===== src/Backend/Dispute.antt =====
-- apps/backend/src/services/dispute.service.ts over its in-memory store: the state machine of a
-- dispute, its SLA, the lists and the metrics. A `Date` and an ISO text are its milliseconds, and
-- `new Date()` is the argument `now`. Logging, the request id and the best-effort audit entry,
-- which change neither the store nor the answer, are left out.
pub mod Types
pub mod Machine
pub mod Traces
pub mod Sla
pub mod Lists
mod Examples
use stellar_true_stub.Common.{
  ℕ, ◌+◌, ◌-◌, ◌*◌, ◌/◌, String, Bool, true, false, ◌&&◌, ◌||◌, Option, none, some, List, [], ◌∷◌,
  if◌then◌else◌, Result, ok, err, str_eq, ltb, leb, length, map, arith,
}
use stellar_true_stub.Map
use stellar_true_stub.Map.{Map}
use stellar_true_stub.Backend.AppError.{AppError, is_blank}
use Types.{
  DisputeState, open_state, escalated, resolved, withdrawn, DisputeEvent, escalate, resolve,
  withdraw, Dispute, ℤ, pos, negsuc,
}

abbrev pub invalid_payload : AppError
invalid_payload = record { status_code = 400; code = "DISPUTE_INVALID_PAYLOAD" }

abbrev pub not_found : AppError
not_found = record { status_code = 404; code = "DISPUTE_NOT_FOUND" }

abbrev pub already_exists : AppError
already_exists = record { status_code = 409; code = "DISPUTE_ALREADY_EXISTS" }

abbrev pub already_final : AppError
already_final = record { status_code = 409; code = "DISPUTE_ALREADY_FINAL" }

abbrev pub invalid_transition : AppError
invalid_transition = record { status_code = 422; code = "DISPUTE_INVALID_TRANSITION" }

pub resolve_transition : DisputeState → DisputeEvent → Option DisputeState
resolve_transition open_state escalate = some escalated
resolve_transition open_state resolve = some resolved
resolve_transition open_state withdraw = some withdrawn
resolve_transition escalated resolve = some resolved
resolve_transition escalated withdraw = some withdrawn
resolve_transition _ _ = none

-- `FINAL_STATES.has`.
pub is_final : DisputeState → Bool
is_final resolved = true
is_final withdrawn = true
is_final _ = false

abbrev pub Store : Type 0
Store = Map Dispute

pub open_dispute : String → String → String → String → ℕ → Store → Store × Result AppError Dispute
open_dispute id escrow by reason now store =
    if is_blank id || is_blank escrow || is_blank by || is_blank reason
    then (store, err invalid_payload)
    else if Map.has id store
    then (store, err already_exists)
    else let d : Dispute = record {
      dispute_id = id;
      escrow_id = escrow;
      raised_by = by;
      reason = reason;
      state = open_state;
      opened_at = now;
      updated_at = now;
      escalated_at = none;
      resolved_at = none;
      resolution = none;
    } in
      (Map.set id d store, ok d)

-- `opts?.resolution`, which only a text that is not empty replaces.
abbrev pub new_resolution : Option String → Option String → Option String
new_resolution none old = old
new_resolution (some text) old = if is_blank text then old else some text

-- The record after a transition to the state.
pub updated : DisputeState → Option String → ℕ → Dispute → Dispute
updated escalated opts now d = record d {
  state = escalated;
  updated_at = now;
  escalated_at = some now;
}
updated resolved opts now d = record d {
  state = resolved;
  updated_at = now;
  resolved_at = some now;
  resolution = new_resolution opts d.resolution;
}
updated next opts now d = record d { state = next; updated_at = now }

transition_to :
    String
    → Option DisputeState
    → Option String
    → ℕ
    → Dispute
    → Store
    → Store × Result AppError Dispute
transition_to id none opts now d store = (store, err invalid_transition)
transition_to id (some next) opts now d store =
    (Map.set id (updated next opts now d) store, ok (updated next opts now d))

transition_found :
    String
    → DisputeEvent
    → Option String
    → ℕ
    → Option Dispute
    → Store
    → Store × Result AppError Dispute
unfolding transition_to
transition_found id event opts now none store = (store, err not_found)
transition_found id event opts now (some d) store =
    if is_final d.state
    then (store, err already_final)
    else transition_to id (resolve_transition d.state event) opts now d store

pub transition : String → DisputeEvent → Option String → ℕ → Store → Store × Result AppError Dispute
unfolding transition_found
transition id event opts now store =
    if is_blank id
    then (store, err invalid_payload)
    else transition_found id event opts now (Map.get id store) store
