-- ===== src/Backend/Refund.antt =====
-- apps/backend/src/services/refund.service.ts with its in-memory store. A claim has an `await`
-- between the insertion of its record and the end of the on-chain execution, where other claims
-- run: `begin_claim` is the part before it, `finish_claim` the part after it, with what the
-- executor returned or threw. `Amount` is the type of `amount`, and `is_positive` says whether
-- `Number(amount)` is finite and above zero. Logging and Sentry are left out. A `Date` and an ISO
-- text are its milliseconds.
pub mod Once
pub mod Validation
mod Examples
use stellar_true_stub.Common.{
  ℕ, ◌+◌, ◌-◌, ◌*◌, String, Bool, true, false, not, ◌&&◌, ◌||◌, Option, none, some, List, [], ◌∷◌,
  if◌then◌else◌, Result, ok, err, get_or_else, codes, in_range, ◌==◌, length, all, ltb,
}
use stellar_true_stub.Map
use stellar_true_stub.Map.{Map}
use stellar_true_stub.Backend.AppError.{AppError, is_blank}

pub data RefundStatus : Type 0 where
  claimed pending submitted failed : RefundStatus

pub data EscrowType : Type 0 where
  single_release multi_release : EscrowType

pub record ClaimedRefund (Amount : Type 0) : Type 0 where
  pub refund_id : String
  pub escrow_id : String
  pub claimed_at : ℕ
  pub amount : Option Amount
  pub currency : Option String
  pub claimed_by : Option String
  pub status : Option RefundStatus
  pub refund_to : Option String
  pub escrow_type : Option EscrowType
  pub milestone_index : Option String
  pub tx_hash : Option String
  pub failure_reason : Option String

pub record RefundPayload (Amount : Type 0) : Type 0 where
  pub refund_id : String
  pub escrow_id : String
  pub amount : Option Amount
  pub currency : Option String
  pub claimed_by : Option String
  pub refund_to : Option String
  pub escrow_type : Option EscrowType
  pub milestone_index : Option String

-- What the executor throws: that it is not configured, or anything else with its message.
pub data ExecutionError : Type 0 where
  not_configured : String → ExecutionError
  other : String → ExecutionError

abbrev pub reason_of : ExecutionError → String
reason_of (not_configured reason) = reason
reason_of (other reason) = reason

abbrev invalid_payload : AppError
invalid_payload = record { status_code = 400; code = "REFUND_INVALID_PAYLOAD" }

abbrev pub already_claimed : AppError
already_claimed = record { status_code = 409; code = "REFUND_ALREADY_CLAIMED" }

abbrev pub execution_error : ExecutionError → AppError
execution_error (not_configured reason) = record {
  status_code = 503;
  code = "REFUND_EXECUTION_UNAVAILABLE";
}
execution_error (other reason) = record { status_code = 502; code = "REFUND_EXECUTION_FAILED" }

abbrev pub is_base32 : ℕ → Bool
is_base32 c = in_range b'A' b'Z' c || in_range b'2' b'7' c

-- `/^[GC][A-Z2-7]{55}$/`.
is_stellar_codes : List ℕ → Bool
is_stellar_codes [] = false
is_stellar_codes (c ∷ s) = (c == b'G' || c == b'C') && length s == 55 && all is_base32 s

unfoldable pub stellar_address : String → Bool
unfolding is_stellar_codes
stellar_address s = is_stellar_codes (codes s)

-- `!x || …` for a text that may be absent.
abbrev pub is_missing : Option String → Bool
is_missing none = true
is_missing (some s) = is_blank s

abbrev pub is_address : Option String → Bool
is_address none = false
is_address (some s) = not (is_blank s) && stellar_address s

abbrev pub is_multi : Option EscrowType → Bool
is_multi (some multi_release) = true
is_multi _ = false

module _ {Amount : Type 0} where
  module _ (is_positive : Amount → Bool) where
    abbrev pub is_amount : Option Amount → Bool
    is_amount none = false
    is_amount (some a) = is_positive a

    -- `assertExecutable`: the error that it throws, if it throws one.
    pub assert_executable : RefundPayload Amount → Option AppError
    assert_executable p =
        if not (is_address p.refund_to)
        then some invalid_payload
        else if not (is_amount p.amount)
        then some invalid_payload
        else if is_multi p.escrow_type && is_missing p.milestone_index
        then some invalid_payload
        else none

    -- The checks of `claimRefund` in a service with an executor, and in one without.
    unfoldable pub check_payload : Bool → RefundPayload Amount → Option AppError
    unfolding assert_executable
    check_payload has_executor p =
        if is_blank p.refund_id || is_blank p.escrow_id
        then some invalid_payload
        else if has_executor
        then assert_executable p
        else none

  -- The record that is inserted.
  unfoldable pub claim_record : Bool → RefundPayload Amount → ℕ → ClaimedRefund Amount
  claim_record has_executor p now = record {
    refund_id = p.refund_id;
    escrow_id = p.escrow_id;
    claimed_at = now;
    amount = p.amount;
    currency = p.currency;
    claimed_by = p.claimed_by;
    status = some (if has_executor then pending else claimed);
    refund_to = if has_executor then p.refund_to else none;
    escrow_type = if has_executor then some (get_or_else p.escrow_type single_release) else none;
    milestone_index = if has_executor then p.milestone_index else none;
    tx_hash = none;
    failure_reason = none;
  }

  -- `insertIfAbsent` of the in-memory store.
  insert_if_absent :
      String → ClaimedRefund Amount → Map (ClaimedRefund Amount) → Map (ClaimedRefund Amount) × Bool
  insert_if_absent id r store =
      if Map.has id store then (store, false) else (Map.set id r store, true)

  is_failed : Option (ClaimedRefund Amount) → Bool
  is_failed none = false
  is_failed (some r) = elim r.status [
    | none ↦ false
    | some s ↦ elim s [ failed ↦ true | _ ↦ false ]
  ]

  -- `alreadyClaimed`: a failed record is written back as it is.
  write_back :
      String
      → Option (ClaimedRefund Amount)
      → Map (ClaimedRefund Amount)
      → Map (ClaimedRefund Amount)
  write_back id none store = store
  write_back id (some r) store = if is_failed (some r) then Map.set id r store else store

  already_claimed_lookup :
      String → Map (ClaimedRefund Amount) → Map (ClaimedRefund Amount) × AppError
  unfolding write_back is_failed
  already_claimed_lookup id store = (write_back id (Map.get id store) store, already_claimed)

  unfoldable pub begin_checked :
      Bool
      → RefundPayload Amount
      → ℕ
      → Option AppError
      → Map (ClaimedRefund Amount)
      → Map (ClaimedRefund Amount) × Result AppError (ClaimedRefund Amount)
  unfolding insert_if_absent already_claimed_lookup
  begin_checked has_executor p now (some e) store = (store, err e)
  begin_checked has_executor p now none store =
      let (inserted, fresh) =
        insert_if_absent p.refund_id (claim_record has_executor p now) store in
      let (after, e) = already_claimed_lookup p.refund_id store in
      if fresh then (inserted, ok (claim_record has_executor p now)) else (after, err e)

  -- `claimRefund` up to the call of the executor, or whole where there is no executor. `ok r` goes
  -- on with the claim `r`.
  unfoldable pub begin_claim :
      (Amount → Bool)
      → Bool
      → RefundPayload Amount
      → ℕ
      → Map (ClaimedRefund Amount)
      → Map (ClaimedRefund Amount) × Result AppError (ClaimedRefund Amount)
  unfolding begin_checked
  begin_claim is_positive has_executor p now store =
      begin_checked has_executor p now (check_payload is_positive has_executor p) store

  -- The rest of `claimRefund`, for the claim that the executor was called with.
  unfoldable pub finish_claim :
      ClaimedRefund Amount
      → Result ExecutionError String
      → Map (ClaimedRefund Amount)
      → Map (ClaimedRefund Amount) × Result AppError (ClaimedRefund Amount)
  finish_claim r (ok tx) store =
      let submitted_record = record r { status = some submitted; tx_hash = some tx } in
      (Map.set r.refund_id submitted_record store, ok submitted_record)
  finish_claim r (err e) store = (
    Map.set r.refund_id (record r { status = some failed; failure_reason = some (reason_of e) })
        store,
    err (execution_error e),
  )

  pub get_claim_status : String → Map (ClaimedRefund Amount) → Option (ClaimedRefund Amount)
  get_claim_status id store = Map.get id store

  -- `cleanupBefore` of the in-memory store, with how many it removed.
  pub cleanup_before : ℕ → Map (ClaimedRefund Amount) → Map (ClaimedRefund Amount) × ℕ
  cleanup_before cutoff [] = ([], 0)
  cleanup_before cutoff ((id, r) ∷ store) =
      let (kept, removed) = cleanup_before cutoff store in
      if ltb r.claimed_at cutoff then (kept, removed + 1) else ((id, r) ∷ kept, removed)
