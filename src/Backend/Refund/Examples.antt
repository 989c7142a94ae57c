-- ===== src/Backend/Refund/Examples.antt =====
-- The theorems on the refunds of the service at concrete steps.
use stellar_true_stub.Common.{
  ℕ, ◌+◌, ◌≤◌, ◌≡◌, ◌↔◌, refl, String, Bool, true, false, none, some, List, [], ◌∷◌, if◌then◌else◌,
  ok, err, ltb, get_or_else,
}
use stellar_true_stub.Map
use stellar_true_stub.Map.{Map}
use stellar_true_stub.Backend.Refund.{
  ClaimedRefund, RefundPayload, single_release, already_claimed, not_configured, other, begin_claim,
  finish_claim, claim_record, check_payload, begin_checked, assert_executable, insert_if_absent,
  stellar_address, is_stellar_codes, get_claim_status, cleanup_before, failed, pending,
}
use stellar_true_stub.Backend.Refund.Once.{
  Step, begin, finish, run, step, grants, granted, executed_bound, begin-run-begin,
}
use stellar_true_stub.Backend.Refund.Validation.{IsExecutable, pending_claim, begins_iff}

abbrev positive : ℕ → Bool
positive n = ltb 0 n

abbrev address : String
address = "GAAAAAAAAAAAAAAAAAAAAAAAAAAAAAAAAAAAAAAAAAAAAAAAAAAAAAAA"

abbrev payload : RefundPayload ℕ
payload = record {
  refund_id = "r1";
  escrow_id = "e1";
  amount = some 25;
  currency = some "USDC";
  claimed_by = some "ann";
  refund_to = some address;
  escrow_type = none;
  milestone_index = none;
}

abbrev record_of : ClaimedRefund ℕ
record_of = record {
  refund_id = "r1";
  escrow_id = "e1";
  claimed_at = 7;
  amount = some 25;
  currency = some "USDC";
  claimed_by = some "ann";
  status = some pending;
  refund_to = some address;
  escrow_type = some single_release;
  milestone_index = none;
  tx_hash = none;
  failure_reason = none;
}

abbrev no_claims : Map (ClaimedRefund ℕ)
no_claims = []

-- Two claims of one refund race; the first fails on chain, and it is claimed again.
abbrev race : List (Step ℕ)
race =
    begin payload 7
    ∷ begin payload 8
    ∷ finish record_of (err (other "no funds"))
    ∷ begin payload 9
    ∷ []

race_grants_one : granted positive true "r1" race [] ≡ 1
unfolding granted grants step begin_claim begin_checked check_payload assert_executable
    insert_if_absent stellar_address is_stellar_codes finish_claim claim_record Map.get Map.set
race_grants_one = refl

-- A claim that failed for want of an executor, and its clean-up.
failed_claim :
    (get_claim_status "r1" (finish_claim record_of (err (not_configured "no signer")) []).0
      ≡ some (record record_of { status = some failed; failure_reason = some "no signer" }))
    × (cleanup_before 8 (finish_claim record_of (ok "0x1") []).0 ≡ ([], 1))
    × ((cleanup_before 7 (finish_claim record_of (ok "0x1") []).0).1 ≡ 0)
unfolding get_claim_status finish_claim cleanup_before Map.get Map.set
failed_claim = (refl, refl, refl)

executed_bound_example :
    granted positive true "r1" race [] + (if Map.has "r1" no_claims then 1 else 0) ≤ 1
executed_bound_example = executed_bound positive true "r1" race []

begin-run-begin_example :
    begin_claim positive true payload 50
      (run positive true race (begin_claim positive true payload 7 []).0)
    ≡ (
      run positive true race (begin_claim positive true payload 7 []).0,
      err (get_or_else (check_payload positive true payload) already_claimed),
    )
unfolding begin_claim begin_checked check_payload assert_executable insert_if_absent stellar_address
    is_stellar_codes claim_record Map.get Map.set
begin-run-begin_example =
    begin-run-begin positive true payload payload 7 50 [] record_of race refl refl

begins_iff_example : ((begin_claim positive true payload 7 []).1 ≡ ok record_of) ↔ (
    IsExecutable positive payload
    × (Map.has "r1" no_claims ≡ false)
    × (record_of ≡ pending_claim payload 7))
begins_iff_example = begins_iff positive payload 7 [] record_of
