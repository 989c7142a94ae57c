-- ===== src/Frontend/Refund/Examples.antt =====
-- The theorems on refunds at concrete calls.
use stellar_true_stub.Common.{
  String, ℕ, ◌+◌, ◌≤◌, ◌≡◌, refl, true, none, some, List, [], ◌∷◌, if◌then◌else◌, err,
}
use stellar_true_stub.Map
use stellar_true_stub.Frontend.Refund.{
  refund_already_claimed, is_refund_already_claimed, mark_refund_claimed, claim_refund,
  update_refund_tx_hash, get_refund_claim_record, clear_all_refund_claims,
  get_all_refund_claim_records, get_refund_confirmation, clear_all_refund_confirmations,
}
use stellar_true_stub.Frontend.Refund.Claims.{
  Call, claim, mark, update, grants, step, run, granted, granted_bound, claim-run-claim,
}
use stellar_true_stub.Frontend.Refund.Confirmations.{
  confirm, clear, after, in_force, verdict, assert_refund_confirmed-after,
}
use stellar_true_stub.Frontend.Refund.Confirmations

-- Two wallets race for one refund, the store is re-hydrated, and the hash arrives.
abbrev race : List (Call × ℕ)
race =
    (claim "e1" "bob", 5)
    ∷ (mark "e1" "ann" true (some "0x1"), 6)
    ∷ (update "e1" "0x2", 7)
    ∷ (claim "e1" "ann", 8)
    ∷ (claim "e2" "ann", 9)
    ∷ []

race_grants_one : (granted "e1" race [] ≡ 1) × (granted "e2" race [] ≡ 1)
unfolding granted grants step claim_refund mark_refund_claimed update_refund_tx_hash Map.get Map.set
race_grants_one = (refl, refl)

granted_bound_example :
    granted "e1" race [] + (if is_refund_already_claimed "e1" [] then 1 else 0) ≤ 1
granted_bound_example = granted_bound "e1" race []

claim-run-claim_example :
    claim_refund "e1" "eve" 20 (run race (claim_refund "e1" "ann" 3 []).0)
    ≡ (run race (claim_refund "e1" "ann" 3 []).0, err (refund_already_claimed "e1" 3))
unfolding claim_refund Map.get Map.set
claim-run-claim_example =
    claim-run-claim "e1" "ann" 3 []
      (record { contract_id = "e1"; claimed_at = 3; claimed_by = "ann"; tx_hash = none }) race "eve"
      20 refl

-- The latest call first.
abbrev history : List Confirmations.Call
history =
    confirm "e1" (record { amount = "12.5"; asset = "XLM"; destination = "GA" }) "ann" 4
    ∷ clear "e1"
    ∷ confirm "e1" (record { amount = "1"; asset = "XLM"; destination = "GB" }) "ann" 2
    ∷ []

-- After a logout no claim and no confirmation is read.
nothing_kept :
    (c : String)
    → (get_refund_claim_record c (clear_all_refund_claims (run race [])) ≡ none)
      × (get_all_refund_claim_records (clear_all_refund_claims (run race [])) ≡ [])
      × (get_refund_confirmation c (clear_all_refund_confirmations (after history)) ≡ none)
unfolding get_refund_claim_record clear_all_refund_claims get_all_refund_claim_records
    get_refund_confirmation clear_all_refund_confirmations Map.get
nothing_kept c = (refl, refl, refl)
