-- ===== src/Frontend/Refund.antt =====
-- apps/frontend/src/lib/refund/refund-idempotency.ts: the claims and the confirmations of refunds.
-- `new Date()` is the argument `now`, in milliseconds; the options of `markRefundClaimed` are the
-- arguments `allow_reset` (false where it is absent) and `tx_hash`.
pub mod Claims
pub mod Confirmations
mod Examples
use stellar_true_stub.Common.{
  ℕ, String, Bool, true, false, not, ◌&&◌, Option, none, some, List, [], if◌then◌else◌, Result, ok,
  err, Action, ◌>>=◌, pure, throw, is_some, or_else,
}
use stellar_true_stub.Map
use stellar_true_stub.Map.{Map}

pub record RefundClaimRecord : Type 0 where
  pub contract_id : String
  pub claimed_at : ℕ
  pub claimed_by : String
  pub tx_hash : Option String

-- The details that the user confirms.
pub record RefundConfirmationDetails : Type 0 where
  pub amount : String
  pub asset : String
  pub destination : String

-- The record of a confirmation: the details, with whose they are and when.
pub record RefundConfirmationRecord : Type 0 where
  pub amount : String
  pub asset : String
  pub destination : String
  pub contract_id : String
  pub confirmed_at : ℕ
  pub confirmed_by : String

-- The two error classes and the plain `Error` of `updateRefundTxHash`.
pub data RefundError : Type 0 where
  refund_already_claimed : String → ℕ → RefundError
  refund_confirmation_required : String → RefundError
  no_refund_claim_found : String → RefundError

-- `_refundClaimStore` and `_refundConfirmationStore`.
abbrev pub ClaimStore : Type 0
ClaimStore = Map RefundClaimRecord

abbrev pub ConfirmationStore : Type 0
ConfirmationStore = Map RefundConfirmationRecord

pub is_refund_already_claimed : String → ClaimStore → Bool
is_refund_already_claimed c store = Map.has c store

pub get_refund_claim_record : String → ClaimStore → Option RefundClaimRecord
get_refund_claim_record c store = Map.get c store

save_claim : String → RefundClaimRecord → Action ClaimStore RefundError RefundClaimRecord
save_claim c r store = (Map.set c r store, ok r)

-- The claim of `c` by `by`, over what was there.
mark_over :
    String
    → String
    → Bool
    → Option String
    → ℕ
    → Option RefundClaimRecord
    → Action ClaimStore RefundError RefundClaimRecord
unfolding save_claim
mark_over c by allow_reset tx now none =
    save_claim c (record { contract_id = c; claimed_at = now; claimed_by = by; tx_hash = tx })
mark_over c by allow_reset tx now (some existing) =
    if not allow_reset
    then throw (refund_already_claimed c existing.claimed_at)
    else save_claim c (record {
      contract_id = c;
      claimed_at = existing.claimed_at;
      claimed_by = by;
      tx_hash = or_else tx existing.tx_hash;
    })

pub mark_refund_claimed :
    String → String → Bool → Option String → ℕ → Action ClaimStore RefundError RefundClaimRecord
unfolding mark_over
mark_refund_claimed c by allow_reset tx now store =
    mark_over c by allow_reset tx now (Map.get c store) store

claim_over :
    String → String → ℕ → Option RefundClaimRecord → Action ClaimStore RefundError RefundClaimRecord
unfolding save_claim
claim_over c by now (some existing) = throw (refund_already_claimed c existing.claimed_at)
claim_over c by now none =
    save_claim c (record { contract_id = c; claimed_at = now; claimed_by = by; tx_hash = none })

pub claim_refund : String → String → ℕ → Action ClaimStore RefundError RefundClaimRecord
unfolding claim_over
claim_refund c by now store = claim_over c by now (Map.get c store) store

update_over : String → String → Option RefundClaimRecord → Action ClaimStore RefundError (Unit {0})
update_over c tx none = throw (no_refund_claim_found c)
update_over c tx (some r) = λ store. (Map.set c (record r { tx_hash = some tx }) store, ok tt)

pub update_refund_tx_hash : String → String → Action ClaimStore RefundError (Unit {0})
unfolding update_over
update_refund_tx_hash c tx store = update_over c tx (Map.get c store) store

pub clear_refund_claim : String → ClaimStore → ClaimStore × Bool
clear_refund_claim c store = (Map.remove c store, Map.has c store)

pub clear_all_refund_claims : ClaimStore → ClaimStore
clear_all_refund_claims store = []

pub get_all_refund_claim_records : ClaimStore → List RefundClaimRecord
get_all_refund_claim_records store = Map.values store

pub confirm_refund_details :
    String
    → RefundConfirmationDetails
    → String
    → ℕ
    → ConfirmationStore
    → ConfirmationStore × RefundConfirmationRecord
confirm_refund_details c details by now store =
    let r : RefundConfirmationRecord = record {
      amount = details.amount;
      asset = details.asset;
      destination = details.destination;
      contract_id = c;
      confirmed_at = now;
      confirmed_by = by;
    } in
    (Map.set c r store, r)

pub get_refund_confirmation : String → ConfirmationStore → Option RefundConfirmationRecord
get_refund_confirmation c store = Map.get c store

confirmed :
    String
    → Option RefundConfirmationRecord
    → Action ConfirmationStore RefundError RefundConfirmationRecord
confirmed c none = throw (refund_confirmation_required c)
confirmed c (some r) = pure r

pub assert_refund_confirmed : String → Action ConfirmationStore RefundError RefundConfirmationRecord
unfolding confirmed
assert_refund_confirmed c store = confirmed c (Map.get c store) store

pub clear_refund_confirmation : String → ConfirmationStore → ConfirmationStore × Bool
clear_refund_confirmation c store = (Map.remove c store, Map.has c store)

pub clear_all_refund_confirmations : ConfirmationStore → ConfirmationStore
clear_all_refund_confirmations store = []
