-- ===== src/Frontend/Refund/Confirmations.antt =====
-- Confirmations of refund details in refund-idempotency.ts, against their history.
use stellar_true_stub.Common.{
  ℕ, ◌≡◌, refl, String, Option, none, some, List, [], ◌∷◌, if◌then◌else◌, str_eq, eq_iff, arith,
  Result, ok, err,
}
use stellar_true_stub.Map
use stellar_true_stub.Map.Laws
use stellar_true_stub.Frontend.Refund.{
  RefundConfirmationDetails, RefundConfirmationRecord, RefundError, refund_confirmation_required,
  ConfirmationStore, confirm_refund_details, assert_refund_confirmed, clear_refund_confirmation,
  clear_all_refund_confirmations,
}

-- The calls that write a confirmation.
pub data Call : Type 0 where
  confirm : String → RefundConfirmationDetails → String → ℕ → Call
  clear : String → Call
  clear_all : Call

unfoldable pub step : Call → ConfirmationStore → ConfirmationStore
step (confirm c details by now) s = (confirm_refund_details c details by now s).0
step (clear c) s = (clear_refund_confirmation c s).0
step clear_all s = clear_all_refund_confirmations s

-- The store after a history, which has the latest call first.
pub after : List Call → ConfirmationStore
after [] = []
after (call ∷ older) = step call (after older)

-- What the user has last confirmed for `c` and not cleared since, read off the history alone.
pub in_force : String → List Call → Option RefundConfirmationRecord
in_force c [] = none
in_force c (confirm k details by now ∷ older) =
    let earlier = in_force c older in
    if str_eq k c
    then some (record {
      amount = details.amount;
      asset = details.asset;
      destination = details.destination;
      contract_id = c;
      confirmed_at = now;
      confirmed_by = by;
    })
    else earlier
in_force c (clear k ∷ older) =
    let earlier = in_force c older in if str_eq k c then none else earlier
in_force c (clear_all ∷ older) = none

get-after : (c : String) (history : List Call) → Map.get c (after history) ≡ in_force c history
unfolding after in_force step confirm_refund_details clear_refund_confirmation
    clear_all_refund_confirmations Map.get
get-after c [] = refl
get-after c (confirm k details by now ∷ older) =
    grind (arith, Laws.get-set, eq_iff k c, get-after c older)
get-after c (clear k ∷ older) = grind (arith, Laws.get-remove, get-after c older)
get-after c (clear_all ∷ older) = refl

-- The result that the guard should give for what is in force.
abbrev pub verdict :
    String → Option RefundConfirmationRecord → Result RefundError RefundConfirmationRecord
verdict c none = err (refund_confirmation_required c)
verdict c (some r) = ok r

-- After any history of confirmations and clearings, `assertRefundConfirmed` returns exactly the
-- details that were last confirmed for the contract and not cleared since; where there are none it
-- throws `RefundConfirmationRequiredError`. It writes nothing.
pub assert_refund_confirmed-after :
    (c : String) (history : List Call)
    → assert_refund_confirmed c (after history) ≡ (after history, verdict c (in_force c history))
unfolding assert_refund_confirmed
assert_refund_confirmed-after c history = grind (arith, get-after c history)
