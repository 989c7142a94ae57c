-- ===== src/Backend/Dispute/Examples.antt =====
-- The theorems on the disputes of the service at concrete calls.
use stellar_true_stub.Common.{ℕ, ◌≡◌, refl, none, some, List, [], ◌∷◌, arith, drop}
use stellar_true_stub.Map
use stellar_true_stub.Backend.Dispute.Types.{
  escalated, resolved, escalate, resolve, withdraw, Dispute, pos, negsuc,
}
use stellar_true_stub.Backend.Dispute.{
  is_final, Store, transition, transition_found, transition_to, resolve_transition, updated,
  open_dispute,
}
use stellar_true_stub.Backend.Dispute.Traces.{Call, opens, moves, perform, run, accepted}
use stellar_true_stub.Backend.Dispute.Sla.{whole_days}
use stellar_true_stub.Backend.Dispute.Lists.{
  integer, get_metrics, in_range_of, newest_first, list_disputes_by_escrow, list_disputes_by_state,
  page_limit,
}
use stellar_true_stub.Backend.Dispute.Lists.Pages.{history, read_pages, read_pages_all}

abbrev calls : List (Call × ℕ)
calls =
    (opens "d1" "e1" "ann" "late", 1)
    ∷ (moves "d1" escalate none, 2)
    ∷ (opens "d2" "e1" "ann" "lost", 3)
    ∷ (moves "d1" escalate none, 4)
    ∷ (moves "d2" resolve (some "refund"), 5)
    ∷ (moves "d2" withdraw none, 6)
    ∷ []

abbrev d1 : Dispute
d1 = record {
  dispute_id = "d1";
  escrow_id = "e1";
  raised_by = "ann";
  reason = "late";
  state = escalated;
  opened_at = 1;
  updated_at = 2;
  escalated_at = some 2;
  resolved_at = none;
  resolution = none;
}

abbrev d2 : Dispute
d2 = record {
  dispute_id = "d2";
  escrow_id = "e1";
  raised_by = "ann";
  reason = "lost";
  state = resolved;
  opened_at = 3;
  updated_at = 5;
  escalated_at = none;
  resolved_at = some 5;
  resolution = some "refund";
}

abbrev store : Store
store = ("d1", d1) ∷ ("d2", d2) ∷ []

calls-run : (run calls [] ≡ store) × (accepted "d1" calls [] ≡ 2) × (accepted "d2" calls [] ≡ 2)
unfolding run accepted perform open_dispute transition transition_found transition_to
    resolve_transition updated is_final Map.get Map.set
calls-run = (refl, refl, refl)

-- The clock may stand before the escalation.
ages : (whole_days 2 2 ≡ pos 0) × (whole_days 1 2 ≡ negsuc 0) × (whole_days 172800005 2 ≡ pos 2)
unfolding whole_days
ages = (refl, refl, refl)

listed :
    (list_disputes_by_escrow "e1" store ≡ d1 ∷ d2 ∷ [])
    × (list_disputes_by_state resolved store ≡ d2 ∷ [])
    × (history "ann" store ≡ d2 ∷ d1 ∷ [])
    × ((get_metrics (some 2) none 9 store).total ≡ 1)
    × (page_limit (some (integer (pos 500))) ≡ 50)
unfolding list_disputes_by_escrow list_disputes_by_state history newest_first get_metrics
    in_range_of page_limit
listed = (refl, refl, refl, refl, refl)

read_pages_all_example :
    read_pages "ann" (some (integer (pos 1))) store 2 0 ≡ drop 0 (history "ann" store)
unfolding history newest_first
read_pages_all_example =
    read_pages_all "ann" (some (integer (pos 1))) store 2 0 (omega arith) (omega arith)
