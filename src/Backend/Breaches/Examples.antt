-- ===== src/Backend/Breaches/Examples.antt =====
-- The theorems on the breaches of the 30 days at concrete disputes.
use stellar_true_stub.Common.{ℕ, ◌+◌, ◌≡◌, true, ◌↔◌, refl, none, some, List, [], ◌∷◌, Mem}
use stellar_true_stub.Map
use stellar_true_stub.Backend.Dispute.Types.{escalated, Dispute}
use stellar_true_stub.Backend.Dispute.{Store}
use stellar_true_stub.Backend.Dispute.Lists.{list_disputes_by_state}
use stellar_true_stub.Backend.Changelog.{check_append, commit_append}
use stellar_true_stub.Backend.Breaches.{
  Metadata, escalated_sla_breach, alert_payload, begin_alert, begin_alerts, breaches_of,
  sla_breaches, World, begin_request, nth, without, write_picked, write_alert, Step, arrive, go_on,
  step,
}
use stellar_true_stub.Backend.Breaches.Alerts.{appended, waiting, run, run-appended}
use stellar_true_stub.Backend.Breaches.Listed.{HasBreached, sla_breaches_iff}

abbrev d1 : Dispute
d1 = record {
  dispute_id = "d1";
  escrow_id = "e1";
  raised_by = "ann";
  reason = "late";
  state = escalated;
  opened_at = 1;
  updated_at = 2;
  escalated_at = some 2;
  resolved_at = none;
  resolution = none;
}

abbrev store : Store
store = ("d1", d1) ∷ []

abbrev empty : World
empty = record { log = record { store = []; events = [] }; pending = [] }

abbrev as_it_is : Metadata → Metadata
as_it_is m = m

-- Two requests overlap, and a third arrives when the first alert is written.
abbrev overlap : List (Step × ℕ)
overlap =
    (arrive (some "r1") store, 2592000003)
    ∷ (arrive (some "r2") store, 2592000004)
    ∷ (go_on 0, 2592000005)
    ∷ []

abbrev rest : List (Step × ℕ)
rest = (arrive (some "r3") store, 2592000006) ∷ (go_on 0, 2592000007) ∷ (go_on 0, 2592000008) ∷ []

-- The service counts a dispute as overdue after exactly 30 days; the route does not list it yet.
not_listed_at_30_days : escalated_sla_breach d1 2592000002 ≡ none
unfolding escalated_sla_breach
not_listed_at_30_days = refl

-- Both of the overlapping requests write their alert, the third none.
two_alerts :
    appended "dispute.sla_breach:d1" (run as_it_is rest (run as_it_is overlap empty)).log.events ≡ 2
unfolding run appended step begin_request write_alert write_picked nth without sla_breaches
    breaches_of escalated_sla_breach list_disputes_by_state begin_alerts begin_alert alert_payload
    check_append commit_append Map.get Map.set
two_alerts = refl

written : Map.has "dispute.sla_breach:d1" (run as_it_is overlap empty).log.store ≡ true
unfolding run step begin_request write_alert write_picked nth without sla_breaches breaches_of
    escalated_sla_breach list_disputes_by_state begin_alerts begin_alert alert_payload check_append
    commit_append Map.get Map.set
written = refl

run-appended_example :
    appended "dispute.sla_breach:d1" (run as_it_is rest (run as_it_is overlap empty)).log.events
      + waiting "dispute.sla_breach:d1" (run as_it_is rest (run as_it_is overlap empty)).pending
    ≡ appended "dispute.sla_breach:d1" (run as_it_is overlap empty).log.events
      + waiting "dispute.sla_breach:d1" (run as_it_is overlap empty).pending
run-appended_example =
    run-appended "dispute.sla_breach:d1" as_it_is rest (run as_it_is overlap empty) written

sla_breaches_iff_example :
    Mem (d1, 2592000001) (sla_breaches 2592000003 store)
    ↔ (Mem d1 (Map.values store) × HasBreached d1 2592000003 2592000001)
sla_breaches_iff_example = sla_breaches_iff 2592000003 store d1 2592000001
