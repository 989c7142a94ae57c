-- ===== src/Backend/Breaches.antt =====
-- GET /api/disputes/sla/breaches of apps/backend/src/routes/disputes.ts: the escalated disputes that
-- wait too long, and the alert for each in the changelog, which joins Backend.Dispute and
-- Backend.Changelog. `copy` is what JSON makes of the metadata. An alert awaits between its look at the
-- changelog and its write, where other requests and alerts run: a world holds the alerts in between.
pub mod Alerts
pub mod Listed
mod Examples
use stellar_true_stub.Common.{
  ℕ, ◌+◌, ◌-◌, ◌*◌, String, Bool, true, false, Option, none, some, List, [], ◌∷◌, if◌then◌else◌,
  ltb, leb, concat, zero, suc, ◌++◌,
}
use stellar_true_stub.Map
use stellar_true_stub.Map.{Map}
use stellar_true_stub.Backend.Dispute.Types.{escalated, Dispute}
use stellar_true_stub.Backend.Dispute.{Store}
use stellar_true_stub.Backend.Dispute.Lists.{list_disputes_by_state}
use stellar_true_stub.Backend.Changelog.{
  Payload, State, ChangelogEntry, check_append, commit_append,
}

abbrev pub escalated_sla_ms : ℕ
escalated_sla_ms = 30 * 24 * 60 * 60 * 1000

-- The metadata, without what is the same in every alert.
pub record Metadata : Type 0 where
  pub escrow_id : String
  pub escalated_at : Option ℕ
  pub elapsed_ms : ℕ
  pub request_id : Option String

breach_from : Option ℕ → ℕ → Option ℕ
breach_from none now = none
breach_from (some at) now =
    if ltb at now then (if ltb escalated_sla_ms (now - at) then some (now - at) else none) else none

-- The elapsed time, where the dispute has breached the window.
pub escalated_sla_breach : Dispute → ℕ → Option ℕ
unfolding breach_from
escalated_sla_breach d now = elim d.state [ escalated ↦ breach_from d.escalated_at now | _ ↦ none ]

abbrev pub alert_id : String → String
alert_id dispute = concat "dispute.sla_breach:" dispute

pub alert_payload : Dispute → ℕ → Option String → Payload Metadata
alert_payload d elapsed request = record {
  entry_id = alert_id d.dispute_id;
  action = "dispute.sla_breach";
  actor_id = "system";
  resource_id = d.dispute_id;
  metadata = some (record {
    escrow_id = d.escrow_id;
    escalated_at = d.escalated_at;
    elapsed_ms = elapsed;
    request_id = request;
  });
  request_id = none;
}

-- The breaches of a list, with their elapsed times.
pub breaches_of : ℕ → List Dispute → List (Dispute × ℕ)
breaches_of now [] = []
breaches_of now (d ∷ l) =
    let rest = breaches_of now l in
    elim (escalated_sla_breach d now) [ none ↦ rest | some elapsed ↦ (d, elapsed) ∷ rest ]

-- What a request answers.
pub sla_breaches : ℕ → Store → List (Dispute × ℕ)
sla_breaches now store = breaches_of now (list_disputes_by_state escalated store)

-- `recordSlaBreachAlert` up to the `await` in `appendEntry`, which comes after the look at the store:
-- what it goes on to write, if nothing is thrown. What is thrown is swallowed.
pub begin_alert :
    Dispute → ℕ → Option String → Map (ChangelogEntry Metadata) → Option (Payload Metadata)
unfolding alert_payload
begin_alert d elapsed request store = elim (check_append (alert_payload d elapsed request) store) [
  | none ↦ some (alert_payload d elapsed request)
  | some e ↦ none
]

pub begin_alerts :
    List (Dispute × ℕ) → Option String → Map (ChangelogEntry Metadata) → List (Payload Metadata)
begin_alerts [] request store = []
begin_alerts ((d, elapsed) ∷ l) request store =
    let rest = begin_alerts l request store in
    elim (begin_alert d elapsed request store) [ none ↦ rest | some p ↦ p ∷ rest ]

-- The changelog, and the alerts that have looked at it and are still to be written.
pub record World : Type 0 where
  pub log : State Metadata
  pub pending : List (Payload Metadata)

-- A request up to `Promise.all`, which begins all its alerts at once, with its answer.
pub begin_request : Option String → ℕ → Store → World → World × List (Dispute × ℕ)
unfolding sla_breaches
begin_request request now store w =
    let breaches = sla_breaches now store in
    (record w { pending = w.pending ++ begin_alerts breaches request w.log.store }, breaches)

nth : ℕ → List (Payload Metadata) → Option (Payload Metadata)
nth i [] = none
nth zero (p ∷ l) = some p
nth (suc i) (p ∷ l) = nth i l

without : ℕ → List (Payload Metadata) → List (Payload Metadata)
without i [] = []
without zero (p ∷ l) = l
without (suc i) (p ∷ l) = p ∷ without i l

write_picked : (Metadata → Metadata) → ℕ → ℕ → Option (Payload Metadata) → World → World
unfolding without
write_picked copy i now none w = w
write_picked copy i now (some p) w = record {
  log = commit_append copy p now w.log;
  pending = without i w.pending;
}

-- The alert at `i` goes on to its write.
pub write_alert : (Metadata → Metadata) → ℕ → ℕ → World → World
unfolding write_picked nth
write_alert copy i now w = write_picked copy i now (nth i w.pending) w

-- A request arrives with its id, or an alert goes on.
pub data Step : Type 0 where
  arrive : Option String → Store → Step
  go_on : ℕ → Step

pub step : (Metadata → Metadata) → Step → ℕ → World → World
unfolding begin_request write_alert
step copy (arrive request store) now w = (begin_request request now store w).0
step copy (go_on i) now w = write_alert copy i now w
