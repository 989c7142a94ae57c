-- ===== src/Backend/Dispute/Lists/Counts.antt =====
-- The counts that `getMetrics` of dispute.service.ts reports.
use stellar_true_stub.Common.{ℕ, ◌+◌, ◌≤◌, ◌≡◌, Option, List, [], ◌∷◌, arith, filter, length}
use stellar_true_stub.Backend.Dispute.Types.{open_state, escalated, resolved, withdrawn, Dispute}
use stellar_true_stub.Backend.Dispute.{Store}
use stellar_true_stub.Backend.Dispute.Sla.{is_escalated_overdue, escalated_sla_days, overdue_iff}
use stellar_true_stub.Backend.Dispute.Lists.{count_state, in_range_of, get_metrics}

count_split :
    (ds : List Dispute)
    → count_state open_state ds
        + count_state escalated ds
        + count_state resolved ds
        + count_state withdrawn ds
      ≡ length ds
count_split [] = omega arith
count_split (d ∷ ds) = ground (arith, count_split ds)

count_overdue :
    (now : ℕ) (ds : List Dispute)
    → length (filter (λ d. is_escalated_overdue d now escalated_sla_days) ds)
      ≤ count_state escalated ds
count_overdue now [] = omega arith
count_overdue now (d ∷ ds) =
    ground (arith, count_overdue now ds, (overdue_iff d now escalated_sla_days).0)

-- The counts add up: the four states sum to the total, so do the active and the closed disputes,
-- and the overdue ones are among the escalated ones.
pub get_metrics_sums :
    (from to : Option ℕ) (now : ℕ) (s : Store)
    → let m = get_metrics from to now s in
      (m.by_open + m.by_escalated + m.by_resolved + m.by_withdrawn ≡ m.total)
      × (m.active + m.closed ≡ m.total)
      × (m.overdue_escalated ≤ m.by_escalated)
unfolding get_metrics
get_metrics_sums from to now s =
    let ds = in_range_of from to s in
    (count_split ds, omega (arith, count_split ds), count_overdue now ds)
