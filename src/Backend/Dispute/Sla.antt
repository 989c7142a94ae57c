-- ===== src/Backend/Dispute/Sla.antt =====
-- The 30-day SLA of an escalated dispute in dispute.service.ts: its age in whole days (negative
-- where the clock stands before the escalation), the overdue ones, and the alerts.
use stellar_true_stub.Common.{
  ℕ, suc, ◌+◌, ◌-◌, ◌*◌, ◌/◌, ◌≤◌, ◌<◌, ◌≡◌, refl, ◌↔◌, String, Bool, true, false, Option, none,
  some, List, if◌then◌else◌, leb, arith, map, filter, Mem, filter-Mem, get_or_else,
}
use stellar_true_stub.Map
use stellar_true_stub.Backend.Dispute.Types.{escalated, Dispute, ℤ, pos, negsuc}
use stellar_true_stub.Backend.Dispute.{Store}

abbrev pub escalated_sla_days : ℕ
escalated_sla_days = 30

-- `MS_PER_DAY`.
abbrev pub ms_per_day : ℕ
ms_per_day = 86400000

-- `Math.floor((now - from) / MS_PER_DAY)`.
unfoldable pub whole_days : ℕ → ℕ → ℤ
whole_days now from =
    if leb from now then pos ((now - from) / ms_per_day) else negsuc ((from - now - 1) / ms_per_day)

abbrev at_least : ℤ → ℕ → Bool
at_least (pos n) k = leb k n
at_least (negsuc n) k = false

age_from : Option ℕ → ℕ → Option ℤ
age_from none now = none
age_from (some from) now = some (whole_days now from)

pub escalated_age_days : Dispute → ℕ → Option ℤ
unfolding age_from
escalated_age_days d now = elim d.state [ escalated ↦ age_from d.escalated_at now | _ ↦ none ]

age_reaches : Option ℤ → ℕ → Bool
age_reaches none sla = false
age_reaches (some age) sla = at_least age sla

pub is_escalated_overdue : Dispute → ℕ → ℕ → Bool
unfolding age_reaches
is_escalated_overdue d now sla = age_reaches (escalated_age_days d now) sla

pub list_overdue_escalated : ℕ → ℕ → Store → List Dispute
list_overdue_escalated now sla s = filter (λ d. is_escalated_overdue d now sla) (Map.values s)

pub data Severity : Type 0 where
  warning critical : Severity

-- The alert, without its `message`.
pub record EscalatedSlaAlert : Type 0 where
  pub dispute_id : String
  pub escrow_id : String
  pub escalated_at : Option ℕ
  pub days_escalated : ℤ
  pub sla_days : ℕ
  pub severity : Severity

pub alert_of : ℕ → ℕ → Dispute → EscalatedSlaAlert
alert_of now sla d =
    let days : ℤ = get_or_else (escalated_age_days d now) (pos sla) in
    record {
      dispute_id = d.dispute_id;
      escrow_id = d.escrow_id;
      escalated_at = d.escalated_at;
      days_escalated = days;
      sla_days = sla;
      severity = if at_least days (sla * 2) then critical else warning;
    }

pub check_escalated_sla : ℕ → ℕ → Store → List Dispute × List EscalatedSlaAlert
check_escalated_sla now sla s =
    let overdue = list_overdue_escalated now sla s in (overdue, map (alert_of now sla) overdue)

-- The dispute is escalated, and `days` whole days have passed since.
abbrev pub HasWaited : Dispute → ℕ → ℕ → Type 0
HasWaited d now days =
    (d.state ≡ escalated)
    × ((from : ℕ) × (d.escalated_at ≡ some from) × (from + days * ms_per_day ≤ now))

whole_days_iff :
    (now from k : ℕ) → (at_least (whole_days now from) k ≡ true) ↔ (from + k * ms_per_day ≤ now)
unfolding whole_days
whole_days_iff now from k = (λ h. ground arith, λ h. ground arith)

age_iff :
    (o : Option ℕ) (now k : ℕ)
    → (age_reaches (age_from o now) k ≡ true)
      ↔ ((from : ℕ) × (o ≡ some from) × (from + k * ms_per_day ≤ now))
unfolding age_from age_reaches
age_iff none now k = (λ h. cc, λ (from, h, le). cc)
age_iff (some from) now k = (
  λ h. (from, refl, (whole_days_iff now from k).0 h),
  λ (t, h, le). (whole_days_iff now from k).1 (ground (arith, h, le)),
)

-- A dispute is overdue exactly when it is escalated and at least `sla` days of 86400000
-- milliseconds have passed since the escalation.
pub overdue_iff :
    (d : Dispute) (now sla : ℕ) → (is_escalated_overdue d now sla ≡ true) ↔ HasWaited d now sla
unfolding is_escalated_overdue escalated_age_days
overdue_iff d now sla = (
  λ h.
      let at : d.state ≡ escalated = ground (arith, h) in
      let reaches : age_reaches (age_from d.escalated_at now) sla ≡ true = ground (arith, h) in
      (at, (age_iff _ now sla).0 reaches),
  λ (at, waited). rw at ((age_iff d.escalated_at now sla).1 waited),
)

-- The SLA check returns exactly the stored disputes that are escalated and have waited `sla` days.
pub check_escalated_sla_iff :
    (d : Dispute) (now sla : ℕ) (s : Store)
    → Mem d (check_escalated_sla now sla s).0 ↔ (Mem d (Map.values s) × HasWaited d now sla)
unfolding check_escalated_sla list_overdue_escalated
check_escalated_sla_iff d now sla s =
    let kept = filter-Mem (λ d. is_escalated_overdue d now sla) d (Map.values s) in
    let due = overdue_iff d now sla in
    (
      λ h. let (stored, over) = kept.0 h in (stored, due.0 over),
      λ (stored, waited). kept.1 (stored, due.1 waited),
    )

-- An age in days that reaches some number is that of the full days that have passed.
age_exact :
    (now from k : ℕ)
    → from + k * ms_per_day ≤ now
    → (n : ℕ) × (whole_days now from ≡ pos n)
      × (from + n * ms_per_day ≤ now)
      × (now < from + suc n * ms_per_day)
unfolding whole_days
age_exact now from k h =
    ((now - from) / ms_per_day, ground (arith, h), omega (arith, h), omega (arith, h))

-- The alert of an overdue dispute counts `n` days, where `n` full days have passed since the
-- escalation and `n + 1` have not, and is critical exactly when `n` reaches twice the SLA.
pub alert_of_overdue :
    (d : Dispute) (now sla : ℕ)
    → HasWaited d now sla
    → (n : ℕ) × ((alert_of now sla d).days_escalated ≡ pos n)
      × HasWaited d now n
      × (¬ HasWaited d now (suc n))
      × (((alert_of now sla d).severity ≡ critical) ↔ (sla * 2 ≤ n))
unfolding alert_of escalated_age_days age_from
alert_of_overdue d now sla (at, (from, since, h)) =
    let (n, days, low, high) = age_exact now from sla h in
    let level : (alert_of now sla d).severity ≡ (if leb (sla * 2) n then critical else warning) =
      rw (at, since, days) in
    (
      n,
      rw (at, since, days),
      (at, (from, since, low)),
      λ (_, (t, e, more)). ground (arith, e, since, more, high),
      (λ c. ground (arith, level, c), λ le. ground (arith, level, le)),
    )
