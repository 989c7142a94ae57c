-- ===== src/Backend/Dispute/Lists.antt =====
-- The lists and the metrics of dispute.service.ts. A numeric option of a call is what `Math.floor`
-- makes of it: an integer, or a number that is not finite.
pub mod Pages
pub mod Counts
use stellar_true_stub.Common.{
  ℕ, suc, ◌+◌, ◌-◌, ◌*◌, ◌/◌, ◌≤◌, ◌<◌, ◌≡◌, refl, ◌↔◌, inl, inr, String, Bool, true, false, ◌&&◌,
  ◌||◌, Option, none, some, List, [], ◌∷◌, if◌then◌else◌, leb, ltb, arith, map, filter, Mem,
  filter-Mem, get_or_else, Bool-cases, length, drop, str_eq, is_some, take, ◌==◌,
}
use stellar_true_stub.Map
use stellar_true_stub.Backend.Dispute.Types.{
  DisputeState, open_state, escalated, resolved, withdrawn, Dispute, ℤ, pos, negsuc,
}
use stellar_true_stub.Backend.Dispute.{Store, is_final}
use stellar_true_stub.Backend.Dispute.Sla.{is_escalated_overdue, escalated_sla_days}

pub data Number : Type 0 where
  integer : ℤ → Number
  not_finite : Number

abbrev pub default_dispute_page_size : ℕ
default_dispute_page_size = 10

abbrev pub max_dispute_page_size : ℕ
max_dispute_page_size = 50

abbrev same_state : DisputeState → DisputeState → Bool
same_state open_state open_state = true
same_state escalated escalated = true
same_state resolved resolved = true
same_state withdrawn withdrawn = true
same_state _ _ = false

unfoldable pub list_disputes_by_escrow : String → Store → List Dispute
list_disputes_by_escrow escrow s = filter (λ d. str_eq d.escrow_id escrow) (Map.values s)

unfoldable pub list_disputes_by_state : DisputeState → Store → List Dispute
list_disputes_by_state state s = filter (λ d. same_state d.state state) (Map.values s)

-- The page size that a call gets: `none` where it names no limit.
unfoldable pub page_limit : Option Number → ℕ
page_limit (some (integer (pos n))) =
    if leb 1 n
    then (if leb n max_dispute_page_size then n else max_dispute_page_size)
    else default_dispute_page_size
page_limit _ = default_dispute_page_size

pub page_offset : Option Number → ℕ
page_offset (some (integer (pos n))) = n
page_offset _ = 0

-- One step of a stable sort, newest first.
insert_newest : Dispute → List Dispute → List Dispute
insert_newest d [] = d ∷ []
insert_newest d (e ∷ es) =
    if leb e.opened_at d.opened_at then d ∷ e ∷ es else e ∷ insert_newest d es

unfoldable pub newest_first : List Dispute → List Dispute
unfolding insert_newest
newest_first [] = []
newest_first (d ∷ ds) = insert_newest d (newest_first ds)

pub record DisputePage : Type 0 where
  pub disputes : List Dispute
  pub total : ℕ
  pub limit : ℕ
  pub offset : ℕ
  pub has_more : Bool

pub list_disputes_by_user_paginated : String → Option Number → Option Number → Store → DisputePage
list_disputes_by_user_paginated user limit offset s =
    let mine = newest_first (filter (λ d. str_eq d.raised_by user) (Map.values s)) in
    let page = take (page_limit limit) (drop (page_offset offset) mine) in
    record {
      disputes = page;
      total = length mine;
      limit = page_limit limit;
      offset = page_offset offset;
      has_more = ltb (page_offset offset + length page) (length mine);
    }

-- The counts of `getMetrics`; its quotients and the rounded average are left out.
pub record DisputeMetrics : Type 0 where
  pub total : ℕ
  pub by_open : ℕ
  pub by_escalated : ℕ
  pub by_resolved : ℕ
  pub by_withdrawn : ℕ
  pub active : ℕ
  pub closed : ℕ
  pub escalated_count : ℕ
  pub overdue_escalated : ℕ

abbrev count_state : DisputeState → List Dispute → ℕ
count_state state ds = length (filter (λ d. same_state d.state state) ds)

-- A bound of the range that is not given holds of every time.
abbrev after_from : Option ℕ → ℕ → Bool
after_from none opened = true
after_from (some from) opened = leb from opened

abbrev before_to : Option ℕ → ℕ → Bool
before_to none opened = true
before_to (some to) opened = leb opened to

unfoldable pub in_range_of : Option ℕ → Option ℕ → Store → List Dispute
in_range_of from to s =
    filter (λ d. after_from from d.opened_at && before_to to d.opened_at) (Map.values s)

unfoldable pub get_metrics : Option ℕ → Option ℕ → ℕ → Store → DisputeMetrics
unfolding in_range_of
get_metrics from to now s =
    let ds = in_range_of from to s in
    record {
      total = length ds;
      by_open = count_state open_state ds;
      by_escalated = count_state escalated ds;
      by_resolved = count_state resolved ds;
      by_withdrawn = count_state withdrawn ds;
      active = count_state open_state ds + count_state escalated ds;
      closed = count_state resolved ds + count_state withdrawn ds;
      escalated_count = length (filter (λ d. is_some d.escalated_at) ds);
      overdue_escalated = length (filter (λ d. is_escalated_overdue d now escalated_sla_days) ds);
    }
