-- ===== src/Backend/Breaches/Alerts.antt =====
-- Which disputes disputes.ts reports as breaches, and how often it alerts about one.
use stellar_true_stub.Common.{
  ℕ, zero, suc, ◌+◌, ◌≡◌, refl, ◌∙◌, String, Bool, true, false, ◌&&◌, Option, none, some, List, [],
  ◌∷◌, ◌++◌, if◌then◌else◌, str_eq, eq_iff, arith, inl, inr, ap, Mem, Mem-cons, here, there,
  Bool-cases, Option-cases,
}
use stellar_true_stub.Map
use stellar_true_stub.Map.{Map}
use stellar_true_stub.Map.Laws
use stellar_true_stub.Backend.AppError.{is_blank}
use stellar_true_stub.Backend.Dispute.Types.{Dispute}
use stellar_true_stub.Backend.Changelog.{
  State, ChangelogEntry, Payload, ChangelogEvent, EventType, entry_appended, entry_removed,
  check_append, commit_append,
}
use stellar_true_stub.Backend.Breaches.{
  Metadata, alert_id, alert_payload, begin_alert, begin_alerts, World, begin_request, nth, without,
  write_picked, write_alert, Step, arrive, go_on, step, sla_breaches,
}

is_append : EventType → Bool
is_append entry_appended = true
is_append entry_removed = false

-- How many of the events say that an entry with this id was appended.
unfoldable pub appended : String → List (ChangelogEvent Metadata) → ℕ
unfolding is_append
appended id [] = 0
appended id (e ∷ l) =
    (if is_append e.type && str_eq e.entry.entry_id id then 1 else 0) + appended id l

-- How many of the alerts are to write an entry with this id.
pub waiting : String → List (Payload Metadata) → ℕ
waiting id [] = 0
waiting id (p ∷ l) = (if str_eq p.entry_id id then 1 else 0) + waiting id l

abbrev potential : String → World → ℕ
potential id w = appended id w.log.events + waiting id w.pending

unfoldable pub run : (Metadata → Metadata) → List (Step × ℕ) → World → World
run copy [] w = w
run copy ((x, now) ∷ l) w = run copy l (step copy x now w)

module _ (id : String) where
  waiting-append :
      (k l : List (Payload Metadata)) → waiting id (k ++ l) ≡ waiting id k + waiting id l
  unfolding waiting
  waiting-append [] l = omega arith
  waiting-append (p ∷ k) l = omega (arith, waiting-append k l)

  waiting-without :
      (i : ℕ) (l : List (Payload Metadata)) (p : Payload Metadata)
      → nth i l ≡ some p
      → waiting id l ≡ waiting id (without i l) + (if str_eq p.entry_id id then 1 else 0)
  unfolding waiting nth without
  waiting-without i [] p h = cc
  waiting-without zero (q ∷ l) p h = let same : q ≡ p = cc in rw same (omega arith)
  waiting-without (suc i) (q ∷ l) p h = omega (arith, waiting-without i l p h)

  begin-waiting :
      (l : List (Dispute × ℕ)) (request : Option String) (store : Map (ChangelogEntry Metadata))
      → Map.has id store ≡ true
      → waiting id (begin_alerts l request store) ≡ 0
  unfolding begin_alerts begin_alert check_append waiting
  begin-waiting [] request store h = refl
  begin-waiting ((d, elapsed) ∷ l) request store h = grind (
    arith,
    begin-waiting l request store h,
    eq_iff (alert_payload d elapsed request).entry_id id,
    h,
  )

  commit-appended :
      (copy : Metadata → Metadata) (p : Payload Metadata) (now : ℕ) (s : State Metadata)
      → appended id (commit_append copy p now s).events
        ≡ (if str_eq p.entry_id id then 1 else 0) + appended id s.events
  unfolding commit_append appended
  commit-appended copy p now s = refl

  commit-has :
      (copy : Metadata → Metadata) (p : Payload Metadata) (now : ℕ) (s : State Metadata)
      → Map.has id s.store ≡ true
      → Map.has id (commit_append copy p now s).store ≡ true
  unfolding commit_append
  commit-has copy p now s h = grind (arith, Laws.get-set, eq_iff p.entry_id id, h)

  module _ (copy : Metadata → Metadata) where
    abbrev Kept : World → World → Type 0
    Kept w after = (Map.has id after.log.store ≡ true) × (potential id after ≡ potential id w)

    picked-Kept :
        (i now : ℕ) (o : Option (Payload Metadata)) (w : World)
        → nth i w.pending ≡ o
        → Map.has id w.log.store ≡ true
        → Kept w (write_picked copy i now o w)
    unfolding write_picked
    picked-Kept i now none w e h = (h, refl)
    picked-Kept i now (some p) w e h = (
      commit-has copy p now w.log h,
      omega (arith, commit-appended copy p now w.log, waiting-without i w.pending p e),
    )

    step-Kept :
        (x : Step) (now : ℕ) (w : World)
        → Map.has id w.log.store ≡ true
        → Kept w (step copy x now w)
    unfolding step begin_request write_alert
    step-Kept (arrive request store) now w h =
        let new = begin_alerts (sla_breaches now store) request w.log.store in
        (
          h,
          omega (
            arith,
            waiting-append w.pending new,
            begin-waiting (sla_breaches now store) request w.log.store h,
          ),
        )
    step-Kept (go_on i) now w h = picked-Kept i now _ w refl h

    -- Once the changelog holds an entry with the id of an alert, then however requests arrive and
    -- alerts go on, no more entries with this id are appended than alerts with it had already looked
    -- at the changelog; what they have not yet appended they still wait for. So a request that
    -- arrives after the first alert was written appends none for that breach.
    pub run-appended :
        (l : List (Step × ℕ)) (w : World)
        → Map.has id w.log.store ≡ true
        → appended id (run copy l w).log.events + waiting id (run copy l w).pending
          ≡ appended id w.log.events + waiting id w.pending
    unfolding run
    run-appended [] w h = refl
    run-appended ((x, now) ∷ l) w h =
        let (there_still, same) = step-Kept x now w h in
        run-appended l (step copy x now w) there_still ∙ same

alert_id-filled : (dispute : String) → is_blank (alert_id dispute) ≡ false
alert_id-filled dispute = elim (Bool-cases (is_blank (alert_id dispute))) [
  | inl blank ↦ let k = (eq_iff (alert_id dispute) "").0 blank in cc
  | inr full ↦ full
]

check_alert :
    (d : Dispute) (elapsed : ℕ) (request : Option String) (store : Map (ChangelogEntry Metadata))
    → is_blank d.dispute_id ≡ false
    → Map.has (alert_id d.dispute_id) store ≡ false
    → check_append (alert_payload d elapsed request) store ≡ none
unfolding check_append alert_payload
check_alert d elapsed request store named free =
    grind (arith, alert_id-filled d.dispute_id, named, free)

begin_alert-begins :
    (d : Dispute) (elapsed : ℕ) (request : Option String) (store : Map (ChangelogEntry Metadata))
    → is_blank d.dispute_id ≡ false
    → Map.has (alert_id d.dispute_id) store ≡ false
    → begin_alert d elapsed request store ≡ some (alert_payload d elapsed request)
unfolding begin_alert
begin_alert-begins d elapsed request store named free =
    rw (begin_alert, check_alert d elapsed request store named free) refl

-- For every breach that a request answers, if its id is not empty, the changelog has an entry or the
-- request's alert goes on to write one.
pub begin_alerts-begins :
    (l : List (Dispute × ℕ)) (request : Option String) (store : Map (ChangelogEntry Metadata))
    (d : Dispute) (elapsed : ℕ)
    → Mem (d, elapsed) l
    → is_blank d.dispute_id ≡ false
    → Map.has (alert_id d.dispute_id) store ≡ false
    → Mem (alert_payload d elapsed request) (begin_alerts l request store)
unfolding begin_alerts
begin_alerts-begins [] request store d elapsed m named free = elim m [ ]
begin_alerts-begins ((c, k) ∷ l) request store d elapsed m named free =
    elim (Mem-cons (d, elapsed) (c, k) l m) [
      | inl same ↦
          let e : d ≡ c = ap (λ q. q.0) same in
          let t : elapsed ≡ k = ap (λ q. q.1) same in
          rw (← e, ← t)
            (rw (begin_alerts, begin_alert-begins d elapsed request store named free) (here refl))
      | inr later ↦
          let rest = begin_alerts-begins l request store d elapsed later named free in
          elim (Option-cases (begin_alert c k request store)) [
            | inl none_here ↦ rw (begin_alerts, none_here) rest
            | inr (p, begun) ↦ rw (begin_alerts, begun) (there rest)
          ]
    ]
