-- ===== src/Backend/Breaches/Listed.antt =====
-- Which disputes disputes.ts lists as breaches.
use stellar_true_stub.Common.{
  ℕ, filter-Mem, ◌+◌, ◌<◌, ◌≡◌, ◌↔◌, refl, sym, ap, ◌∙◌, inl, inr, subst, Option, none, some, List,
  [], ◌∷◌, Mem, Mem-cons, here, there, Option-cases, arith,
}
use stellar_true_stub.Backend.Dispute.Types.{escalated, Dispute}
use stellar_true_stub.Map
use stellar_true_stub.Backend.Dispute.{Store}
use stellar_true_stub.Backend.Dispute.Lists.{list_disputes_by_state}
use stellar_true_stub.Backend.Breaches.{
  escalated_sla_ms, breach_from, escalated_sla_breach, breaches_of, sla_breaches,
}

-- The dispute is escalated, and so many milliseconds have passed since, more than 30 days.
abbrev pub HasBreached : Dispute → ℕ → ℕ → Type 0
HasBreached d now elapsed =
    (d.state ≡ escalated)
    × ((at : ℕ) × (d.escalated_at ≡ some at) × (at + elapsed ≡ now) × (escalated_sla_ms < elapsed))

breach_from_iff :
    (o : Option ℕ) (now elapsed : ℕ)
    → (breach_from o now ≡ some elapsed)
      ↔ ((at : ℕ) × (o ≡ some at) × (at + elapsed ≡ now) × (escalated_sla_ms < elapsed))
unfolding breach_from
breach_from_iff none now elapsed = (λ e. cc, λ (at, e, sum, long). cc)
breach_from_iff (some at) now elapsed = (
  λ e. (at, refl, ground (arith, e), ground (arith, e)),
  λ (t, same, sum, long). let start : at ≡ t = cc in ground (arith, start, sum, long),
)

breach_iff :
    (d : Dispute) (now elapsed : ℕ)
    → (escalated_sla_breach d now ≡ some elapsed) ↔ HasBreached d now elapsed
unfolding escalated_sla_breach
breach_iff d now elapsed = (
  λ h.
      let at : d.state ≡ escalated = ground (arith, h) in
      let since : breach_from d.escalated_at now ≡ some elapsed = ground (arith, h) in
      (at, (breach_from_iff d.escalated_at now elapsed).0 since),
  λ (at, waited). rw at ((breach_from_iff d.escalated_at now elapsed).1 waited),
)

breaches_of-nil : (now : ℕ) → breaches_of now [] ≡ []
unfolding breaches_of
breaches_of-nil now = refl

breaches_of-here :
    (now : ℕ) (d : Dispute) (l : List Dispute) (elapsed : ℕ)
    → escalated_sla_breach d now ≡ some elapsed
    → breaches_of now (d ∷ l) ≡ (d, elapsed) ∷ breaches_of now l
unfolding breaches_of
breaches_of-here now d l elapsed h = rw (breaches_of, h) refl

breaches_of-skip :
    (now : ℕ) (d : Dispute) (l : List Dispute)
    → escalated_sla_breach d now ≡ none
    → breaches_of now (d ∷ l) ≡ breaches_of now l
unfolding breaches_of
breaches_of-skip now d l h = rw (breaches_of, h) refl

listed :
    (now : ℕ) (d : Dispute) (elapsed : ℕ) (l : List Dispute)
    → Mem (d, elapsed) (breaches_of now l)
    → Mem d l × (escalated_sla_breach d now ≡ some elapsed)
listed now d elapsed [] m = elim (subst (Mem (d, elapsed)) (breaches_of-nil now) m) [ ]
listed now d elapsed (c ∷ l) m = elim (Option-cases (escalated_sla_breach c now)) [
  | inl none_there ↦
      let (k, e) = listed now d elapsed l (rw (breaches_of-skip now c l none_there) at m) in
      (there k, e)
  | inr (t, found) ↦
      elim (Mem-cons (d, elapsed) (c, t) (breaches_of now l)
        (rw (breaches_of-here now c l t found) at m)) [
          | inl same ↦
              let e : d ≡ c = ap (λ q. q.0) same in
              let k : elapsed ≡ t = ap (λ q. q.1) same in
              (here e, ap (λ x. escalated_sla_breach x now) e ∙ found ∙ ap some (sym k))
          | inr later ↦ let (k, e) = listed now d elapsed l later in (there k, e)
        ]
]

lists :
    (now : ℕ) (d : Dispute) (elapsed : ℕ) (l : List Dispute)
    → Mem d l
    → escalated_sla_breach d now ≡ some elapsed
    → Mem (d, elapsed) (breaches_of now l)
lists now d elapsed [] m h = elim m [ ]
lists now d elapsed (c ∷ l) (here same) h =
    let e : escalated_sla_breach c now ≡ some elapsed =
      ap (λ x. escalated_sla_breach x now) (sym same) ∙ h in
    rw (breaches_of-here now c l elapsed e) (here (ap (λ x. (x, elapsed)) same))
lists now d elapsed (c ∷ l) (there m) h = elim (Option-cases (escalated_sla_breach c now)) [
  | inl none_there ↦ rw (breaches_of-skip now c l none_there) (lists now d elapsed l m h)
  | inr (t, found) ↦ rw (breaches_of-here now c l t found) (there (lists now d elapsed l m h))
]

-- A request lists exactly the stored disputes that are escalated, and for more than 30 days, each with
-- the time that has passed since.
pub sla_breaches_iff :
    (now : ℕ) (store : Store) (d : Dispute) (elapsed : ℕ)
    → Mem (d, elapsed) (sla_breaches now store)
      ↔ (Mem d (Map.values store) × HasBreached d now elapsed)
unfolding sla_breaches list_disputes_by_state
sla_breaches_iff now store d elapsed =
    let found = filter-Mem _ d (Map.values store) in
    (
      λ m.
          let (k, e) = listed now d elapsed (list_disputes_by_state escalated store) m in
          ((found.0 k).0, (breach_iff d now elapsed).0 e),
      λ (m, waited).
          lists now d elapsed (list_disputes_by_state escalated store)
            (found.1 (m, rw (waited.0) refl)) ((breach_iff d now elapsed).1 waited),
    )
