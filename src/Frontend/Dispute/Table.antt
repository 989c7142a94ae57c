-- ===== src/Frontend/Dispute/Table.antt =====
-- The table of valid transitions in the header comment of dispute-state-machine.ts, as a relation.
use stellar_true_stub.Common.{◌≡◌, refl, ◌↔◌, true}
use stellar_true_stub.Frontend.Dispute.Types.{
  DisputeState, opened, escalated, resolved, refunded, released, withdrawn_by_claimant,
  DisputeAction,
}
use stellar_true_stub.Frontend.Dispute.{is_valid_dispute_transition}

-- "RESOLVED / REFUNDED / RELEASED".
pub data Verdict : DisputeState → Type 0 where
  is_resolved : Verdict resolved
  is_refunded : Verdict refunded
  is_released : Verdict released

pub data Transition : DisputeState → DisputeAction → DisputeState → Type 0 where
  opens : Transition DisputeState.none DisputeAction.open_dispute opened
  escalates : Transition opened DisputeAction.escalate escalated
  withdraws : Transition opened DisputeAction.withdraw withdrawn_by_claimant
  resolves : {t : DisputeState} → Verdict t → Transition opened DisputeAction.resolve t
  settles : {t : DisputeState} → Verdict t → Transition escalated DisputeAction.resolve t

transition_of :
    (s : DisputeState) (a : DisputeAction)
    → is_valid_dispute_transition s a ≡ true
    → (t : DisputeState) × Transition s a t
unfolding is_valid_dispute_transition
transition_of DisputeState.none DisputeAction.open_dispute h = (opened, opens)
transition_of opened DisputeAction.escalate h = (escalated, escalates)
transition_of opened DisputeAction.resolve h = (resolved, resolves is_resolved)
transition_of opened DisputeAction.withdraw h = (withdrawn_by_claimant, withdraws)
transition_of escalated DisputeAction.resolve h = (resolved, settles is_resolved)
transition_of _ _ h = cc

valid_of :
    {s t : DisputeState} {a : DisputeAction}
    → Transition s a t
    → is_valid_dispute_transition s a ≡ true
unfolding is_valid_dispute_transition
valid_of opens = refl
valid_of escalates = refl
valid_of withdraws = refl
valid_of (resolves v) = refl
valid_of (settles v) = refl

-- An action is accepted in a state exactly when the table has a transition for it.
pub valid_transition_iff :
    (s : DisputeState) (a : DisputeAction)
    → (is_valid_dispute_transition s a ≡ true) ↔ ((t : DisputeState) × Transition s a t)
valid_transition_iff s a = (transition_of s a, λ p. valid_of p.1)
