-- ===== src/Backend/Dispute/Machine.antt =====
-- What dispute.service.ts answers to a transition, on every path.
use stellar_true_stub.Common.{
  ℕ, ◌≡◌, ◌≢◌, ◌⊎◌, ap, if◌then◌else◌, refl, inl, inr, String, Option, none, some, ok, err, Result,
  Bool-cases, eq_iff,
}
use stellar_true_stub.Map
use stellar_true_stub.Backend.AppError.{AppError, is_blank}
use stellar_true_stub.Backend.Dispute.Types.{
  DisputeState, open_state, escalated, resolved, withdrawn, DisputeEvent, escalate, resolve,
  withdraw, Dispute,
}
use stellar_true_stub.Backend.Dispute.{
  invalid_payload, not_found, already_final, invalid_transition, resolve_transition, is_final,
  Store, updated, new_resolution, transition_to, transition_found, transition,
}

-- The resolution after `opts`: the text that is given, or the old one where none or an empty one is.
pub data Resolution (opts old : Option String) : Option String → Type 0 where
  given : (text : String) → opts ≡ some text → text ≢ "" → Resolution opts old (some text)
  kept : (opts ≡ none) ⊎ (opts ≡ some "") → Resolution opts old old

-- The dispute after a transition, by the table in the header of the source.
pub data Moved (opts : Option String) (now : ℕ) (d : Dispute)
    : DisputeEvent → Dispute → Type 0 where
  escalates :
      d.state ≡ open_state
      → Moved opts now d escalate
          (record d { state = escalated; updated_at = now; escalated_at = some now })
  resolves :
      (resolution : Option String)
      → (d.state ≡ open_state) ⊎ (d.state ≡ escalated)
      → Resolution opts d.resolution resolution
      → Moved opts now d resolve (record d {
        state = resolved;
        updated_at = now;
        resolved_at = some now;
        resolution = resolution;
      })
  withdraws :
      (d.state ≡ open_state) ⊎ (d.state ≡ escalated)
      → Moved opts now d withdraw (record d { state = withdrawn; updated_at = now })

-- The answers to a transition, each with the condition under which it is given.
pub data Answer (id : String) (event : DisputeEvent) (opts : Option String) (now : ℕ) (s : Store)
    : Store × Result AppError Dispute → Type 0 where
  no_id : id ≡ "" → Answer id event opts now s (s, err invalid_payload)
  missing : Map.get id s ≡ none → Answer id event opts now s (s, err not_found)
  ended :
      (d : Dispute)
      → Map.get id s ≡ some d
      → (d.state ≡ resolved) ⊎ (d.state ≡ withdrawn)
      → Answer id event opts now s (s, err already_final)
  escalated_twice :
      (d : Dispute)
      → Map.get id s ≡ some d
      → d.state ≡ escalated
      → event ≡ escalate
      → Answer id event opts now s (s, err invalid_transition)
  moved :
      (d after : Dispute)
      → Map.get id s ≡ some d
      → Moved opts now d event after
      → Answer id event opts now s (Map.set id after s, ok after)

new_resolution-Resolution :
    (opts old : Option String) → Resolution opts old (new_resolution opts old)
new_resolution-Resolution none old = kept (inl refl)
new_resolution-Resolution (some text) old = elim (Bool-cases (is_blank text)) [
  | inl blank ↦ rw blank (kept (inr (ap some ((eq_iff text "").0 blank))))
  | inr full ↦ rw full (given text refl (λ e. let k = (eq_iff text "").1 e in cc))
]

module _ (id : String) (opts : Option String) (now : ℕ) (s : Store) where
  state-Answer :
      (d : Dispute) (at : DisputeState) (event : DisputeEvent)
      → Map.get id s ≡ some d
      → d.state ≡ at
      → Answer id event opts now s (
          if is_final at
          then (s, err already_final)
          else transition_to id (resolve_transition at event) opts now d s)
  unfolding is_final resolve_transition transition_to updated
  state-Answer d resolved event found h = ended d found (inl h)
  state-Answer d withdrawn event found h = ended d found (inr h)
  state-Answer d open_state escalate found h = moved d _ found (escalates h)
  state-Answer d escalated escalate found h = escalated_twice d found h refl
  state-Answer d open_state resolve found h =
      moved d _ found (resolves _ (inl h) (new_resolution-Resolution opts d.resolution))
  state-Answer d escalated resolve found h =
      moved d _ found (resolves _ (inr h) (new_resolution-Resolution opts d.resolution))
  state-Answer d open_state withdraw found h = moved d _ found (withdraws (inl h))
  state-Answer d escalated withdraw found h = moved d _ found (withdraws (inr h))

  found-Answer :
      (event : DisputeEvent) (o : Option Dispute)
      → Map.get id s ≡ o
      → Answer id event opts now s (transition_found id event opts now o s)
  unfolding transition_found
  found-Answer event none h = missing h
  found-Answer event (some d) h = state-Answer d d.state event h refl

pub transition-Answer :
    (id : String) (event : DisputeEvent) (opts : Option String) (now : ℕ) (s : Store)
    → Answer id event opts now s (transition id event opts now s)
unfolding transition
transition-Answer id event opts now s = elim (Bool-cases (is_blank id)) [
  | inl blank ↦ rw blank (no_id ((eq_iff id "").0 blank))
  | inr there ↦ rw there (found-Answer id opts now s event _ refl)
]
