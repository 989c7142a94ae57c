-- ===== src/Frontend/Dispute/Traces.antt =====
-- Sequences of calls on dispute-state-machine.ts, made by any parties on any contracts.
use stellar_true_stub.Common.{
  ℕ, suc, ◌+◌, ◌≤◌, ◌≡◌, refl, inl, inr, String, Bool, true, false, ◌&&◌, List, [], ◌∷◌, arith,
  if◌then◌else◌, str_eq, eq_iff, is_ok, ◌∙◌,
}
use stellar_true_stub.Map
use stellar_true_stub.Map.Laws
use stellar_true_stub.Frontend.Dispute.Types.{
  DisputeState, opened, escalated, DisputeAction, DisputeRecord, DisputeStore,
}
use stellar_true_stub.Frontend.Dispute.{terminal_dispute_states, get_dispute_state}
use stellar_true_stub.Frontend.Dispute.Table.{
  is_resolved, is_refunded, is_released, Transition, opens, escalates, withdraws, resolves, settles,
}
use stellar_true_stub.Frontend.Dispute.Calls.{Call, perform, perform_cases}
use stellar_true_stub.Frontend.Dispute.Invariant.{Fits, IsWellFormed, perform-IsWellFormed}

-- A call with the contract that it names and the time at which it runs.
pub record Event : Type 0 where
  pub call : Call
  pub contract_id : String
  pub now : ℕ

abbrev pub step : Event → DisputeStore → DisputeStore
step e s = (perform e.call e.contract_id e.now s).0

abbrev pub is_accepted : Event → DisputeStore → Bool
is_accepted e s = is_ok (perform e.call e.contract_id e.now s).1

unfoldable pub run : List Event → DisputeStore → DisputeStore
run [] s = s
run (e ∷ es) s = run es (step e s)

-- How many calls on `c` are accepted.
unfoldable pub accepted : String → List Event → DisputeStore → ℕ
accepted c [] s = 0
accepted c (e ∷ es) s =
    let rest = accepted c es (step e s) in
    if str_eq e.contract_id c && is_accepted e s then suc rest else rest

-- How far a dispute has come.
abbrev pub rank : DisputeState → ℕ
rank DisputeState.none = 0
rank opened = 1
rank escalated = 2
rank _ = 3

Transition-rank :
    {s t : DisputeState} {a : DisputeAction} → Transition s a t → suc (rank s) ≤ rank t
Transition-rank opens = omega arith
Transition-rank escalates = omega arith
Transition-rank withdraws = omega arith
Transition-rank (resolves is_resolved) = omega arith
Transition-rank (resolves is_refunded) = omega arith
Transition-rank (resolves is_released) = omega arith
Transition-rank (settles is_resolved) = omega arith
Transition-rank (settles is_refunded) = omega arith
Transition-rank (settles is_released) = omega arith

rank-le : (s : DisputeState) → rank s ≤ 3
rank-le s = ground arith

Transition-source :
    {s t : DisputeState} {a : DisputeAction} → Transition s a t → terminal_dispute_states s ≡ false
unfolding terminal_dispute_states
Transition-source opens = refl
Transition-source escalates = refl
Transition-source withdraws = refl
Transition-source (resolves v) = refl
Transition-source (settles v) = refl

module _ (c : String) (s : DisputeStore) where
  get_dispute_state-set :
      (k : String) (r : DisputeRecord)
      → get_dispute_state c (Map.set k r s)
        ≡ (if str_eq k c then r.state else get_dispute_state c s)
  unfolding get_dispute_state
  get_dispute_state-set k r = ground (arith, Laws.get-set k c r s)

  -- One event takes the contract that it names at least one rank up if it is accepted, and
  -- leaves every other contract where it is.
  step-rank :
      (e : Event)
      → rank (get_dispute_state c s) + (if str_eq e.contract_id c && is_accepted e s then 1 else 0)
        ≤ rank (get_dispute_state c (step e s))
  step-rank e = elim (perform_cases e.call e.contract_id e.now s) [
    | inl (r, done, p) ↦
        let higher : suc (rank (get_dispute_state e.contract_id s)) ≤ rank r.state =
          Transition-rank p in
        rw done
          (ground (arith, get_dispute_state-set e.contract_id r, eq_iff e.contract_id c, higher))
    | inr (refused, _) ↦ rw refused (ground arith)
  ]

  -- A terminal record is not touched, whatever is called on whichever contract.
  step-terminal :
      (e : Event)
      → terminal_dispute_states (get_dispute_state c s) ≡ true
      → Map.get c (step e s) ≡ Map.get c s
  step-terminal e h = elim (perform_cases e.call e.contract_id e.now s) [
    | inl (r, done, p) ↦
        rw (done, step)
          (ground
            (arith, Laws.get-set e.contract_id c r s, eq_iff e.contract_id c, Transition-source p))
    | inr (refused, _) ↦ rw (refused, step)
  ]

accepted-rank :
    (c : String) (es : List Event) (s : DisputeStore)
    → rank (get_dispute_state c s) + accepted c es s ≤ rank (get_dispute_state c (run es s))
unfolding accepted run
accepted-rank c [] s = omega arith
accepted-rank c (e ∷ es) s = ground (arith, step-rank c s e, accepted-rank c es (step e s))

-- In any sequence of calls by anybody, at most three calls on one contract are accepted, and fewer
-- the further the dispute on it has come (an open one two, an escalated one one, a closed one none).
pub accepted_bound :
    (c : String) (es : List Event) (s : DisputeStore)
    → accepted c es s + rank (get_dispute_state c s) ≤ 3
accepted_bound c es s =
    omega (arith, accepted-rank c es s, rank-le (get_dispute_state c (run es s)))

-- Once the dispute on a contract is in a terminal state, no sequence of calls changes its record.
pub run-terminal :
    (c : String) (es : List Event) (s : DisputeStore)
    → terminal_dispute_states (get_dispute_state c s) ≡ true
    → Map.get c (run es s) ≡ Map.get c s
unfolding run get_dispute_state
run-terminal c [] s h = refl
run-terminal c (e ∷ es) s h =
    let same = step-terminal c s e h in run-terminal c es (step e s) (rw same h) ∙ same

-- After any sequence of calls that starts from the empty store, every record is fit: it names the
-- contract under which it stands, has an end date and an author of the end exactly when its state
-- is terminal, and is REFUNDED exactly when the outcome is the buyer's win and RELEASED exactly
-- when it is the seller's.
pub run-IsWellFormed : (es : List Event) → IsWellFormed (run es [])
unfolding run
run-IsWellFormed es = from [] es (Laws.Every-nil Fits)
  where
    from : (s : DisputeStore) (es : List Event) → IsWellFormed s → IsWellFormed (run es s)
    from s [] w = w
    from s (e ∷ es) w = from (step e s) es (perform-IsWellFormed e.call e.contract_id e.now s w)
