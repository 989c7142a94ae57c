-- ===== src/Backend/Dispute/Traces.antt =====
-- Sequences of calls that open and move disputes in dispute.service.ts.
use stellar_true_stub.Common.{
  ℕ, suc, ◌+◌, ◌≤◌, ◌≡◌, refl, String, true, ◌&&◌, Option, none, some, List, [], ◌∷◌, arith, inl,
  inr, if◌then◌else◌, str_eq, eq_iff, is_ok, Result, ◌∙◌,
}
use stellar_true_stub.Map
use stellar_true_stub.Map.Laws
use stellar_true_stub.Backend.AppError.{AppError}
use stellar_true_stub.Backend.Dispute.Types.{open_state, escalated, DisputeEvent, Dispute}
use stellar_true_stub.Backend.Dispute.{is_final, Store, transition, open_dispute}
use stellar_true_stub.Backend.Dispute.Machine.{
  Moved, escalates, resolves, withdraws, Answer, no_id, missing, ended, escalated_twice, moved,
  transition-Answer,
}

pub data Call : Type 0 where
  opens : String → String → String → String → Call
  moves : String → DisputeEvent → Option String → Call

unfoldable pub perform : Call → ℕ → Store → Store × Result AppError Dispute
perform (opens id escrow by reason) now s = open_dispute id escrow by reason now s
perform (moves id event opts) now s = transition id event opts now s

abbrev pub id_of : Call → String
id_of (opens id escrow by reason) = id
id_of (moves id event opts) = id

unfoldable pub run : List (Call × ℕ) → Store → Store
run [] s = s
run ((call, now) ∷ rest) s = run rest (perform call now s).0

-- How many of the calls on `id` are accepted.
unfoldable pub accepted : String → List (Call × ℕ) → Store → ℕ
accepted id [] s = 0
accepted id ((call, now) ∷ rest) s =
    let later = accepted id rest (perform call now s).0 in
    if str_eq (id_of call) id && is_ok (perform call now s).1 then suc later else later

-- How far a dispute has come.
abbrev pub rank : Option Dispute → ℕ
rank none = 0
rank (some d) = elim d.state [ open_state ↦ 1 | escalated ↦ 2 | _ ↦ 3 ]

rank-le : (o : Option Dispute) → rank o ≤ 3
rank-le none = omega arith
rank-le (some d) = ground arith

Moved-rank :
    (opts : Option String) (now : ℕ) (d after : Dispute) (event : DisputeEvent)
    → Moved opts now d event after
    → suc (rank (some d)) ≤ rank (some after)
Moved-rank opts now d _ _ (escalates h) = ground (arith, h)
Moved-rank opts now d _ _ (resolves text (inl h) r) = ground (arith, h)
Moved-rank opts now d _ _ (resolves text (inr h) r) = ground (arith, h)
Moved-rank opts now d _ _ (withdraws (inl h)) = ground (arith, h)
Moved-rank opts now d _ _ (withdraws (inr h)) = ground (arith, h)

module _ (c : String) (s : Store) where
  rank-set :
      (k : String) (d : Dispute)
      → rank (Map.get c (Map.set k d s))
        ≡ (if str_eq k c then rank (some d) else rank (Map.get c s))
  rank-set k d = ground (arith, Laws.get-set k c d s)

  Answer-rank :
      (id : String) (event : DisputeEvent) (opts : Option String) (now : ℕ)
      (answer : Store × Result AppError Dispute)
      → Answer id event opts now s answer
      → rank (Map.get c s) + (if str_eq id c && is_ok answer.1 then 1 else 0)
        ≤ rank (Map.get c answer.0)
  Answer-rank id event opts now _ (no_id h) = ground arith
  Answer-rank id event opts now _ (missing h) = ground arith
  Answer-rank id event opts now _ (ended d h f) = ground arith
  Answer-rank id event opts now _ (escalated_twice d h at by) = ground arith
  Answer-rank id event opts now _ (moved d after h e) =
      ground (arith, rank-set id after, eq_iff id c, h, Moved-rank opts now d after event e)

  -- An accepted call takes the dispute that it names at least one rank up.
  perform-rank :
      (call : Call) (now : ℕ)
      → rank (Map.get c s)
          + (if str_eq (id_of call) c && is_ok (perform call now s).1 then 1 else 0)
        ≤ rank (Map.get c (perform call now s).0)
  unfolding perform open_dispute
  perform-rank (opens id escrow by reason) now = grind (arith, rank-set, eq_iff id c)
  perform-rank (moves id event opts) now =
      Answer-rank id event opts now _ (transition-Answer id event opts now s)

  Answer-final :
      (id : String) (event : DisputeEvent) (opts : Option String) (now : ℕ)
      (answer : Store × Result AppError Dispute)
      → Answer id event opts now s answer
      → rank (Map.get c s) ≡ 3
      → Map.get c answer.0 ≡ Map.get c s
  Answer-final id event opts now _ (no_id h) f = refl
  Answer-final id event opts now _ (missing h) f = refl
  Answer-final id event opts now _ (ended d h k) f = refl
  Answer-final id event opts now _ (escalated_twice d h at by) f = refl
  Answer-final id event opts now _ (moved d after h e) f = ground (
    arith,
    Laws.get-set id c after s,
    eq_iff id c,
    h,
    rank-le (some after),
    Moved-rank opts now d after event e,
  )

  perform-final :
      (call : Call) (now : ℕ)
      → rank (Map.get c s) ≡ 3
      → Map.get c (perform call now s).0 ≡ Map.get c s
  unfolding perform open_dispute
  perform-final (opens id escrow by reason) now f = grind (arith, Laws.get-set, eq_iff id c)
  perform-final (moves id event opts) now f =
      Answer-final id event opts now _ (transition-Answer id event opts now s) f

accepted-rank :
    (c : String) (calls : List (Call × ℕ)) (s : Store)
    → rank (Map.get c s) + accepted c calls s ≤ rank (Map.get c (run calls s))
unfolding accepted run
accepted-rank c [] s = omega arith
accepted-rank c ((call, now) ∷ rest) s =
    ground (arith, perform-rank c s call now, accepted-rank c rest (perform call now s).0)

-- In any sequence of openings and transitions, at most three on one dispute are accepted, and fewer
-- the further it has come: an opened one two, an escalated one one, a closed one none.
pub dispute_accepted_bound :
    (id : String) (calls : List (Call × ℕ)) (s : Store)
    → accepted id calls s + rank (Map.get id s) ≤ 3
dispute_accepted_bound id calls s =
    omega (arith, accepted-rank id calls s, rank-le (Map.get id (run calls s)))

final_rank : (o : Option Dispute) (d : Dispute) → o ≡ some d → is_final d.state ≡ true → rank o ≡ 3
unfolding is_final
final_rank o d h f = ground (arith, h)

run-rank :
    (id : String) (calls : List (Call × ℕ)) (s : Store)
    → rank (Map.get id s) ≡ 3
    → Map.get id (run calls s) ≡ Map.get id s
unfolding run
run-rank id [] s f = refl
run-rank id ((call, now) ∷ rest) s f =
    let same = perform-final id s call now f in
    run-rank id rest (perform call now s).0 (rw same f) ∙ same

-- A resolved or withdrawn dispute is frozen: whatever is called afterwards, on it or on another,
-- its record stays as it is.
pub run-final :
    (id : String) (calls : List (Call × ℕ)) (s : Store) (d : Dispute)
    → Map.get id s ≡ some d
    → is_final d.state ≡ true
    → Map.get id (run calls s) ≡ some d
run-final id calls s d h f = run-rank id calls s (final_rank _ d h f) ∙ h
