-- ===== src/Backend/Refund/Once.antt =====
-- The claims of refund.service.ts, where the executor of one claim runs while others begin and end.
use stellar_true_stub.Common.{
  ℕ, suc, ◌+◌, ◌≤◌, ◌≡◌, refl, ap, String, Bool, false, ◌&&◌, Option, none, some, List, [], ◌∷◌,
  if◌then◌else◌, str_eq, eq_iff, eq_refl, arith, is_ok, ok, err, Result, get_or_else,
}
use stellar_true_stub.Map
use stellar_true_stub.Map.{Map}
use stellar_true_stub.Map.Laws
use stellar_true_stub.Backend.AppError.{AppError}
use stellar_true_stub.Backend.Refund.{
  ClaimedRefund, RefundPayload, ExecutionError, already_claimed, check_payload, begin_claim,
  begin_checked, finish_claim, insert_if_absent, already_claimed_lookup, write_back,
}

-- A step of the service: the first part of a claim, or the end of one whose executor answered.
pub data Step (Amount : Type 0) : Type 0 where
  begin : RefundPayload Amount → ℕ → Step Amount
  finish : ClaimedRefund Amount → Result ExecutionError String → Step Amount

module _ {Amount : Type 0} (is_positive : Amount → Bool) (has_executor : Bool) where
  unfoldable pub step : Step Amount → Map (ClaimedRefund Amount) → Map (ClaimedRefund Amount)
  step (begin p now) s = (begin_claim is_positive has_executor p now s).0
  step (finish r outcome) s = (finish_claim r outcome s).0

  -- The step lets a claim of `id` go on.
  unfoldable pub grants : String → Step Amount → Map (ClaimedRefund Amount) → Bool
  grants id (begin p now) s =
      str_eq p.refund_id id && is_ok (begin_claim is_positive has_executor p now s).1
  grants id (finish r outcome) s = false

  unfoldable pub run : List (Step Amount) → Map (ClaimedRefund Amount) → Map (ClaimedRefund Amount)
  run [] s = s
  run (x ∷ rest) s = run rest (step x s)

  -- How many of the steps let a claim of `id` go on.
  unfoldable pub granted : String → List (Step Amount) → Map (ClaimedRefund Amount) → ℕ
  granted id [] s = 0
  granted id (x ∷ rest) s =
      let later = granted id rest (step x s) in if grants id x s then suc later else later

  abbrev stored : Option (ClaimedRefund Amount) → ℕ
  stored none = 0
  stored (some r) = 1

  stored-set :
      (c k : String) (r : ClaimedRefund Amount) (s : Map (ClaimedRefund Amount))
      → stored (Map.get c (Map.set k r s)) ≡ (if str_eq k c then 1 else stored (Map.get c s))
  stored-set c k r s = ground (arith, Laws.get-set k c r s)

  write_back-same :
      (id : String) (o : Option (ClaimedRefund Amount)) (s : Map (ClaimedRefund Amount))
      → Map.get id s ≡ o
      → write_back id o s ≡ s
  unfolding write_back
  write_back-same id none s h = refl
  write_back-same id (some r) s h = ground (arith, Laws.set-get id r s h)

  lookup-same :
      (id : String) (s : Map (ClaimedRefund Amount))
      → already_claimed_lookup id s ≡ (s, already_claimed)
  unfolding already_claimed_lookup
  lookup-same id s = ap (λ t. (t, already_claimed)) (write_back-same id _ s refl)

  begin_checked-stored :
      (c : String) (p : RefundPayload Amount) (now : ℕ) (e : Option AppError)
      (s : Map (ClaimedRefund Amount))
      → stored (Map.get c s)
          + (if str_eq p.refund_id c && is_ok (begin_checked has_executor p now e s).1
              then 1
              else 0)
        ≤ stored (Map.get c (begin_checked has_executor p now e s).0)
  unfolding begin_checked insert_if_absent
  begin_checked-stored c p now none s = grind (arith, stored-set, lookup-same, eq_iff p.refund_id c)
  begin_checked-stored c p now (some e) s = grind arith

  step-stored :
      (c : String) (x : Step Amount) (s : Map (ClaimedRefund Amount))
      → stored (Map.get c s) + (if grants c x s then 1 else 0) ≤ stored (Map.get c (step x s))
  unfolding step grants begin_claim finish_claim
  step-stored c (begin p now) s = begin_checked-stored c p now _ s
  step-stored c (finish r (ok tx)) s = grind (arith, stored-set)
  step-stored c (finish r (err e)) s = grind (arith, stored-set)

  -- However the first parts and the ends of claims interleave, at most one claim of a refund id
  -- goes on to the executor (or is accepted, in a service without one), and none where a record
  -- of it is stored at the start. No record is cleaned up meanwhile.
  pub executed_bound :
      (id : String) (steps : List (Step Amount)) (s : Map (ClaimedRefund Amount))
      → granted id steps s + (if Map.has id s then 1 else 0) ≤ 1
  unfolding granted
  executed_bound id [] s = ground arith
  executed_bound id (x ∷ rest) s =
      ground (arith, step-stored id x s, executed_bound id rest (step x s))

  stored-run :
      (id : String) (steps : List (Step Amount)) (s : Map (ClaimedRefund Amount))
      → stored (Map.get id s) ≤ stored (Map.get id (run steps s))
  unfolding run
  stored-run id [] s = omega arith
  stored-run id (x ∷ rest) s = ground (arith, step-stored id x s, stored-run id rest (step x s))

  begin_checked-refused :
      (p : RefundPayload Amount) (now : ℕ) (e : Option AppError) (s : Map (ClaimedRefund Amount))
      → 1 ≤ stored (Map.get p.refund_id s)
      → begin_checked has_executor p now e s ≡ (s, err (get_or_else e already_claimed))
  unfolding begin_checked insert_if_absent
  begin_checked-refused p now none s h = grind (arith, lookup-same)
  begin_checked-refused p now (some e) s h = refl

  begin-stored :
      (p : RefundPayload Amount) (now : ℕ) (s : Map (ClaimedRefund Amount))
      (r : ClaimedRefund Amount)
      → (begin_claim is_positive has_executor p now s).1 ≡ ok r
      → 1 ≤ stored (Map.get p.refund_id (begin_claim is_positive has_executor p now s).0)
  unfolding step grants
  begin-stored p now s r h = grind (arith, step-stored p.refund_id (begin p now) s, eq_refl)

  -- Once a claim has gone on, and whatever steps follow, every later claim with its refund id
  -- changes nothing and throws: the error of its own payload, or else REFUND_ALREADY_CLAIMED (409).
  -- This includes a claim whose execution failed.
  pub begin-run-begin :
      (p q : RefundPayload Amount) (now later : ℕ) (s : Map (ClaimedRefund Amount))
      (r : ClaimedRefund Amount) (steps : List (Step Amount))
      → (begin_claim is_positive has_executor p now s).1 ≡ ok r
      → q.refund_id ≡ p.refund_id
      → let t = run steps (begin_claim is_positive has_executor p now s).0 in
        begin_claim is_positive has_executor q later t
        ≡ (t, err (get_or_else (check_payload is_positive has_executor q) already_claimed))
  unfolding begin_claim
  begin-run-begin p q now later s r steps h same = begin_checked-refused q later _ _ (
      grind (
        arith,
        same,
        begin-stored p now s r h,
        stored-run p.refund_id steps (begin_claim is_positive has_executor p now s).0,
      ))
