-- ===== src/Frontend/Refund/Claims.antt =====
-- Claims of refunds in refund-idempotency.ts: at most one is granted for each contract.
use stellar_true_stub.Common.{
  ℕ, suc, ◌+◌, ◌≤◌, ◌≡◌, refl, String, Bool, true, false, not, ◌&&◌, Option, none, some, List, [],
  ◌∷◌, if◌then◌else◌, str_eq, eq_iff, arith, is_ok, ok, err,
}
use stellar_true_stub.Map
use stellar_true_stub.Map.Laws
use stellar_true_stub.Frontend.Refund.{
  RefundClaimRecord, refund_already_claimed, ClaimStore, is_refund_already_claimed,
  mark_refund_claimed, claim_refund, update_refund_tx_hash, clear_refund_claim,
}

-- The calls that write a claim. The release of a claim (`clearRefundClaim`, at the end of the
-- escrow's life, and `clearAllRefundClaims`, at logout) is not one.
pub data Call : Type 0 where
  claim : String → String → Call
  mark : String → String → Bool → Option String → Call
  update : String → String → Call

unfoldable pub step : Call → ℕ → ClaimStore → ClaimStore
step (claim c by) now s = (claim_refund c by now s).0
step (mark c by allow_reset tx) now s = (mark_refund_claimed c by allow_reset tx now s).0
step (update c tx) now s = (update_refund_tx_hash c tx s).0

-- A call that lets its caller go on with a refund of `c`: it returns, and it is no re-hydration.
unfoldable pub grants : String → Call → ℕ → ClaimStore → Bool
grants c (claim k by) now s = str_eq k c && is_ok (claim_refund k by now s).1
grants c (mark k by allow_reset tx) now s =
    str_eq k c && not allow_reset && is_ok (mark_refund_claimed k by allow_reset tx now s).1
grants c (update k tx) now s = false

unfoldable pub run : List (Call × ℕ) → ClaimStore → ClaimStore
run [] s = s
run ((call, now) ∷ rest) s = run rest (step call now s)

-- How many of the calls grant a refund of `c`.
unfoldable pub granted : String → List (Call × ℕ) → ClaimStore → ℕ
granted c [] s = 0
granted c ((call, now) ∷ rest) s =
    let later = granted c rest (step call now s) in if grants c call now s then suc later else later

-- 1 if a claim is stored, 0 if not.
abbrev stored : Option RefundClaimRecord → ℕ
stored none = 0
stored (some r) = 1

stored-set :
    (c k : String) (r : RefundClaimRecord) (s : ClaimStore)
    → stored (Map.get c (Map.set k r s)) ≡ (if str_eq k c then 1 else stored (Map.get c s))
stored-set c k r s = ground (arith, Laws.get-set k c r s)

-- A grant is made only where no claim is stored, and no call takes a claim away.
step-stored :
    (c : String) (call : Call) (now : ℕ) (s : ClaimStore)
    → stored (Map.get c s) + (if grants c call now s then 1 else 0)
      ≤ stored (Map.get c (step call now s))
unfolding step grants claim_refund mark_refund_claimed update_refund_tx_hash
step-stored c (claim k by) now s = grind (arith, stored-set, eq_iff k c)
step-stored c (mark k by allow_reset tx) now s = grind (arith, stored-set, eq_iff k c)
step-stored c (update k tx) now s = grind (arith, stored-set, eq_iff k c)

-- In any sequence of claims, marks, re-hydrations and hash updates, at most one call is granted a
-- refund of a contract, and none where a claim of it is stored at the start.
pub granted_bound :
    (c : String) (calls : List (Call × ℕ)) (s : ClaimStore)
    → granted c calls s + (if is_refund_already_claimed c s then 1 else 0) ≤ 1
unfolding granted is_refund_already_claimed
granted_bound c [] s = ground arith
granted_bound c ((call, now) ∷ rest) s =
    ground (arith, step-stored c call now s, granted_bound c rest (step call now s))

-- When the claim was made.
abbrev date : Option RefundClaimRecord → Option ℕ
date none = none
date (some r) = some r.claimed_at

date-set :
    (c k : String) (r : RefundClaimRecord) (s : ClaimStore)
    → date (Map.get c (Map.set k r s))
      ≡ (if str_eq k c then some r.claimed_at else date (Map.get c s))
date-set c k r s = ground (arith, Laws.get-set k c r s)

step-date :
    (c : String) (call : Call) (now : ℕ) (s : ClaimStore) (t : ℕ)
    → date (Map.get c s) ≡ some t
    → date (Map.get c (step call now s)) ≡ some t
unfolding step claim_refund mark_refund_claimed update_refund_tx_hash
step-date c (claim k by) now s t h = grind (arith, date-set, eq_iff k c)
step-date c (mark k by allow_reset tx) now s t h = grind (arith, date-set, eq_iff k c)
step-date c (update k tx) now s t h = grind (arith, date-set, eq_iff k c)

run-date :
    (c : String) (calls : List (Call × ℕ)) (s : ClaimStore) (t : ℕ)
    → date (Map.get c s) ≡ some t
    → date (Map.get c (run calls s)) ≡ some t
unfolding run
run-date c [] s t h = h
run-date c ((call, now) ∷ rest) s t h =
    run-date c rest (step call now s) t (step-date c call now s t h)

claim_dated :
    (c by : String) (now : ℕ) (s : ClaimStore) (t : ℕ)
    → date (Map.get c s) ≡ some t
    → claim_refund c by now s ≡ (s, err (refund_already_claimed c t))
unfolding claim_refund
claim_dated c by now s t h = ground arith

claim_granted :
    (c by : String) (now : ℕ) (s : ClaimStore) (r : RefundClaimRecord)
    → (claim_refund c by now s).1 ≡ ok r
    → date (Map.get c (claim_refund c by now s).0) ≡ some now
unfolding claim_refund
claim_granted c by now s r h = grind (arith, date-set, eq_iff c c)

-- After a granted claim, whatever claims, marks, re-hydrations and updates follow, every claim of
-- the contract throws `RefundAlreadyClaimedError` with the time of the first, and writes nothing.
pub claim-run-claim :
    (c by : String) (now : ℕ) (s : ClaimStore) (r : RefundClaimRecord) (calls : List (Call × ℕ))
    (other : String) (later : ℕ)
    → (claim_refund c by now s).1 ≡ ok r
    → let t = run calls (claim_refund c by now s).0 in
      claim_refund c other later t ≡ (t, err (refund_already_claimed c now))
claim-run-claim c by now s r calls other later h =
    claim_dated c other later _ now (run-date c calls _ now (claim_granted c by now s r h))

-- Re-hydration is idempotent: marking a second time with the same arguments, at any later time,
-- leaves the store that the first left and returns the record that it returned.
pub mark_reset_idempotent :
    (c by : String) (tx : Option String) (now later : ℕ) (s : ClaimStore)
    → mark_refund_claimed c by true tx later (mark_refund_claimed c by true tx now s).0
      ≡ mark_refund_claimed c by true tx now s
unfolding mark_refund_claimed
mark_reset_idempotent c by none now later s = grind (arith, Laws.get-set, Laws.set-set, eq_iff c c)
mark_reset_idempotent c by (some tx) now later s =
    grind (arith, Laws.get-set, Laws.set-set, eq_iff c c)

-- Once a claim is released, the contract can be claimed anew.
pub clear-claim :
    (c by : String) (now : ℕ) (s : ClaimStore)
    → (r : RefundClaimRecord) × (claim_refund c by now (clear_refund_claim c s).0
        ≡ (Map.set c r (clear_refund_claim c s).0, ok r))
      × ((clear_refund_claim c s).1 ≡ is_refund_already_claimed c s)
unfolding claim_refund clear_refund_claim is_refund_already_claimed
clear-claim c by now s = (
  record { contract_id = c; claimed_at = now; claimed_by = by; tx_hash = none },
  grind (arith, Laws.get-remove, eq_iff c c),
  refl,
)
