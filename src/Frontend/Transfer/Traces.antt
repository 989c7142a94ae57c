-- ===== src/Frontend/Transfer/Traces.antt =====
-- Sequences of initiateTransfer, acceptTransfer and cancelTransfer of atomic-transfer.ts, by any parties
-- on any contracts. registerTransfer, resetTransfer and clearAllTransfers are not among the calls.
use stellar_true_stub.Common.{
  ℕ, suc, ◌+◌, ◌≤◌, ◌≡◌, ◌≢◌, ◌∙◌, refl, String, Bool, true, false, ◌&&◌, Option, none, some, List,
  [], ◌∷◌, if◌then◌else◌, str_eq, eq_iff, is_some, is_ok, arith,
}
use stellar_true_stub.Map
use stellar_true_stub.Map.Laws
use stellar_true_stub.Map.Laws.{Every}
use stellar_true_stub.Frontend.Transfer.{
  TransferState, idle, pending_acceptance, completed, cancelled, TransferRecord, TransferStore,
  get_transfer_state,
}
use stellar_true_stub.Frontend.Transfer.Calls.{
  Call, perform, Outcome, initiated, accepted, cancelled_by, refused, pending, ended,
  perform-Outcome,
}

pub record Event : Type 0 where
  pub call : Call
  pub contract_id : String
  pub now : ℕ

abbrev pub step : Event → TransferStore → TransferStore
step e s = (perform e.call e.contract_id e.now s).0

unfoldable pub run : List Event → TransferStore → TransferStore
run [] s = s
run (e ∷ es) s = run es (step e s)

-- How many calls on `c` return.
unfoldable pub returned : String → List Event → TransferStore → ℕ
returned c [] s = 0
returned c (e ∷ es) s =
    let rest = returned c es (step e s) in
    if str_eq e.contract_id c && is_ok (perform e.call e.contract_id e.now s).1
    then suc rest
    else rest

-- How far a transfer has come.
abbrev pub rank : TransferState → ℕ
rank idle = 0
rank pending_acceptance = 1
rank completed = 2
rank cancelled = 2

rank-le : (s : TransferState) → rank s ≤ 2
rank-le s = ground arith

module _ (c : String) (s : TransferStore) where
  get_transfer_state-set :
      (k : String) (r : TransferRecord)
      → get_transfer_state c (Map.set k r s)
        ≡ (if str_eq k c then r.state else get_transfer_state c s)
  unfolding get_transfer_state
  get_transfer_state-set k r = ground (arith, Laws.get-set k c r s)

  state-of_get :
      (k : String) (r : TransferRecord) → Map.get k s ≡ some r → get_transfer_state k s ≡ r.state
  unfolding get_transfer_state
  state-of_get k r e = rw e

  outcome-rank :
      (k : String) (now : ℕ) {call : Call}
      → Outcome k now s call
      → rank (get_transfer_state c s)
          + (if str_eq k c && is_ok (perform call k now s).1 then 1 else 0)
        ≤ rank (get_transfer_state c (perform call k now s).0)
  outcome-rank k now (initiated {from_address} {to_address} {tx} h e) = rw e (
      ground
        (arith, get_transfer_state-set k (pending k from_address to_address tx now), eq_iff k c))
  outcome-rank k now (accepted {tx} r g h e) = rw e (
      ground (
        arith,
        get_transfer_state-set k (ended completed tx now r),
        state-of_get k r g,
        eq_iff k c,
      ))
  outcome-rank k now (cancelled_by {tx} r g h e) = rw e (
      ground (
        arith,
        get_transfer_state-set k (ended cancelled tx now r),
        state-of_get k r g,
        eq_iff k c,
      ))
  outcome-rank k now (refused n e) = rw e (ground arith)

returned-rank :
    (c : String) (es : List Event) (s : TransferStore)
    → rank (get_transfer_state c s) + returned c es s ≤ rank (get_transfer_state c (run es s))
unfolding returned run
returned-rank c [] s = omega arith
returned-rank c (e ∷ es) s = ground (
  arith,
  outcome-rank c s e.contract_id e.now (perform-Outcome e.contract_id e.now s e.call),
  returned-rank c es (step e s),
)

-- In any sequence of initiations, acceptances and cancellations, where no record is registered, reset or
-- cleared in between, at most two calls on one contract return if it is IDLE at the start (its
-- initiation and one end), at most one if it is PENDING_ACCEPTANCE, and none if it is COMPLETED or
-- CANCELLED. So such a sequence never both accepts and cancels a transfer, nor accepts one twice.
pub returned_bound :
    (c : String) (es : List Event) (s : TransferStore)
    → returned c es s + rank (get_transfer_state c s) ≤ 2
returned_bound c es s =
    omega (arith, returned-rank c es s, rank-le (get_transfer_state c (run es s)))

-- Who transfers to whom, from when and by which transaction.
abbrev pub terms : Option TransferRecord → Option (String × String × ℕ × Option String)
terms none = none
terms (some r) = some (r.from_address, r.to_address, r.initiated_at, r.tx_hash_initiate)

module _ (c : String) (s : TransferStore) where
  terms-set :
      (k : String) (r : TransferRecord)
      → terms (Map.get c (Map.set k r s))
        ≡ (if str_eq k c then terms (some r) else terms (Map.get c s))
  terms-set k r = ground (arith, Laws.get-set k c r s)

  outcome-terms :
      (k : String) (now : ℕ) {call : Call}
      → Outcome k now s call
      → get_transfer_state c s ≢ idle
      → (terms (Map.get c (perform call k now s).0) ≡ terms (Map.get c s))
        × (get_transfer_state c (perform call k now s).0 ≢ idle)
  outcome-terms k now (initiated {from_address} {to_address} {tx} h e) live = rw e (
      ground (
        arith,
        terms-set k (pending k from_address to_address tx now),
        get_transfer_state-set c s k (pending k from_address to_address tx now),
        eq_iff k c,
      ))
  outcome-terms k now (accepted {tx} r g h e) live = rw e (
      ground (
        arith,
        terms-set k (ended completed tx now r),
        get_transfer_state-set c s k (ended completed tx now r),
        eq_iff k c,
      ))
  outcome-terms k now (cancelled_by {tx} r g h e) live = rw e (
      ground (
        arith,
        terms-set k (ended cancelled tx now r),
        get_transfer_state-set c s k (ended cancelled tx now r),
        eq_iff k c,
      ))
  outcome-terms k now (refused n e) live = rw e (refl, live)

-- Once a transfer has left IDLE, no such sequence of calls changes who transfers to whom,
-- when it was initiated and by which transaction.
pub run-terms :
    (c : String) (es : List Event) (s : TransferStore)
    → get_transfer_state c s ≢ idle
    → terms (Map.get c (run es s)) ≡ terms (Map.get c s)
unfolding run
run-terms c [] s live = refl
run-terms c (e ∷ es) s live =
    let (same, still) =
      outcome-terms c s e.contract_id e.now (perform-Outcome e.contract_id e.now s e.call) live in
    run-terms c es (step e s) still ∙ same

abbrev pub has_ended : TransferState → Bool
has_ended completed = true
has_ended cancelled = true
has_ended _ = false

-- `r` may stand under the key `c`: it names that contract, has left IDLE, and has an end date
-- exactly when it is completed or cancelled.
pub record Fits (c : String) (r : TransferRecord) : Type 0 where
  pub keyed : r.contract_id ≡ c
  pub begun : r.state ≢ idle
  pub dated : is_some r.resolved_at ≡ has_ended r.state

outcome-Fits :
    (c : String) (now : ℕ) (s : TransferStore) {call : Call}
    → Outcome c now s call
    → Every Fits s
    → Every Fits (perform call c now s).0
outcome-Fits c now s (initiated {from_address} {to_address} {tx} h e) w =
    rw e (Laws.Every-set Fits c (pending c from_address to_address tx now) s (ground arith) w)
outcome-Fits c now s (accepted {tx} r g h e) w =
    let f = w c r g in rw e (Laws.Every-set Fits c (ended completed tx now r) s (ground arith) w)
outcome-Fits c now s (cancelled_by {tx} r g h e) w =
    let f = w c r g in rw e (Laws.Every-set Fits c (ended cancelled tx now r) s (ground arith) w)
outcome-Fits c now s (refused n e) w = rw e w

-- Any such sequence of calls keeps the store well-formed: if at the start every record names the
-- contract under which it stands, has left IDLE and has an end date exactly when it is COMPLETED or
-- CANCELLED, then so at the end.
pub run-Fits : (es : List Event) (s : TransferStore) → Every Fits s → Every Fits (run es s)
unfolding run
run-Fits [] s w = w
run-Fits (e ∷ es) s w =
    run-Fits es (step e s)
      (outcome-Fits e.contract_id e.now s (perform-Outcome e.contract_id e.now s e.call) w)
