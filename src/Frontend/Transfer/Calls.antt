-- ===== src/Frontend/Transfer/Calls.antt =====
-- The three calls of atomic-transfer.ts that move a transfer, and its state diagram.
use stellar_true_stub.Common.{
  ℕ, ◌≡◌, ◌≢◌, ◌∙◌, refl, eq_iff, inl, inr, String, Option, none, some, ok, err, Action, arith,
  Option-cases,
}
use stellar_true_stub.Map
use stellar_true_stub.Map.Laws
use stellar_true_stub.Frontend.Transfer.{
  TransferState, idle, pending_acceptance, completed, cancelled, TransferRecord, TransferError,
  transfer_conflict, concurrent_transfer, TransferStore, get_transfer_state, initiate_transfer,
  accept_transfer, cancel_transfer, reset_transfer,
}

pub data Call : Type 0 where
  initiate : String → String → Option String → Call
  accept : Option String → Call
  cancel : Option String → Call

unfoldable pub perform : Call → String → ℕ → Action TransferStore TransferError TransferRecord
unfolding initiate_transfer accept_transfer cancel_transfer
perform (initiate from_address to_address tx) c now =
    initiate_transfer c from_address to_address tx now
perform (accept tx) c now = accept_transfer c tx now
perform (cancel tx) c now = cancel_transfer c tx now

-- The arrows of the diagram.
pub data Arrow : Call → TransferState → TransferState → Type 0 where
  initiates :
      {from_address to_address : String} {tx : Option String}
      → Arrow (initiate from_address to_address tx) idle pending_acceptance
  accepts : {tx : Option String} → Arrow (accept tx) pending_acceptance completed
  cancels : {tx : Option String} → Arrow (cancel tx) pending_acceptance cancelled

-- The one state from which a call has an arrow.
abbrev pub source : Call → TransferState
source (initiate from_address to_address tx) = idle
source (accept tx) = pending_acceptance
source (cancel tx) = pending_acceptance

Arrow-source : {call : Call} {u t : TransferState} → Arrow call u t → u ≡ source call
Arrow-source initiates = refl
Arrow-source accepts = refl
Arrow-source cancels = refl

-- What `initiate` throws in a state.
abbrev pub initiation_refusal : String → TransferState → TransferError
initiation_refusal c pending_acceptance = concurrent_transfer c
initiation_refusal c s = transfer_conflict c s "initiate"

-- What a call that has no arrow throws, by the record that is stored.
abbrev pub refusal : Call → String → Option TransferRecord → TransferError
refusal (initiate from_address to_address tx) c none = initiation_refusal c idle
refusal (initiate from_address to_address tx) c (some r) = initiation_refusal c r.state
refusal (accept tx) c none = transfer_conflict c idle "resolve"
refusal (accept tx) c (some r) = transfer_conflict c r.state "accept"
refusal (cancel tx) c none = transfer_conflict c idle "resolve"
refusal (cancel tx) c (some r) = transfer_conflict c r.state "cancel"

-- What each call stores where it has an arrow.
abbrev pub pending : String → String → String → Option String → ℕ → TransferRecord
pending c from_address to_address tx now = record {
  contract_id = c;
  from_address = from_address;
  to_address = to_address;
  state = pending_acceptance;
  initiated_at = now;
  resolved_at = none;
  tx_hash_initiate = tx;
  tx_hash_resolve = none;
}

abbrev pub ended : TransferState → Option String → ℕ → TransferRecord → TransferRecord
ended s tx now r = record r { state = s; resolved_at = some now; tx_hash_resolve = tx }

module _ (c : String) (now : ℕ) (s : TransferStore) where
  -- The two ways in which a call goes, with all that it stores.
  pub data Outcome : Call → Type 0 where
    initiated :
        {from_address to_address : String} {tx : Option String}
        → get_transfer_state c s ≡ idle
        → perform (initiate from_address to_address tx) c now s ≡ (
          Map.set c (pending c from_address to_address tx now) s,
          ok (pending c from_address to_address tx now),
        )
        → Outcome (initiate from_address to_address tx)
    accepted :
        {tx : Option String} (r : TransferRecord)
        → Map.get c s ≡ some r
        → r.state ≡ pending_acceptance
        → perform (accept tx) c now s
          ≡ (Map.set c (ended completed tx now r) s, ok (ended completed tx now r))
        → Outcome (accept tx)
    cancelled_by :
        {tx : Option String} (r : TransferRecord)
        → Map.get c s ≡ some r
        → r.state ≡ pending_acceptance
        → perform (cancel tx) c now s
          ≡ (Map.set c (ended cancelled tx now r) s, ok (ended cancelled tx now r))
        → Outcome (cancel tx)
    refused :
        {call : Call}
        → ((t : TransferState) → ¬ Arrow call (get_transfer_state c s) t)
        → perform call c now s ≡ (s, err (refusal call c (Map.get c s)))
        → Outcome call

  no-Arrow :
      (call : Call)
      → get_transfer_state c s ≢ source call
      → (t : TransferState) → ¬ Arrow call (get_transfer_state c s) t
  no-Arrow call ne t a = ne (Arrow-source a)

  get_transfer_state-some :
      (r : TransferRecord) → Map.get c s ≡ some r → get_transfer_state c s ≡ r.state
  unfolding get_transfer_state
  get_transfer_state-some r e = rw e

  get_transfer_state-none : Map.get c s ≡ none → get_transfer_state c s ≡ idle
  unfolding get_transfer_state
  get_transfer_state-none e = rw e

  -- A call over a stored record, by its state.
  over_record :
      (call : Call) (r : TransferRecord) (u : TransferState)
      → Map.get c s ≡ some r
      → r.state ≡ u
      → Outcome call
  unfolding perform
  over_record (initiate from_address to_address tx) r idle e h =
      initiated (get_transfer_state-some r e ∙ h) (ground arith)
  over_record (accept tx) r pending_acceptance e h = accepted r e h (ground arith)
  over_record (cancel tx) r pending_acceptance e h = cancelled_by r e h (ground arith)
  over_record (initiate from_address to_address tx) r pending_acceptance e h =
      refused (no-Arrow _ (λ p. ground (arith, get_transfer_state-some r e))) (ground arith)
  over_record call r u e h =
      refused (no-Arrow _ (λ p. ground (arith, get_transfer_state-some r e))) (ground arith)

  -- Each call, on each contract and store, goes in one of the ways that `Outcome` lists. Where the
  -- diagram has an arrow from the contract's state, the record that the call describes is stored
  -- and returned: a new pending one for `initiate`; for `accept` and `cancel` the stored one, with
  -- its new state, its end date and its last hash. Where the diagram has no arrow, the store is as
  -- it was and the error is the one that `refusal` names: `ConcurrentTransferError` for `initiate`
  -- on a pending transfer, `TransferConflictError` with the state for all else.
  pub perform-Outcome : (call : Call) → Outcome call
  unfolding perform
  perform-Outcome call = elim (Option-cases (Map.get c s)) [
    | inl e ↦ missing call e
    | inr (r, e) ↦ over_record call r r.state e refl
  ]
    where
      missing : (call : Call) → Map.get c s ≡ none → Outcome call
      missing (initiate from_address to_address tx) e =
          initiated (get_transfer_state-none e) (ground arith)
      missing (accept tx) e =
          refused (no-Arrow _ (λ p. ground (arith, get_transfer_state-none e))) (ground arith)
      missing (cancel tx) e =
          refused (no-Arrow _ (λ p. ground (arith, get_transfer_state-none e))) (ground arith)

-- A transfer that was reset can be initiated anew.
pub reset-initiate :
    (c from_address to_address : String) (tx : Option String) (now : ℕ) (s : TransferStore)
    → initiate_transfer c from_address to_address tx now (reset_transfer c s).0 ≡ (
      Map.set c (pending c from_address to_address tx now) (reset_transfer c s).0,
      ok (pending c from_address to_address tx now),
    )
unfolding initiate_transfer reset_transfer
reset-initiate c from_address to_address tx now s = grind (arith, Laws.get-remove, eq_iff c c)
