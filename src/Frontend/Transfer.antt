-- ===== src/Frontend/Transfer.antt =====
-- apps/frontend/src/lib/transfer/atomic-transfer.ts: the two-phase transfer of a ticket's
-- ownership. `new Date()` is the argument `now`. The action that `TransferConflictError` puts into
-- its message is a field of the error here.
pub mod Calls
pub mod Traces
mod Examples
use stellar_true_stub.Common.{
  ℕ, String, Bool, Option, none, some, [], Result, ok, err, Action, ◌>>=◌, pure, throw,
}
use stellar_true_stub.Map
use stellar_true_stub.Map.{Map}

pub data TransferState : Type 0 where
  idle pending_acceptance completed cancelled : TransferState

pub record TransferRecord : Type 0 where
  pub contract_id : String
  pub from_address : String
  pub to_address : String
  pub state : TransferState
  pub initiated_at : ℕ
  pub resolved_at : Option ℕ
  pub tx_hash_initiate : Option String
  pub tx_hash_resolve : Option String

pub data TransferError : Type 0 where
  transfer_conflict : String → TransferState → String → TransferError
  concurrent_transfer : String → TransferError

-- `_transferStore`.
abbrev pub TransferStore : Type 0
TransferStore = Map TransferRecord

pub get_transfer_record : String → TransferStore → Option TransferRecord
get_transfer_record c store = Map.get c store

state_of : Option TransferRecord → TransferState
state_of none = idle
state_of (some r) = r.state

pub get_transfer_state : String → TransferStore → TransferState
unfolding state_of
get_transfer_state c store = state_of (Map.get c store)

save : String → TransferRecord → Action TransferStore TransferError TransferRecord
save c r store = (Map.set c r store, ok r)

found : String → Option TransferRecord → Action TransferStore TransferError TransferRecord
found c none = throw (transfer_conflict c idle "resolve")
found c (some r) = pure r

require_record : String → Action TransferStore TransferError TransferRecord
unfolding found
require_record c store = found c (Map.get c store) store

-- The guards of `initiateTransfer` on the state of the record that is there, then the rest of it.
initiate_from :
    String
    → TransferState
    → Action TransferStore TransferError TransferRecord
    → Action TransferStore TransferError TransferRecord
initiate_from c pending_acceptance rest = throw (concurrent_transfer c)
initiate_from c completed rest = throw (transfer_conflict c completed "initiate")
initiate_from c cancelled rest = throw (transfer_conflict c cancelled "initiate")
initiate_from c idle rest = rest

initiate_over :
    String
    → Option TransferRecord
    → Action TransferStore TransferError TransferRecord
    → Action TransferStore TransferError TransferRecord
unfolding initiate_from
initiate_over c none rest = rest
initiate_over c (some existing) rest = initiate_from c existing.state rest

pub initiate_transfer :
    String → String → String → Option String → ℕ → Action TransferStore TransferError TransferRecord
unfolding initiate_over save
initiate_transfer c from_address to_address tx_hash now store =
    initiate_over c (Map.get c store)
      (save c (record {
        contract_id = c;
        from_address = from_address;
        to_address = to_address;
        state = pending_acceptance;
        initiated_at = now;
        resolved_at = none;
        tx_hash_initiate = tx_hash;
        tx_hash_resolve = none;
      }))
      store

-- `if (record.state !== 'PENDING_ACCEPTANCE') throw …`.
assert_pending : String → TransferState → String → Action TransferStore TransferError (Unit {0})
assert_pending c pending_acceptance action = pure tt
assert_pending c s action = throw (transfer_conflict c s action)

pub accept_transfer : String → Option String → ℕ → Action TransferStore TransferError TransferRecord
unfolding require_record assert_pending save
accept_transfer c tx_hash now = do
  r ← require_record c
  _ ← assert_pending c r.state "accept"
  save c (record r { state = completed; resolved_at = some now; tx_hash_resolve = tx_hash })

pub cancel_transfer : String → Option String → ℕ → Action TransferStore TransferError TransferRecord
unfolding require_record assert_pending save
cancel_transfer c tx_hash now = do
  r ← require_record c
  _ ← assert_pending c r.state "cancel"
  save c (record r { state = cancelled; resolved_at = some now; tx_hash_resolve = tx_hash })

pub register_transfer : TransferRecord → TransferStore → TransferStore
register_transfer r store = Map.set r.contract_id r store

pub reset_transfer : String → TransferStore → TransferStore × Bool
reset_transfer c store = (Map.remove c store, Map.has c store)

pub clear_all_transfers : TransferStore → TransferStore
clear_all_transfers store = []
