-- ===== src/Frontend/Dispute/Types.antt =====
-- The data of apps/frontend/src/lib/dispute/dispute-state-machine.ts. A field that may be absent
-- is an `Option`, a `Date` is its number of milliseconds.
use stellar_true_stub.Common.{ℕ, String, Option}
use stellar_true_stub.Map.{Map}

-- The source's 'NONE', 'OPEN' (`opened`), 'ESCALATED' and the four terminal states.
pub data DisputeState : Type 0 where
  none opened escalated resolved refunded released withdrawn_by_claimant : DisputeState

pub data DisputeAction : Type 0 where
  open_dispute escalate resolve withdraw : DisputeAction

pub data ResolveOutcome : Type 0 where
  buyer_wins seller_wins split : ResolveOutcome

pub record DisputeRecord : Type 0 where
  pub contract_id : String
  pub state : DisputeState
  pub opened_at : Option ℕ
  pub resolved_at : Option ℕ
  pub opened_by : String
  pub resolved_by : Option String
  pub reason : Option String
  pub outcome : Option ResolveOutcome
  pub tx_hash_open : Option String
  pub tx_hash_resolve : Option String
  pub escalation_note : Option String

-- The two error classes, with the fields that they carry.
pub data DisputeError : Type 0 where
  invalid_dispute_transition : String → DisputeState → DisputeAction → DisputeError
  dispute_not_found : String → DisputeError

-- The module-level `_disputeStore`.
abbrev pub DisputeStore : Type 0
DisputeStore = Map DisputeRecord
