-- ===== src/Backend/Dispute/Types.antt =====
-- The data of apps/backend/src/services/dispute.service.ts.
use stellar_true_stub.Common.{ℕ, String, Option}

pub data DisputeState : Type 0 where
  open_state escalated resolved withdrawn : DisputeState

pub data DisputeEvent : Type 0 where
  escalate resolve withdraw : DisputeEvent

pub record Dispute : Type 0 where
  pub dispute_id : String
  pub escrow_id : String
  pub raised_by : String
  pub reason : String
  pub state : DisputeState
  pub opened_at : ℕ
  pub updated_at : ℕ
  pub escalated_at : Option ℕ
  pub resolved_at : Option ℕ
  pub resolution : Option String

-- `pos n` is n, and `negsuc n` is -1 - n.
pub data ℤ : Type 0 where
  pos : ℕ → ℤ
  negsuc : ℕ → ℤ
