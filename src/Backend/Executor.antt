-- ===== src/Backend/Executor.antt =====
-- `TrustlessWorkRefundExecutor` of apps/backend/src/services/refund.service.ts, which asks the guard
-- of network-guard.ts and then calls the client of trustless-work.ts, and the whole of a claim that
-- it executes. Parameters are those of the three parts, and `number`, which is `Number`.
pub mod Network
pub mod Submission
mod Examples
use Prim.Native.String
use stellar_true_stub.Common.{
  ℕ, String, Bool, true, false, Option, none, some, List, [], ◌∷◌, Result, ok, err, get_or_else,
}
use stellar_true_stub.Map.{Map}
use stellar_true_stub.Backend.AppError.{AppError}
use stellar_true_stub.Backend.Network.{NetworkGuardConfig, Env, assert_mainnet_submission_allowed}
use stellar_true_stub.Backend.TrustlessWork.{
  Kit, Effect, Response, ResolveDisputeInput, resolve_dispute,
}
use stellar_true_stub.Backend.Refund.{
  ClaimedRefund, RefundPayload, single_release, ExecutionError, other, begin_claim, finish_claim,
}

joined : List String → String
joined [] = ""
joined (s ∷ []) = s
joined (s ∷ t ∷ l) = String.◌++◌ s (String.◌++◌ "; " (joined (t ∷ l)))

-- The MainnetSubmissionBlockedError for the reasons.
pub blocked : List String → ExecutionError
unfolding joined
blocked reasons = other (
    String.◌++◌ "Refusing to submit a mainnet transaction outside production (" (
      String.◌++◌ (joined reasons)
        "). Set STELLAR_NETWORK=testnet and point TRUSTLESS_WORK_API_URL at https://dev.api.trustlesswork.com for non-production environments."))

module _ {Amount Number : Type 0} (number : Option Amount → Number) where
  -- What `resolveDispute` is given; `asset` is not passed.
  pub resolution_of : ClaimedRefund Amount → ResolveDisputeInput Number
  resolution_of claim = record {
    contract_id = claim.escrow_id;
    escrow_type = get_or_else claim.escrow_type single_release;
    distributions = record { address = claim.refund_to; amount = number claim.amount } ∷ [];
    asset = none;
    milestone_index = claim.milestone_index;
    request_id = none;
  }

  module _ (lower : String → String) (host : String → Option String) (kit : Kit)
      (remote : Effect Number → Response) (config : NetworkGuardConfig) (env : Env)
      (ambient : Option String) where
    execute_unless :
        Option (List String)
        → ClaimedRefund Amount
        → List (Effect Number) × Result ExecutionError String
    execute_unless (some reasons) claim = ([], err (blocked reasons))
    execute_unless none claim = resolve_dispute kit remote env ambient (resolution_of claim)

    -- `execute`, with what it does on the way.
    pub execute : ClaimedRefund Amount → List (Effect Number) × Result ExecutionError String
    unfolding execute_unless
    execute claim = execute_unless (assert_mainnet_submission_allowed lower host config) claim

    claim_after :
        Map (ClaimedRefund Amount) × Result AppError (ClaimedRefund Amount)
        → List (Effect Number) × Map (ClaimedRefund Amount) × Result AppError (ClaimedRefund Amount)
    claim_after (store, err e) = ([], store, err e)
    claim_after (store, ok r) =
        let (done, answer) = execute r in
        let (after, result) = finish_claim r answer store in (done, after, result)

    -- `claimRefund` of the service with this executor, where no other claim runs in between.
    pub claim_refund :
        (Amount → Bool)
        → RefundPayload Amount
        → ℕ
        → Map (ClaimedRefund Amount)
        → List (Effect Number) × Map (ClaimedRefund Amount) × Result AppError (ClaimedRefund Amount)
    unfolding claim_after
    claim_refund is_positive p now store = claim_after (begin_claim is_positive true p now store)
