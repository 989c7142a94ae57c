-- ===== src/Backend/Executor/Examples.antt =====
-- The theorems on the executor at concrete claims.
use stellar_true_stub.Common.{
  ℕ, is_space, ◌≡◌, refl, String, Bool, true, false, Option, none, some, List, [], ◌∷◌, ok, All,
  if◌then◌else◌, str_eq, ltb,
}
use stellar_true_stub.Map
use stellar_true_stub.Map.{Map}
use stellar_true_stub.Backend.Network.{
  NetworkGuardConfig, Env, testnet, strip_slashes, validate_env, is_production_environment,
  is_truthy_flag, mainnet_signals, assert_mainnet_submission_allowed, default_api_url,
}
use stellar_true_stub.Backend.Network.Guard.{strip-strip}
use stellar_true_stub.Backend.Refund.{
  ClaimedRefund, RefundPayload, single_release, begin_claim, begin_checked, check_payload,
  claim_record, stellar_address, finish_claim, pending, submitted,
}
use stellar_true_stub.Backend.TrustlessWork.{
  Kit, Effect, posts, signs, resolution, signed_xdr, Response, answered, resolve_dispute,
  require_trustless_work_config, read_answer, resolve_path, send_path,
}
use stellar_true_stub.Backend.TrustlessWork.TestOnly.{TestOnly}
use stellar_true_stub.Backend.Executor.{resolution_of, execute, claim_refund}
use stellar_true_stub.Backend.Executor.Network.{KeepsHost, execute-TestOnly}
use stellar_true_stub.Backend.Executor.Submission.{Paid, claim_refund-Paid}

-- A parser that tells the production API from everything else.
abbrev host_of : String → Option String
host_of url =
    if str_eq (strip_slashes url) "https://api.trustlesswork.com"
    then some "api.trustlesswork.com"
    else some "dev.api.trustlesswork.com"

host_of-KeepsHost : KeepsHost host_of
host_of-KeepsHost url = rw strip-strip refl

abbrev same_text : String → String
same_text s = s

abbrev secret : String
secret = "SAAAAAAAAAAAAAAAAAAAAAAAAAAAAAAAAAAAAAAAAAAAAAAAAAAAAAAA"

abbrev development : NetworkGuardConfig
development = record {
  node_env = some "production";
  stellar_network = none;
  trustless_work_api_url = none;
  ci = some "true";
}

abbrev dev_env : Env
dev_env = record {
  trustless_work_api_url = default_api_url;
  trustless_work_api_key = some "k";
  trustless_work_dispute_resolver_secret = some secret;
  stellar_network = testnet;
}

abbrev kit : Kit
kit = record {
  from_secret = λ s. none;
  public_key = λ s. "GRESOLVER";
  sign = λ n key xdr. ok ("signed", "hash");
}

abbrev remote : Effect (Option ℕ) → Response
remote call = answered true "OK" (record {
  message = none;
  unsigned_transaction = some "xdr";
  status = some "SUCCESS";
  escrow_status = none;
})

dev_url : host_of default_api_url ≡ some "dev.api.trustlesswork.com"
unfolding strip_slashes
dev_url = refl

dev_env_valid : validate_env host_of (some "k") (some secret) development ≡ some dev_env
unfolding validate_env strip_slashes is_space
dev_env_valid = refl

aside : is_production_environment same_text development ≡ false
unfolding is_production_environment is_truthy_flag is_space
aside = refl

abbrev claim : ClaimedRefund ℕ
claim = record {
  refund_id = "r1";
  escrow_id = "C1";
  claimed_at = 7;
  amount = some 25;
  currency = none;
  claimed_by = none;
  status = some pending;
  refund_to = some "GAAAAAAAAAAAAAAAAAAAAAAAAAAAAAAAAAAAAAAAAAAAAAAAAAAAAAAA";
  escrow_type = some single_release;
  milestone_index = none;
  tx_hash = none;
  failure_reason = none;
}

abbrev payload : RefundPayload ℕ
payload = record {
  refund_id = "r1";
  escrow_id = "C1";
  amount = some 25;
  currency = none;
  claimed_by = none;
  refund_to = some "GAAAAAAAAAAAAAAAAAAAAAAAAAAAAAAAAAAAAAAAAAAAAAAAAAAAAAAA";
  escrow_type = none;
  milestone_index = none;
}

abbrev given : Option ℕ → Option ℕ
given a = a

abbrev positive : ℕ → Bool
positive n = ltb 0 n

abbrev claims : Map (ClaimedRefund ℕ)
claims = ("r1", claim) ∷ []

begins : begin_claim positive true payload 7 [] ≡ (claims, ok claim)
unfolding begin_claim begin_checked check_payload claim_record stellar_address Map.get Map.set
begins = refl

execute-TestOnly_example :
    All
      (TestOnly host_of)
      (execute given same_text host_of kit remote development dev_env none claim).0
execute-TestOnly_example =
    execute-TestOnly given same_text host_of kit remote development (some "k") (some secret) dev_env
      none claim aside dev_env_valid dev_url host_of-KeepsHost

-- On a runner, with mainnet's network.
abbrev misconfigured : NetworkGuardConfig
misconfigured = record development { stellar_network = some "mainnet" }

refuses :
    assert_mainnet_submission_allowed same_text host_of misconfigured
    ≡ some ("CI=true" ∷ "STELLAR_NETWORK=mainnet" ∷ [])
unfolding assert_mainnet_submission_allowed is_production_environment is_truthy_flag mainnet_signals
    is_space
refuses = refl

abbrev paid : ClaimedRefund ℕ
paid = record claim { status = some submitted; tx_hash = some "hash" }

abbrev done : List (Effect (Option ℕ))
done =
    posts "https://dev.api.trustlesswork.com" "/escrow/single-release/resolve-dispute" "k" none (
      resolution "C1" "GRESOLVER" (record { address = claim.refund_to; amount = some 25 } ∷ []) none
        none)
    ∷ signs testnet secret "xdr"
    ∷ posts "https://dev.api.trustlesswork.com" "/helper/send-transaction" "k" none
        (signed_xdr "signed")
    ∷ []

pays :
    claim_refund given same_text host_of kit remote development dev_env none positive payload 7 []
    ≡ (done, (("r1", paid) ∷ []), ok paid)
unfolding claim_refund execute resolution_of resolve_dispute require_trustless_work_config
    read_answer resolve_path send_path begin_claim begin_checked check_payload claim_record
    stellar_address finish_claim assert_mainnet_submission_allowed is_production_environment
    is_truthy_flag mainnet_signals is_space strip_slashes Map.get Map.set
pays = refl

claim_refund-Paid_example :
    (c : ClaimedRefund ℕ) × ((begin_claim positive true payload 7 []).1 ≡ ok c)
    × Paid given same_text host_of kit remote development dev_env none c paid done
claim_refund-Paid_example =
    claim_refund-Paid given same_text host_of kit remote development dev_env none positive payload 7
      [] (("r1", paid) ∷ []) paid done pays
