-- ===== src/Backend/TrustlessWork/Examples.antt =====
-- The client of trustless-work.ts at concrete calls, and the waits between the attempts of a refund.
use stellar_true_stub.Common.{ℕ, ◌≡◌, refl, true, false, none, some, [], ◌∷◌, ok, map}
use stellar_true_stub.Backend.Network.{Env, testnet, strip_slashes}
use stellar_true_stub.Backend.Refund.{multi_release}
use stellar_true_stub.Backend.TrustlessWork.{
  refund_retry_backoff_ms, is_refund_retry_exhausted, Kit, Effect, posts, gets, signs, signed_xdr,
  resolution, Response, answered, ResolveDisputeInput, require_trustless_work_config,
  resolve_dispute, get_escrow, resolve_path, send_path, read_answer,
}

waits :
    map refund_retry_backoff_ms (1 ∷ 2 ∷ 3 ∷ 6 ∷ 7 ∷ []) ≡ 0 ∷ 1_000 ∷ 2_000 ∷ 16_000 ∷ 30_000 ∷ []
unfolding refund_retry_backoff_ms
waits = refl

stops : map is_refund_retry_exhausted (4 ∷ 5 ∷ []) ≡ false ∷ true ∷ []
unfolding is_refund_retry_exhausted
stops = refl

abbrev kit : Kit
kit = record {
  from_secret = λ s. none;
  public_key = λ s. "GRESOLVER";
  sign = λ n key xdr. ok ("signed", "hash");
}

abbrev env : Env
env = record {
  trustless_work_api_url = "https://x/";
  trustless_work_api_key = some "k";
  trustless_work_dispute_resolver_secret = some "s";
  stellar_network = testnet;
}

abbrev remote : Effect ℕ → Response
remote call = answered true "OK" (record {
  message = none;
  unsigned_transaction = some "xdr";
  status = some "SUCCESS";
  escrow_status = none;
})

abbrev input : ResolveDisputeInput ℕ
input = record {
  contract_id = "C1";
  escrow_type = multi_release;
  distributions = [];
  asset = none;
  milestone_index = some "2";
  request_id = none;
}

resolve_test : resolve_dispute kit remote env (some "r1") input ≡ (
  posts "https://x" "/escrow/multi-release/resolve-milestone-dispute" "k"
        (some "r1")
        (resolution "C1" "GRESOLVER" [] none (some "2"))
      ∷ signs testnet "s" "xdr"
      ∷ posts "https://x" "/helper/send-transaction" "k" (some "r1") (signed_xdr "signed")
      ∷ [],
  ok "hash",
)
unfolding resolve_dispute require_trustless_work_config strip_slashes resolve_path send_path
    read_answer
resolve_test = refl

get_test :
    get_escrow kit remote (λ s. s) env none "C1" none
    ≡ (gets "https://x" "/escrow/C1" "k" none ∷ [], ok ("C1", "SUCCESS"))
unfolding get_escrow require_trustless_work_config strip_slashes read_answer
get_test = refl
