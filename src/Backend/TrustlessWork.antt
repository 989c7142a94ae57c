-- ===== src/Backend/TrustlessWork.antt =====
-- apps/backend/src/lib/trustless-work.ts: the client that signs and submits. Parameters are the
-- kit of Stellar, what the remote service answers to each request, and the id of the ambient
-- request. A transaction is its XDR text; `Amount` is the type of a distribution's amount.
pub mod Types
mod Examples
pub mod TestOnly
pub mod Course
use Prim.Native.String
use stellar_true_stub.Common.{
  ℕ, ◌+◌, ◌-◌, ◌*◌, ◌^◌, String, Bool, true, false, Option, none, some, List, [], ◌∷◌, ◌++◌,
  if◌then◌else◌, Result, ok, err, get_or_else, or_else, str_eq, leb, ltb,
}
use stellar_true_stub.Backend.AppError.{is_blank}
use stellar_true_stub.Backend.Network.{Env, Network, public, testnet, strip_slashes}
use stellar_true_stub.Backend.Refund.{
  EscrowType, single_release, multi_release, ExecutionError, not_configured, other,
}
pub use Types.{
  Kit, Config, Distribution, ResolveDisputeInput, Body, resolution, signed_xdr, Effect, posts, gets,
  signs, Json, Response, unreachable, answered,
}

-- `REFUND_RETRY_BASE_BACKOFF_MS`.
abbrev pub refund_retry_base_backoff_ms : ℕ
refund_retry_base_backoff_ms = 1_000

abbrev pub max_refund_backoff_ms : ℕ
max_refund_backoff_ms = 30_000

abbrev pub max_refund_attempts : ℕ
max_refund_attempts = 5

pub refund_retry_backoff_ms : ℕ → ℕ
refund_retry_backoff_ms attempt =
    let delay = refund_retry_base_backoff_ms * 2 ^ (attempt - 2) in
    if leb attempt 1
    then 0
    else if leb delay max_refund_backoff_ms
    then delay
    else max_refund_backoff_ms

pub is_refund_retry_exhausted : ℕ → Bool
is_refund_retry_exhausted attempts = leb max_refund_attempts attempts

config_error : ExecutionError
config_error =
    not_configured
      "TRUSTLESS_WORK_API_KEY and TRUSTLESS_WORK_DISPUTE_RESOLVER_SECRET must be configured to execute refunds"

key_checked : Option String → Config → Result ExecutionError Config
key_checked none c = ok c
key_checked (some message) c = err (other message)

config_with : Kit → Env → Option String → Option String → Result ExecutionError Config
unfolding config_error key_checked
config_with kit env (some key) (some secret) =
    if is_blank key
    then err config_error
    else if is_blank secret
    then err config_error
    else key_checked (kit.from_secret secret) (record {
      api_url = strip_slashes env.trustless_work_api_url;
      api_key = key;
      signer = secret;
      network = env.stellar_network;
    })
config_with kit env _ _ = err config_error

unfoldable pub require_trustless_work_config : Kit → Env → Result ExecutionError Config
unfolding config_with
require_trustless_work_config kit env =
    config_with kit env env.trustless_work_api_key env.trustless_work_dispute_resolver_secret

-- `requestId ? \`${message} [requestId=${requestId}]\` : message`, of a TrustlessWorkError.
error_text : Option String → String → String
error_text none message = message
error_text (some id) message =
    if is_blank id
    then message
    else String.◌++◌ message (String.◌++◌ " [requestId=" (String.◌++◌ id "]"))

type_text : EscrowType → String
type_text single_release = "single-release"
type_text multi_release = "multi-release"

endpoint : EscrowType → String
endpoint single_release = "resolve-dispute"
endpoint multi_release = "resolve-milestone-dispute"

unfoldable pub resolve_path : EscrowType → String
unfolding type_text endpoint
resolve_path t = String.◌++◌ "/escrow/" (String.◌++◌ (type_text t) (String.◌++◌ "/" (endpoint t)))

-- `milestoneIndex` is sent for a multi-release escrow only.
sent_milestone : EscrowType → Option String → Option String
sent_milestone single_release index = none
sent_milestone multi_release index = index

unfoldable pub send_path : String
send_path = "/helper/send-transaction"

-- What `post` returns or throws for an answer.
unfoldable pub read_answer : String → Option String → Response → Result ExecutionError Json
unfolding error_text
read_answer path id (unreachable message) = err (other message)
read_answer path id (answered true status_text json) = ok json
read_answer path id (answered false status_text json) = err (
    other (
      error_text id (
        String.◌++◌ "Trustless Work "
          (String.◌++◌ path (String.◌++◌ " failed: " (get_or_else json.message status_text))))))

module _ {Amount : Type 0} (kit : Kit) (remote : Effect Amount → Response) where
  -- A result with what was done on the way.
  abbrev pub Doing : Type 0 → Type 0
  Doing A = List (Effect Amount) × Result ExecutionError A

  finish : String → Option String → Result ExecutionError Json → Result ExecutionError String
  unfolding error_text
  finish hash id (err e) = err e
  finish hash id (ok json) =
      let state = get_or_else json.status "" in
      if str_eq state "SUCCESS"
      then ok hash
      else err (
          other (
            error_text id (
              String.◌++◌ "Stellar transaction " (
                String.◌++◌ hash (
                  String.◌++◌ " was not accepted: "
                    (get_or_else (or_else json.message json.status) "unknown status"))))))

  submit :
      Config → Option String → List (Effect Amount) → Result String (String × String) → Doing String
  unfolding finish send_path
  submit c id done (err message) = (done, err (other message))
  submit c id done (ok (xdr, hash)) =
      let call = posts c.api_url send_path c.api_key id (signed_xdr xdr) in
      (done ++ (call ∷ []), finish hash id (read_answer send_path id (remote call)))

  sign_built :
      Config → EscrowType → Option String → List (Effect Amount) → Option String → Doing String
  unfolding submit error_text
  sign_built c t id done none = (
    done,
    err (
        other (
          error_text id (
            String.◌++◌ "Trustless Work "
              (String.◌++◌ (resolve_path t) " returned no unsignedTransaction")))),
  )
  sign_built c t id done (some xdr) =
      submit c id (done ++ (signs c.network c.signer xdr ∷ [])) (kit.sign c.network c.signer xdr)

  built_transaction : Option String → Option String
  built_transaction none = none
  built_transaction (some xdr) = if is_blank xdr then none else some xdr

  build :
      Config
      → EscrowType
      → Option String
      → List (Effect Amount)
      → Result ExecutionError Json
      → Doing String
  unfolding sign_built built_transaction
  build c t id done (err e) = (done, err e)
  build c t id done (ok json) = sign_built c t id done (built_transaction json.unsigned_transaction)

  -- The request for the unsigned transaction.
  pub build_call : Config → Option String → ResolveDisputeInput Amount → Effect Amount
  unfolding sent_milestone
  build_call c id input = posts c.api_url (resolve_path input.escrow_type) c.api_key id (
      resolution input.contract_id (kit.public_key c.signer) input.distributions input.asset
        (sent_milestone input.escrow_type input.milestone_index))

  resolve_with :
      Option String → ResolveDisputeInput Amount → Result ExecutionError Config → Doing String
  unfolding build build_call
  resolve_with ambient input (err e) = ([], err e)
  resolve_with ambient input (ok c) =
      let id = or_else input.request_id ambient in
      let call = build_call c id input in
      build c input.escrow_type id (call ∷ [])
        (read_answer (resolve_path input.escrow_type) id (remote call))

  -- `resolveDispute`; of its result the caller reads the hash alone.
  unfoldable pub resolve_dispute : Env → Option String → ResolveDisputeInput Amount → Doing String
  unfolding resolve_with
  resolve_dispute env ambient input =
      resolve_with ambient input (require_trustless_work_config kit env)

  live_state :
      String → Option String → Result ExecutionError Json → Result ExecutionError (String × String)
  unfolding error_text
  live_state contract id (err e) = err e
  live_state contract id (ok json) =
      let status = get_or_else (or_else json.status json.escrow_status) "" in
      if is_blank status
      then err (
          other (
            error_text id
              (String.◌++◌ "Trustless Work /escrow/" (String.◌++◌ contract " returned no status"))))
      else ok (contract, status)

  read_escrow :
      String → String → Option String → Result ExecutionError Config → Doing (String × String)
  unfolding live_state
  read_escrow contract path id (err e) = ([], err e)
  read_escrow contract path id (ok c) =
      let call = gets c.api_url path c.api_key id in
      (call ∷ [], live_state contract id (read_answer path id (remote call)))

  -- `getEscrow`, with `encodeURIComponent`.
  pub get_escrow :
      (String → String) → Env → Option String → String → Option String → Doing (String × String)
  unfolding read_escrow
  get_escrow encode env ambient contract request_id =
      read_escrow contract (String.◌++◌ "/escrow/" (encode contract)) (or_else request_id ambient)
        (require_trustless_work_config kit env)
