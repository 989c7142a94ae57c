-- ===== src/Backend/Executor/Submission.antt =====
-- What a claim with the executor of refund.service.ts ends in, and what was submitted on the way.
use stellar_true_stub.Common.{
  ℕ, ◌≡◌, refl, subst, ap, String, Bool, true, Option, none, some, List, [], ◌∷◌, Result, ok, err,
  get_or_else,
}
use stellar_true_stub.Map
use stellar_true_stub.Map.{Map}
use stellar_true_stub.Backend.AppError.{AppError}
use stellar_true_stub.Backend.Network.{NetworkGuardConfig, Env, assert_mainnet_submission_allowed}
use stellar_true_stub.Backend.Refund.{
  ClaimedRefund, RefundPayload, single_release, submitted, failed, ExecutionError, reason_of,
  begin_claim, finish_claim,
}
use stellar_true_stub.Backend.TrustlessWork.{
  Kit, Effect, posts, signs, resolution, signed_xdr, Response, Json, Config, build_call, send_path,
}
use stellar_true_stub.Backend.TrustlessWork.Course.{
  Course, Configured, path_of, milestone_of, build_call-same, stopped, unbuilt, unsigned, declined,
  accepted, Answers, resolve_dispute-Course,
}
use stellar_true_stub.Backend.Executor.{
  blocked, resolution_of, execute_unless, execute, claim_after, claim_refund,
}

module _ {Amount Number : Type 0} (number : Option Amount → Number) (lower : String → String)
    (host : String → Option String) (kit : Kit) (remote : Effect Number → Response)
    (config : NetworkGuardConfig) (env : Env) (ambient : Option String) where
  -- A claim that the guard blocks sends and signs nothing, is answered 502 REFUND_EXECUTION_FAILED, and
  -- leaves the claim as failed, with the message of the guard's error.
  pub claim_refund-blocked :
      (is_positive : Amount → Bool) (p : RefundPayload Amount) (now : ℕ)
      (store after : Map (ClaimedRefund Amount)) (r : ClaimedRefund Amount) (reasons : List String)
      → begin_claim is_positive true p now store ≡ (after, ok r)
      → assert_mainnet_submission_allowed lower host config ≡ some reasons
      → claim_refund number lower host kit remote config env ambient is_positive p now store ≡ (
        [],
        Map.set r.refund_id
            (record r { status = some failed; failure_reason = some (reason_of (blocked reasons)) })
            after,
        err (record { status_code = 502; code = "REFUND_EXECUTION_FAILED" }),
      )
  unfolding claim_refund claim_after execute execute_unless finish_claim blocked
  claim_refund-blocked is_positive p now store after r reasons b g = rw (b, g) refl

  -- The request for the transaction of the claim: its escrow and type, the address and amount that it
  -- refunds, and the milestone where the escrow has milestones.
  abbrev pub asked : Config → ClaimedRefund Amount → Effect Number
  asked c claim =
      let type = get_or_else claim.escrow_type single_release in
      posts c.api_url (path_of type) c.api_key ambient (
        resolution claim.escrow_id (kit.public_key c.signer)
          (record { address = claim.refund_to; amount = number claim.amount } ∷ []) none
          (milestone_of type claim.milestone_index))

  asked-same :
      (c : Config) (claim : ClaimedRefund Amount)
      → build_call kit remote c ambient (resolution_of number claim) ≡ asked c claim
  unfolding resolution_of
  asked-same c claim = build_call-same kit remote c ambient (resolution_of number claim)

  -- The submission of the signed transaction.
  abbrev pub sent : Config → String → Effect Number
  sent c xdr = posts c.api_url "/helper/send-transaction" c.api_key ambient (signed_xdr xdr)

  -- The transaction of a claim was built, signed and submitted once, and the network accepted it.
  pub record Paid (claim r : ClaimedRefund Amount) (done : List (Effect Number)) : Type 0 where
    pub config_used : Config
    pub configured : Configured env config_used
    pub built : Json
    pub xdr : String
    pub signed : String
    pub hash : String
    pub json : Json
    pub effects :
        done
        ≡ asked config_used claim
          ∷ signs config_used.network config_used.signer xdr
          ∷ sent config_used signed
          ∷ []
    pub offered : Answers (remote (asked config_used claim)) built
    pub transaction : built.unsigned_transaction ≡ some xdr
    pub signature : kit.sign config_used.network config_used.signer xdr ≡ ok (signed, hash)
    pub answered : Answers (remote (sent config_used signed)) json
    pub success : json.status ≡ some "SUCCESS"
    pub result : r ≡ record claim { status = some submitted; tx_hash = some hash }

  course-Paid :
      (claim r : ClaimedRefund Amount) (store after : Map (ClaimedRefund Amount))
      (outcome : List (Effect Number) × Result ExecutionError String)
      → Course kit remote (resolution_of number claim) env ambient outcome
      → finish_claim claim outcome.1 store ≡ (after, ok r)
      → Paid claim r outcome.0
  unfolding finish_claim send_path
  course-Paid claim r store after o (stopped e) f = cc
  course-Paid claim r store after o (unbuilt c e) f = cc
  course-Paid claim r store after o (unsigned c xdr e) f = cc
  course-Paid claim r store after o (declined c xdr signed hash e k) f = cc
  course-Paid claim r store after o (accepted c built json xdr signed hash p a u k b s) f = record {
    config_used = c;
    configured = p;
    built = built;
    xdr = xdr;
    signed = signed;
    hash = hash;
    json = json;
    effects = rw asked-same refl;
    offered = rw asked-same at a;
    transaction = u;
    signature = k;
    answered = b;
    success = s;
    result = cc;
  }

  execute-Paid :
      (claim r : ClaimedRefund Amount) (store after : Map (ClaimedRefund Amount))
      (o : Option (List String))
      → finish_claim claim
          (execute_unless number lower host kit remote config env ambient o claim).1
          store
        ≡ (after, ok r)
      → Paid claim r (execute_unless number lower host kit remote config env ambient o claim).0
  unfolding execute_unless finish_claim resolution_of
  execute-Paid claim r store after (some reasons) f = cc
  execute-Paid claim r store after none f =
      course-Paid claim r store after _
        (resolve_dispute-Course kit remote (resolution_of number claim) env ambient) f

  after-Paid :
      (b : Map (ClaimedRefund Amount) × Result AppError (ClaimedRefund Amount))
      (after : Map (ClaimedRefund Amount)) (r : ClaimedRefund Amount) (done : List (Effect Number))
      → claim_after number lower host kit remote config env ambient b ≡ (done, after, ok r)
      → (claim : ClaimedRefund Amount) × (b.1 ≡ ok claim) × Paid claim r done
  unfolding claim_after execute
  after-Paid (held, err e) after r done k = cc
  after-Paid (held, ok claim) after r done k =
      let o = assert_mainnet_submission_allowed lower host config in
      let paid = execute-Paid claim r held after o (ap (λ q. (q.1, q.2)) k) in
      (claim, refl, subst (Paid claim r) (ap (λ q. q.0) k) paid)

  -- A claim that is answered without an error was paid. Under the key, secret and network that the
  -- environment configures, the service was asked for a transaction that resolves the claim's escrow,
  -- of its type and at its milestone, with the claim's amount to its address; the transaction that it
  -- offered was signed with the secret for that network, and what the signing returned was submitted;
  -- the network answered SUCCESS; and the answer is the claim with the status "submitted" and the hash
  -- of the signed transaction. These are the only requests and the only signature.
  pub claim_refund-Paid :
      (is_positive : Amount → Bool) (p : RefundPayload Amount) (now : ℕ)
      (store after : Map (ClaimedRefund Amount)) (r : ClaimedRefund Amount)
      (done : List (Effect Number))
      → claim_refund number lower host kit remote config env ambient is_positive p now store
        ≡ (done, after, ok r)
      → (claim : ClaimedRefund Amount) × ((begin_claim is_positive true p now store).1 ≡ ok claim)
        × Paid claim r done
  unfolding claim_refund
  claim_refund-Paid is_positive p now store after r done e =
      after-Paid (begin_claim is_positive true p now store) after r done e
