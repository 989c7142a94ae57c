-- ===== src/Backend/TrustlessWork/Course.antt =====
-- How `resolveDispute` of trustless-work.ts goes: how far it comes, and what it then returns.
use stellar_true_stub.Common.{
  ◌≡◌, refl, subst, ap, inl, inr, String, true, false, Option, none, some, List, [], ◌∷◌,
  Bool-cases, Option-cases, Result, ok, err, or_else, get_or_else, str_eq, eq_iff, arith,
}
use stellar_true_stub.Backend.AppError.{is_blank}
use stellar_true_stub.Backend.Network.{Env, strip_slashes}
use stellar_true_stub.Backend.Refund.{ExecutionError, EscrowType, single_release, multi_release}
use stellar_true_stub.Backend.TrustlessWork.{
  Kit, Effect, posts, signs, signed_xdr, resolution, Response, unreachable, answered, Json,
  ResolveDisputeInput, Config, config_with, key_checked, finish, submit, sign_built, build,
  build_call, resolve_with, resolve_dispute, read_answer, resolve_path, type_text, endpoint,
  sent_milestone, built_transaction, require_trustless_work_config, send_path,
}

-- The remote service answered without an error, and this is the JSON.
pub data Answers (r : Response) (json : Json) : Type 0 where
  well : (status_text : String) → r ≡ answered true status_text json → Answers r json

read_answer-ok :
    (path : String) (id : Option String) (r : Response) (json : Json)
    → read_answer path id r ≡ ok json
    → Answers r json
unfolding read_answer
read_answer-ok path id (unreachable message) json e = cc
read_answer-ok path id (answered false t j) json e = cc
read_answer-ok path id (answered true t j) json e = well t (ap (answered true t) (made j json e))
  where
    made : (a b : Json) → ◌≡◌ {A = Result ExecutionError Json} (ok a) (ok b) → a ≡ b
    made a b k = cc

-- The path for an escrow of this type, and the milestone that is named.
abbrev pub path_of : EscrowType → String
path_of single_release = "/escrow/single-release/resolve-dispute"
path_of multi_release = "/escrow/multi-release/resolve-milestone-dispute"

abbrev pub milestone_of : EscrowType → Option String → Option String
milestone_of single_release index = none
milestone_of multi_release index = index

path-same : (t : EscrowType) → resolve_path t ≡ path_of t
unfolding resolve_path type_text endpoint
path-same single_release = refl
path-same multi_release = refl

milestone-same :
    (t : EscrowType) (index : Option String) → sent_milestone t index ≡ milestone_of t index
unfolding sent_milestone
milestone-same single_release index = refl
milestone-same multi_release index = refl

pub build_call-same :
    {A : Type 0} (kit : Kit) (remote : Effect A → Response) (c : Config) (id : Option String)
    (input : ResolveDisputeInput A)
    → build_call kit remote c id input
      ≡ posts c.api_url (path_of input.escrow_type) c.api_key id (
          resolution input.contract_id
            (kit.public_key c.signer)
            input.distributions
            input.asset
            (milestone_of input.escrow_type input.milestone_index))
unfolding build_call
build_call-same kit remote c id input = rw (path-same, milestone-same) refl

-- What the environment configures: where to send, with which key, and what to sign with.
pub record Configured (env : Env) (c : Config) : Type 0 where
  pub base : c.api_url ≡ strip_slashes env.trustless_work_api_url
  pub key : env.trustless_work_api_key ≡ some c.api_key
  pub secret : env.trustless_work_dispute_resolver_secret ≡ some c.signer
  pub chain : c.network ≡ env.stellar_network

config-Configured :
    (kit : Kit) (env : Env) (key secret : Option String) (c : Config)
    → env.trustless_work_api_key ≡ key
    → env.trustless_work_dispute_resolver_secret ≡ secret
    → config_with kit env key secret ≡ ok c
    → Configured env c
unfolding config_with key_checked
config-Configured kit env (some key) (some secret) c k s h =
    let found : Config = record {
      api_url = strip_slashes env.trustless_work_api_url;
      api_key = key;
      signer = secret;
      network = env.stellar_network;
    } in
    elim (Bool-cases (is_blank key)) [
      | inl blank ↦ let e = rw blank at h in cc
      | inr there ↦ elim (Bool-cases (is_blank secret)) [
        | inl blank ↦ let e = rw (there, blank) at h in cc
        | inr filled ↦ elim (Option-cases (kit.from_secret secret)) [
          | inr (message, thrown) ↦ let e = rw (there, filled, thrown) at h in cc
          | inl good ↦
              let e : ◌≡◌ {A = Result ExecutionError Config} (ok found) (ok c) =
                rw (there, filled, good) at h in
              let same : found ≡ c = cc in
              subst (Configured env) same
                (record { base = refl; key = k; secret = s; chain = refl })
        ]
      ]
    ]
config-Configured kit env none secret c k s h = cc
config-Configured kit env (some key) none c k s h = cc

require-Configured :
    (kit : Kit) (env : Env) (c : Config)
    → require_trustless_work_config kit env ≡ ok c
    → Configured env c
unfolding require_trustless_work_config
require-Configured kit env c h = config-Configured kit env _ _ c refl refl h

module _ {A : Type 0} where
  -- The submission of a signed transaction.
  abbrev pub send_call : Config → Option String → String → Effect A
  send_call c id xdr = posts c.api_url send_path c.api_key id (signed_xdr xdr)

module _ {A : Type 0} (kit : Kit) (remote : Effect A → Response) (input : ResolveDisputeInput A)
    (env : Env) where
  pub data Course (id : Option String)
      : List (Effect A) × Result ExecutionError String → Type 0 where
    -- Nothing is sent.
    stopped : (e : ExecutionError) → Course id ([], err e)
    unbuilt :
        (c : Config) (e : ExecutionError) → Course id (build_call kit remote c id input ∷ [], err e)
    unsigned :
        (c : Config) (xdr : String) (e : ExecutionError)
        → Course id (build_call kit remote c id input ∷ signs c.network c.signer xdr ∷ [], err e)
    declined :
        (c : Config) (xdr signed hash : String) (e : ExecutionError)
        → kit.sign c.network c.signer xdr ≡ ok (signed, hash)
        → Course id (
          build_call kit remote c id input
              ∷ signs c.network c.signer xdr
              ∷ send_call c id signed
              ∷ [],
          err e,
        )
    accepted :
        (c : Config) (built json : Json) (xdr signed hash : String)
        → Configured env c
        → Answers (remote (build_call kit remote c id input)) built
        → built.unsigned_transaction ≡ some xdr
        → kit.sign c.network c.signer xdr ≡ ok (signed, hash)
        → Answers (remote (send_call c id signed)) json
        → json.status ≡ some "SUCCESS"
        → Course id (
          build_call kit remote c id input
              ∷ signs c.network c.signer xdr
              ∷ send_call c id signed
              ∷ [],
          ok hash,
        )

  module _ (c : Config) (id : Option String) (proper : Configured env c) where
    success : (o : Option String) → str_eq (get_or_else o "") "SUCCESS" ≡ true → o ≡ some "SUCCESS"
    success none e = absurd (ground (arith, eq_iff "" "SUCCESS"))
    success (some s) e = ap some ((eq_iff s "SUCCESS").0 e)

    finish-Course :
        (built : Json) (xdr signed hash : String)
        → Answers (remote (build_call kit remote c id input)) built
        → built.unsigned_transaction ≡ some xdr
        → kit.sign c.network c.signer xdr ≡ ok (signed, hash)
        → (r : Result ExecutionError Json)
        → read_answer send_path id (remote (send_call c id signed)) ≡ r
        → Course id (
          build_call kit remote c id input
              ∷ signs c.network c.signer xdr
              ∷ send_call c id signed
              ∷ [],
          finish kit remote hash id r,
        )
    unfolding finish
    finish-Course built xdr signed hash b u k (err e) r = declined c xdr signed hash e k
    finish-Course built xdr signed hash b u k (ok json) r =
        elim (Bool-cases (str_eq (get_or_else json.status "") "SUCCESS")) [
          | inl good ↦ rw good (
              accepted c built json xdr signed hash proper b u k
                (read_answer-ok send_path id _ json r) (success json.status good))
          | inr bad ↦ rw bad (declined c xdr signed hash _ k)
        ]

    submit-Course :
        (built : Json) (xdr : String) (s : Result String (String × String))
        → Answers (remote (build_call kit remote c id input)) built
        → built.unsigned_transaction ≡ some xdr
        → kit.sign c.network c.signer xdr ≡ s
        → Course id (
            submit kit remote c id
              (build_call kit remote c id input ∷ signs c.network c.signer xdr ∷ [])
              s)
    unfolding submit
    submit-Course built xdr (err message) b u k = unsigned c xdr _
    submit-Course built xdr (ok (signed, hash)) b u k =
        finish-Course built xdr signed hash b u k _ refl

    built-same :
        (o : Option String) (xdr : String)
        → built_transaction kit remote o ≡ some xdr
        → o ≡ some xdr
    unfolding built_transaction
    built-same none xdr e = cc
    built-same (some s) xdr e = elim (Bool-cases (is_blank s)) [
      | inl blank ↦ let k = rw blank at e in cc
      | inr there ↦ rw there at e
    ]

    build-Course :
        (r : Result ExecutionError Json)
        → read_answer
            (resolve_path input.escrow_type)
            id
            (remote (build_call kit remote c id input))
          ≡ r
        → Course id
            (build kit remote c input.escrow_type id (build_call kit remote c id input ∷ []) r)
    unfolding build sign_built
    build-Course (err e) r = unbuilt c e
    build-Course (ok json) r =
        elim (Option-cases (built_transaction kit remote json.unsigned_transaction)) [
          | inl gone ↦ rw gone (unbuilt c _)
          | inr (xdr, there) ↦ rw there (
              submit-Course json xdr _ (read_answer-ok (resolve_path input.escrow_type) id _ json r)
                (built-same json.unsigned_transaction xdr there) refl)
        ]

  with-Course :
      (ambient : Option String) (c : Result ExecutionError Config)
      → require_trustless_work_config kit env ≡ c
      → Course (or_else input.request_id ambient) (resolve_with kit remote ambient input c)
  unfolding resolve_with
  with-Course ambient (err e) h = stopped e
  with-Course ambient (ok c) h =
      build-Course c (or_else input.request_id ambient) (require-Configured kit env c h) _ refl

  pub resolve_dispute-Course :
      (ambient : Option String)
      → Course (or_else input.request_id ambient) (resolve_dispute kit remote env ambient input)
  unfolding resolve_dispute
  resolve_dispute-Course ambient = with-Course ambient (require_trustless_work_config kit env) refl
