-- ===== src/Backend/Webhook/Answers.antt =====
-- What webhooks.ts answers before it calls the database, on every path.
use stellar_true_stub.Common.{
  ℕ, ◌≡◌, ◌≢◌, strip_prefix, ◌⊎◌, String, true, false, Option, none, some, Result, ok, err,
  get_or_else,
}
use stellar_true_stub.Map
use stellar_true_stub.Map.{Map}
use stellar_true_stub.Backend.Webhook.{
  Request, Stored, Reply, no_secret, no_signature, invalid_signature, no_body, missing_fields,
  unknown_status, duplicate, Pending, get_signature_header, filled, get_event_id, status_map,
  prune_processed_events,
}

-- Not there, or empty.
abbrev pub IsAbsent : Option String → Type 0
IsAbsent o = (o ≡ none) ⊎ (o ≡ some "")

-- The digest that the header gives: without the prefix, if it starts with it.
abbrev pub digest_of : String → String
digest_of sig = get_or_else (strip_prefix "sha256=" sig) sig

module _ (hmac : String → String → String) (lower : String → String) (secret : Option String)
    (r : Request) (now : ℕ) (m : Map ℕ) where
  -- The body carries a signature that was made with the configured secret.
  abbrev pub IsSigned : String → Type 0
  IsSigned body =
      (key : String) × (sig : String) × (secret ≡ some key)
      × (get_signature_header r ≡ some sig)
      × (r.raw_body ≡ some body)
      × (hmac key body ≡ digest_of sig)

  -- What waits for the database.
  abbrev pub pending_of : String → String → Stored → Pending
  pending_of body contract stored = record {
    event_id = get_event_id hmac r body;
    contract_id = contract;
    engagement_id = get_or_else (filled r.engagement_id) contract;
    status = stored;
    now = now;
  }

  pub data Answer : Map ℕ × Result Reply Pending → Type 0 where
    unconfigured : IsAbsent secret → Answer (m, err no_secret)
    unsigned : IsAbsent (get_signature_header r) → Answer (m, err no_signature)
    empty : r.raw_body ≡ none → Answer (m, err no_body)
    forged :
        (key sig body : String)
        → secret ≡ some key
        → get_signature_header r ≡ some sig
        → r.raw_body ≡ some body
        → hmac key body ≢ digest_of sig
        → Answer (m, err invalid_signature)
    incomplete :
        (body : String)
        → IsSigned body
        → (filled r.contract_id ≡ none) ⊎ (filled r.status ≡ none)
        → Answer (m, err missing_fields)
    unmapped :
        (body status : String)
        → IsSigned body
        → filled r.status ≡ some status
        → Map.get (lower status) status_map ≡ none
        → Answer (m, err (unknown_status status))
    replayed :
        (body contract status : String) (stored : Stored)
        → IsSigned body
        → filled r.contract_id ≡ some contract
        → filled r.status ≡ some status
        → Map.get (lower status) status_map ≡ some stored
        → Map.has (get_event_id hmac r body) (prune_processed_events now m) ≡ true
        → Answer (prune_processed_events now m, err (duplicate contract stored))
    passed :
        (body contract status : String) (stored : Stored)
        → IsSigned body
        → filled r.contract_id ≡ some contract
        → filled r.status ≡ some status
        → Map.get (lower status) status_map ≡ some stored
        → Map.has (get_event_id hmac r body) (prune_processed_events now m) ≡ false
        → Answer (prune_processed_events now m, ok (pending_of body contract stored))
