-- ===== src/Backend/Webhook.antt =====
-- apps/backend/src/routes/webhooks.ts: a delivery of Trustless Work, from the signature to the
-- answer. `processed` is the module's map of processed event ids with their times. The handler
-- awaits the database and then the notification, so it is three parts: `begin`, up to the call of
-- the database, `update_done`, up to the call of the notification, and `notify_done`. Parameters
-- are the keyed hash of a text in hexadecimal, `hmac secret text`, and `toLowerCase`; the lengths
-- that are compared before the constant-time comparison decide nothing. Logging and Sentry are left out.
pub mod Types
pub mod Answers
pub mod Shape
pub mod Replays
pub mod Capacity
pub mod Overlap
mod Examples
use stellar_true_stub.Common.{
  ℕ, ◌+◌, ◌-◌, String, Bool, true, false, ◌||◌, Option, none, some, List, [], ◌∷◌, if◌then◌else◌,
  Result, ok, err, or_else, get_or_else, str_eq, ltb, strip_prefix, drop,
}
use stellar_true_stub.Map
use stellar_true_stub.Map.{Map}
use stellar_true_stub.Backend.AppError.{is_blank}
pub use Types.{
  Header, one, many, Json, text, other, Request, Stored, mapped, inherited, Reply, no_secret,
  no_signature, invalid_signature, no_body, missing_fields, unknown_status, duplicate,
  update_failed, synced, status_code, Pending, Delivery, Call, update_escrow_status,
  notify_escrow_status_change, Outcome,
}

-- `PROCESSED_EVENT_TTL_MS`.
abbrev pub processed_event_ttl_ms : ℕ
processed_event_ttl_ms = 86_400_000

abbrev pub processed_event_max : ℕ
processed_event_max = 10_000

abbrev pub status_map : Map Stored
status_map =
    ("created", mapped "pending")
    ∷ ("funded", mapped "funded")
    ∷ ("active", mapped "funded")
    ∷ ("completed", mapped "completed")
    ∷ ("released", mapped "released")
    ∷ ("disputed", mapped "disputed")
    ∷ ("resolved", mapped "resolved")
    ∷ ("cancelled", mapped "cancelled")
    ∷ ("expired", mapped "expired")
    ∷ ("refunded", mapped "refunded")
    ∷ ("pending", mapped "pending")
    ∷ ("in_progress", mapped "funded")
    ∷ ("in_review", mapped "disputed")
    ∷ ("failed", mapped "cancelled")
    ∷ ("constructor", inherited)
    ∷ ("__proto__", inherited)
    ∷ []

-- `a || b` on headers: an empty text is no value.
abbrev header_or : Option Header → Option Header → Option Header
header_or none b = b
header_or (some (one s)) b = if is_blank s then b else some (one s)
header_or (some (many l)) b = some (many l)

abbrev first : List String → Option String
first [] = none
first (s ∷ l) = some s

abbrev header_text : Option Header → Option String
header_text none = none
header_text (some (one s)) = some s
header_text (some (many l)) = first l

pub get_signature_header : Request → Option String
get_signature_header r =
    header_text (header_or (header_or r.trustless_work_signature r.webhook_signature) r.signature)

pub normalize_signature : String → String
normalize_signature sig = get_or_else (strip_prefix "sha256=" sig) sig

-- `typeof x === "string" && x`.
abbrev pub filled : Option Json → Option String
filled (some (text s)) = if is_blank s then none else some s
filled _ = none

-- The chain of `??` over the ids.
abbrev first_id : List (Option Json) → Option Json
first_id [] = none
first_id (a ∷ rest) = or_else a (first_id rest)

module _ (hmac : String → String → String) where
  pub verify_signature : String → String → String → Bool
  verify_signature body sig secret = str_eq (hmac secret body) (normalize_signature sig)

  pub get_event_id : Request → String → String
  get_event_id r body = get_or_else (filled (first_id r.ids)) (hmac "webhook-dedup" body)

pub lookup_status : (String → String) → String → Option Stored
lookup_status lower status = Map.get (lower status) status_map

-- The two loops of `pruneProcessedEvents`.
pub drop_old : ℕ → Map ℕ → Map ℕ
drop_old now [] = []
drop_old now ((id, seen_at) ∷ m) =
    let rest = drop_old now m in
    if ltb (seen_at + processed_event_ttl_ms) now then rest else (id, seen_at) ∷ rest

pub prune_processed_events : ℕ → Map ℕ → Map ℕ
unfolding drop_old
prune_processed_events now m =
    drop (Map.size (drop_old now m) - processed_event_max) (drop_old now m)

module _ (hmac : String → String → String) (lower : String → String) where
  -- After the checks of the fields: `pruneProcessedEvents` and the guard against replays.
  pub dedup : Request → String → String → Stored → ℕ → Map ℕ → Map ℕ × Result Reply Pending
  dedup r body contract stored now m =
      let pruned = prune_processed_events now m in
      let id = get_event_id hmac r body in
      let p : Pending = record {
        event_id = id;
        contract_id = contract;
        engagement_id = get_or_else (filled r.engagement_id) contract;
        status = stored;
        now = now;
      } in
      (pruned, if Map.has id pruned then err (duplicate contract stored) else ok p)

  check_status :
      Request → String → String → String → Option Stored → ℕ → Map ℕ → Map ℕ × Result Reply Pending
  unfolding dedup
  check_status r body contract status none now m = (m, err (unknown_status status))
  check_status r body contract status (some stored) now m = dedup r body contract stored now m

  check_fields :
      Request → String → Option String → Option String → ℕ → Map ℕ → Map ℕ × Result Reply Pending
  unfolding check_status
  check_fields r body (some contract) (some status) now m =
      check_status r body contract status (lookup_status lower status) now m
  check_fields r body _ _ now m = (m, err missing_fields)

  check_body : Request → String → String → Option String → ℕ → Map ℕ → Map ℕ × Result Reply Pending
  unfolding check_fields
  check_body r secret sig none now m = (m, err no_body)
  check_body r secret sig (some body) now m =
      if verify_signature hmac body sig secret
      then check_fields r body (filled r.contract_id) (filled r.status) now m
      else (m, err invalid_signature)

  check_signature : Request → String → Option String → ℕ → Map ℕ → Map ℕ × Result Reply Pending
  unfolding check_body
  check_signature r secret none now m = (m, err no_signature)
  check_signature r secret (some sig) now m =
      if is_blank sig then (m, err no_signature) else check_body r secret sig r.raw_body now m

  check_secret : Request → Option String → ℕ → Map ℕ → Map ℕ × Result Reply Pending
  unfolding check_signature
  check_secret r none now m = (m, err no_secret)
  check_secret r (some secret) now m =
      if is_blank secret
      then (m, err no_secret)
      else check_signature r secret (get_signature_header r) now m

  -- The handler up to the call of the database; `ok p` makes that call.
  pub begin : Option String → Request → ℕ → Map ℕ → Map ℕ × Result Reply Pending
  unfolding check_secret
  begin secret r now m = check_secret r secret now m

-- What the database answers: the number of rows, or a failure. `ok rows` calls the notification.
pub update_done : Pending → Option ℕ → Map ℕ → Map ℕ × Result Reply ℕ
update_done p none m = (m, err update_failed)
update_done p (some rows) m = (Map.set p.event_id p.now m, ok rows)

-- Whether the notification succeeded.
pub notify_done : Pending → ℕ → Bool → Reply
notify_done p rows notified = synced p.contract_id p.engagement_id p.status rows notified

after_update : Pending → Bool → Map ℕ × Result Reply ℕ → Outcome
after_update p notified (m, err reply) = record {
  processed = m;
  reply = reply;
  calls = update_escrow_status p.contract_id p.status ∷ [];
}
after_update p notified (m, ok rows) = record {
  processed = m;
  reply = notify_done p rows notified;
  calls =
      update_escrow_status p.contract_id p.status
      ∷ notify_escrow_status_change p.event_id p.engagement_id
      ∷ [];
}

after_begin : Option ℕ → Bool → Map ℕ × Result Reply Pending → Outcome
unfolding after_update update_done
after_begin rows notified (m, err reply) = record { processed = m; reply = reply; calls = [] }
after_begin rows notified (m, ok p) = after_update p notified (update_done p rows m)

pub deliver :
    (String → String → String) → (String → String) → Option String → Delivery → Map ℕ → Outcome
unfolding after_begin
deliver hmac lower secret d m =
    after_begin d.rows d.notified (begin hmac lower secret d.request d.now m)
