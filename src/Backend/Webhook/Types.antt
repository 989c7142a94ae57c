-- ===== src/Backend/Webhook/Types.antt =====
-- apps/backend/src/routes/webhooks.ts: the requests that the handler reads, its answers, and what it
-- calls.
use stellar_true_stub.Common.{ℕ, String, Bool, Option, List}
use stellar_true_stub.Map.{Map}

-- A header as Express hands it over.
pub data Header : Type 0 where
  one : String → Header
  many : List String → Header

-- A value of the JSON body that is neither null nor absent.
pub data Json : Type 0 where
  text : String → Json
  other : Json

-- What the handler reads of a request. The five ids are the fields eventId, event_id, id,
-- deliveryId and delivery_id, in this order.
pub record Request : Type 0 where
  pub trustless_work_signature : Option Header
  pub webhook_signature : Option Header
  pub signature : Option Header
  pub raw_body : Option String
  pub contract_id : Option Json
  pub engagement_id : Option Json
  pub status : Option Json
  pub ids : List (Option Json)

-- A value that `STATUS_MAP` has for a key: its own, or one that every object inherits.
pub data Stored : Type 0 where
  mapped : String → Stored
  inherited : Stored

pub data Reply : Type 0 where
  -- 500, without a configured secret.
  no_secret : Reply
  -- 401.
  no_signature invalid_signature : Reply
  -- 400.
  no_body missing_fields : Reply
  unknown_status : String → Reply
  -- 200, without side effects.
  duplicate : String → Stored → Reply
  -- 500.
  update_failed : Reply
  -- 200: contract, engagement, status, rows, and whether the notification succeeded.
  synced : String → String → Stored → ℕ → Bool → Reply

abbrev pub status_code : Reply → ℕ
status_code no_secret = 500
status_code no_signature = 401
status_code invalid_signature = 401
status_code no_body = 400
status_code missing_fields = 400
status_code (unknown_status s) = 400
status_code (duplicate c s) = 200
status_code update_failed = 500
status_code (synced c e s rows notified) = 200

-- A delivery that waits for the database: what the handler then still needs.
pub record Pending : Type 0 where
  pub event_id : String
  pub contract_id : String
  pub engagement_id : String
  pub status : Stored
  pub now : ℕ

-- A whole delivery, where no other one runs in between: what it finds and leaves, its answer, and
-- what it calls.
pub record Delivery : Type 0 where
  pub request : Request
  pub now : ℕ
  pub rows : Option ℕ
  pub notified : Bool

pub data Call : Type 0 where
  update_escrow_status : String → Stored → Call
  notify_escrow_status_change : String → String → Call

pub record Outcome : Type 0 where
  pub processed : Map ℕ
  pub reply : Reply
  pub calls : List Call
