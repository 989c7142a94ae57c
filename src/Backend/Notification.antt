-- ===== src/Backend/Notification.antt =====
-- apps/backend/src/services/notification.service.ts. The repository is not part of the source: what
-- its calls answer is a parameter, and so are `toLowerCase` and `jitter attempt`, the milliseconds
-- that chance adds to a wait after rounding. `Content` is what a notification holds besides its type
-- and event. Logging is left out.
pub mod Errors
pub mod Course
mod Examples
use stellar_true_stub.Common.{
  ℕ, zero, suc, ◌+◌, ◌-◌, ◌*◌, ◌^◌, String, Bool, true, false, ◌||◌, ◌==◌, Option, none, some, List,
  [], ◌∷◌, ◌++◌, if◌then◌else◌, Result, ok, err, leb, any, or_else, str_eq, codes, includes_text,
}
use stellar_true_stub.Backend.AppError.{is_blank}

abbrev pub max_delivery_attempts : ℕ
max_delivery_attempts = 5

abbrev pub base_backoff_ms : ℕ
base_backoff_ms = 200

abbrev pub max_backoff_ms : ℕ
max_backoff_ms = 10_000

abbrev pub financial_status_types : List String
financial_status_types = "escrow_funded" ∷ "escrow_released" ∷ "escrow_disputed" ∷ []

pub record Notification (Content : Type 0) : Type 0 where
  pub event_id : Option String
  pub kind : String
  pub content : Content

-- A property of an error object: a number, or something else that is not null.
pub data Value : Type 0 where
  number : ℕ → Value
  other : Value

-- What a call throws: the three places where an object may have a status, and the message.
pub record Thrown : Type 0 where
  pub status : Option Value
  pub status_code : Option Value
  pub response_status : Option Value
  pub message : String

abbrev pub as_number : Option Value → Option ℕ
as_number (some (number n)) = some n
as_number _ = none

pub extract_status_code : Thrown → Option ℕ
extract_status_code e = as_number (or_else e.status (or_else e.status_code e.response_status))

abbrev network_words : List String
network_words =
    "timeout" ∷ "timed out" ∷ "econnreset" ∷ "econnrefused" ∷ "etimedout" ∷ "enotfound"
    ∷ "socket hang up" ∷ "network" ∷ []

-- Whatever the message says, the error is transient.
by_message : String → Bool
by_message normalized =
    if any (λ word. includes_text (codes normalized) (codes word)) network_words then true else true

transient_with : Option ℕ → String → Bool
unfolding by_message
transient_with none normalized = by_message normalized
transient_with (some status) normalized =
    if leb 500 status then true else if leb 400 status then false else by_message normalized

-- `classifyError(error).transient`.
pub classify_error : (String → String) → Thrown → Bool
unfolding transient_with
classify_error lower e = transient_with (extract_status_code e) (lower e.message)

pub compute_backoff_delay : (ℕ → ℕ) → ℕ → ℕ
compute_backoff_delay jitter attempt =
    let exponential = base_backoff_ms * 2 ^ (attempt - 1) in
    (if leb exponential max_backoff_ms then exponential else max_backoff_ms) + jitter attempt

-- What the service does, in order.
pub data Effect (Content : Type 0) : Type 0 where
  exists_by_event_id : String → Effect Content
  create : Notification Content → Effect Content
  deliver : Notification Content → Effect Content
  sleep : ℕ → Effect Content
  -- The notification, the reason, the attempts and whether it is financial.
  create_dead_letter : Notification Content → String → ℕ → Bool → Effect Content
  capture_exception : Thrown → Option String → String → Bool → Effect Content

-- What the repository answers: whether the event is there, what `create` throws, and what the
-- delivery at each attempt throws. What `createDeadLetter` throws is swallowed.
pub record Repository : Type 0 where
  pub exists : Result Thrown Bool
  pub created : Option Thrown
  pub delivered : ℕ → Option Thrown

module _ {Content : Type 0} where
  pub handle_delivery_failure : Notification Content → Thrown → List (Effect Content)
  handle_delivery_failure n e =
      let is_financial = any (str_eq n.kind) financial_status_types in
      create_dead_letter n e.message max_delivery_attempts is_financial
      ∷ capture_exception e n.event_id n.kind is_financial
      ∷ []

  -- `error` may be undefined only where no attempt was made.
  give_up : Notification Content → Option Thrown → List (Effect Content)
  unfolding handle_delivery_failure
  give_up n none = []
  give_up n (some e) = handle_delivery_failure n e

  module _ (lower : String → String) (jitter : ℕ → ℕ) where
    -- The loop, with the attempts that are left, the number of the next one and the last error.
    attempts :
        (ℕ → Option Thrown) → Notification Content → ℕ → ℕ → Option Thrown → List (Effect Content)
    unfolding give_up
    attempts delivered n zero attempt last = give_up n last
    attempts delivered n (suc left) attempt last =
        let rest = attempts delivered n left (attempt + 1) (delivered attempt) in
        deliver n ∷ elim (delivered attempt) [
          | none ↦ []
          | some e ↦
              if classify_error lower e
              then if attempt == max_delivery_attempts
                then give_up n (some e)
                else sleep (compute_backoff_delay jitter attempt) ∷ rest
              else give_up n (some e)
        ]

    pub dispatch_with_retry : (ℕ → Option Thrown) → Notification Content → List (Effect Content)
    unfolding attempts
    dispatch_with_retry delivered n = attempts delivered n max_delivery_attempts 1 none

    after_create :
        Repository
        → Notification Content
        → Option Thrown
        → List (Effect Content) × Result Thrown (Unit {0})
    after_create repo n (some e) = (create n ∷ [], err e)
    after_create repo n none = (create n ∷ dispatch_with_retry repo.delivered n, ok tt)

    after_exists :
        Repository
        → Notification Content
        → String
        → Result Thrown Bool
        → List (Effect Content) × Result Thrown (Unit {0})
    unfolding after_create
    after_exists repo n id (err e) = (exists_by_event_id id ∷ [], err e)
    after_exists repo n id (ok true) = (exists_by_event_id id ∷ [], ok tt)
    after_exists repo n id (ok false) =
        let (done, result) = after_create repo n repo.created in
        (exists_by_event_id id ∷ done, result)

    send_with :
        Repository
        → Notification Content
        → Option String
        → List (Effect Content) × Result Thrown (Unit {0})
    unfolding after_exists after_create
    send_with repo n none = after_create repo n repo.created
    send_with repo n (some id) =
        if is_blank id then after_create repo n repo.created else after_exists repo n id repo.exists

    pub send_notification :
        Repository → Notification Content → List (Effect Content) × Result Thrown (Unit {0})
    unfolding send_with
    send_notification repo n = send_with repo n n.event_id
