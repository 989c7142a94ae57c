-- ===== src/Backend/Notification/Examples.antt =====
-- The theorems on the notifications at concrete deliveries.
use stellar_true_stub.Common.{
  ℕ, ◌≡◌, ◌==◌, refl, String, true, false, Option, none, some, [], ◌∷◌, ok, if◌then◌else◌,
}
use stellar_true_stub.Backend.Notification.{
  Notification, number, Thrown, extract_status_code, classify_error, compute_backoff_delay,
  exists_by_event_id, create, deliver, sleep, create_dead_letter, capture_exception, Repository,
  handle_delivery_failure, dispatch_with_retry, send_notification,
}
use stellar_true_stub.Backend.Notification.Course.{
  Course, dispatch_with_retry-Course, Sending, send_notification-Sending,
}

abbrev same_text : String → String
same_text s = s

abbrev none_added : ℕ → ℕ
none_added attempt = 0

abbrev funded : Notification ℕ
funded = record { event_id = some "ev1"; kind = "escrow_funded"; content = 1 }

abbrev bad_gateway : Thrown
bad_gateway = record {
  status = some (number 502);
  status_code = none;
  response_status = none;
  message = "bad gateway";
}

abbrev invalid : Thrown
invalid = record {
  status = none;
  status_code = none;
  response_status = some (number 422);
  message = "no address";
}

-- The first attempt fails at the provider, the second is invalid.
abbrev answers : ℕ → Option Thrown
answers attempt = if attempt == 1 then some bad_gateway else some invalid

abbrev repo : Repository
repo = record { exists = ok false; created = none; delivered = answers }

-- The record says 5 attempts, after two.
gives_up : send_notification same_text none_added repo funded ≡ (
  exists_by_event_id "ev1"
      ∷ create funded
      ∷ deliver funded
      ∷ sleep 200
      ∷ deliver funded
      ∷ create_dead_letter funded "no address" 5 true
      ∷ capture_exception invalid (some "ev1") "escrow_funded" true
      ∷ [],
  ok tt,
)
unfolding send_notification dispatch_with_retry classify_error extract_status_code
    compute_backoff_delay handle_delivery_failure
gives_up = refl

dispatch_with_retry-Course_example :
    Course same_text none_added answers funded 1
      (dispatch_with_retry same_text none_added answers funded)
dispatch_with_retry-Course_example = dispatch_with_retry-Course same_text none_added answers funded

send_notification-Sending_example :
    Sending same_text none_added repo funded (send_notification same_text none_added repo funded)
send_notification-Sending_example = send_notification-Sending same_text none_added repo funded
