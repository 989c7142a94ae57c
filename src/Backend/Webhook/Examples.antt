-- ===== src/Backend/Webhook/Examples.antt =====
-- The theorems on the webhooks at concrete deliveries.
use stellar_true_stub.Common.{
  ℕ, ◌≤◌, ◌≡◌, refl, String, true, false, none, some, [], ◌∷◌, ok, arith,
}
use stellar_true_stub.Map
use stellar_true_stub.Map.{Map}
use stellar_true_stub.Backend.Webhook.{
  one, many, text, Request, mapped, inherited, Pending, get_signature_header, normalize_signature,
  verify_signature, get_event_id, lookup_status, drop_old, prune_processed_events, begin, Delivery,
  synced, update_escrow_status, notify_escrow_status_change, deliver,
}
use stellar_true_stub.Backend.Webhook.Replays.{run, notified, run-notified_le}
use stellar_true_stub.Backend.Webhook.Overlap.{begin-begin, deliver-deliver}

-- A stand-in for the keyed hash, and for `toLowerCase`.
abbrev tag : String → String → String
tag key body = key

abbrev same_text : String → String
same_text s = s

abbrev funded : Request
funded = record {
  trustless_work_signature = none;
  webhook_signature = some (one "");
  signature = some (many ("sha256=key" ∷ []));
  raw_body = some "{}";
  contract_id = some (text "C1");
  engagement_id = none;
  status = some (text "active");
  ids = none ∷ some (text "ev1") ∷ [];
}

abbrev waiting : Pending
waiting = record {
  event_id = "ev1";
  contract_id = "C1";
  engagement_id = "C1";
  status = mapped "funded";
  now = 5;
}

abbrev first : Delivery
first = record { request = funded; now = 5; rows = none; notified = false }

abbrev second : Delivery
second = record { request = funded; now = 6; rows = some 1; notified = true }

abbrev empty : Map ℕ
empty = []

header_test : get_signature_header funded ≡ some "sha256=key"
unfolding get_signature_header
header_test = refl

inherited_test : lookup_status same_text "constructor" ≡ some inherited
unfolding lookup_status Map.get
inherited_test = refl

-- A status that is a name which every object inherits is not rejected.
begins : begin tag same_text (some "key") funded 5 empty ≡ (empty, ok waiting)
unfolding begin get_signature_header verify_signature normalize_signature get_event_id lookup_status
    prune_processed_events drop_old Map.get
begins = refl

run-notified_le_example :
    notified "ev1" (run tag same_text (some "key") (first ∷ second ∷ second ∷ []) empty).1 ≤ 1
run-notified_le_example =
    run-notified_le tag same_text (some "key") 5 "ev1" (first ∷ second ∷ second ∷ []) empty
      (omega arith) (omega arith)

other_event : Map.has {V = ℕ} "ev1" (("ev0", 5) ∷ []) ≡ false
unfolding Map.get
other_event = refl

begin-begin_example :
    (Map.has "ev1" empty ≡ false)
    × (begin tag same_text (some "key") funded 6 (("ev0", 5) ∷ [])
        ≡ (prune_processed_events 6 (("ev0", 5) ∷ []), ok (record waiting { now = 6 })))
begin-begin_example =
    begin-begin tag same_text (some "key") funded 5 6 empty empty (("ev0", 5) ∷ []) waiting begins
      other_event

deliver-deliver_example :
    deliver tag same_text
      (some "key")
      second
      (deliver tag same_text (some "key") first empty).processed
    ≡ record {
      processed = Map.set "ev1" 6 (prune_processed_events 6 empty);
      reply = synced "C1" "C1" (mapped "funded") 1 true;
      calls =
          update_escrow_status "C1" (mapped "funded") ∷ notify_escrow_status_change "ev1" "C1" ∷ [];
    }
deliver-deliver_example =
    deliver-deliver tag same_text (some "key") funded 5 6 1 false true empty empty waiting begins
