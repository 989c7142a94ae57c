-- ===== src/Backend/Fraud/Examples.antt =====
-- The theorems on the risk of listings at concrete listings.
use stellar_true_stub.Common.{
  ◌≡◌, ◌↔◌, refl, true, false, Option, none, some, List, [], ◌∷◌, codes, collapse, trim_start,
  trim_end, is_space, arith,
}
use stellar_true_stub.Backend.Fraud.{
  Text, TicketListingRiskInput, active_statuses, is_seat_character, join, normalize, normalize_seat,
  ticket_listing_fingerprint, is_active_listing, actives_of, is_exact, is_same_sale,
  is_same_section, match_of, exact_matches, section_matches, soft_matches, assess_listing_risk,
}
use stellar_true_stub.Backend.Fraud.Fingerprint.{HasNoBar, SameTicket, fingerprint_iff}
use stellar_true_stub.Backend.Fraud.Tiers.{Assessment, assess_listing_risk-Assessment}

abbrev same_text : Text → Text
same_text s = s

abbrev seat_of : Option Text → Text → TicketListingRiskInput
seat_of id seat = record {
  id = id;
  event_name = codes " rock  night";
  event_date = none;
  section = some (codes "a");
  row = some (codes "1");
  seat = some seat;
  seller_id = codes "ann";
  status = none;
}

abbrev candidate : TicketListingRiskInput
candidate = seat_of (some (codes "n")) (codes "7")

abbrev existing : List TicketListingRiskInput
existing = seat_of (some (codes "o")) (codes "(7)") ∷ []

fingerprint_test : ticket_listing_fingerprint same_text candidate ≡ codes "rock night||a|1|7|ann"
unfolding ticket_listing_fingerprint join normalize_seat normalize is_seat_character collapse
    trim_start trim_end is_space
fingerprint_test = refl

duplicate_test : (assess_listing_risk same_text candidate existing).duplicate ≡ true
unfolding assess_listing_risk actives_of is_active_listing active_statuses is_exact exact_matches
    match_of section_matches soft_matches is_same_sale is_same_section ticket_listing_fingerprint
    join normalize_seat normalize is_seat_character collapse trim_start trim_end is_space
duplicate_test = refl

-- Neither listing has an id: the existing one counts as the candidate itself.
unidentified_test :
    (assess_listing_risk same_text
      (seat_of none (codes "7"))
      (seat_of none (codes "7") ∷ [])).duplicate
    ≡ false
unfolding assess_listing_risk actives_of is_active_listing active_statuses is_exact exact_matches
    match_of section_matches soft_matches is_same_sale is_same_section ticket_listing_fingerprint
    join normalize_seat normalize is_seat_character collapse trim_start trim_end is_space
unidentified_test = refl

assess_listing_risk-Assessment_example :
    Assessment same_text candidate existing (assess_listing_risk same_text candidate existing)
assess_listing_risk-Assessment_example = assess_listing_risk-Assessment same_text candidate existing

candidate_plain :
    HasNoBar (normalize same_text (some candidate.event_name))
    × HasNoBar (normalize same_text candidate.event_date)
unfolding normalize collapse trim_start trim_end is_space
candidate_plain = ground arith

fingerprint_iff_example :
    (ticket_listing_fingerprint same_text candidate
      ≡ ticket_listing_fingerprint same_text (seat_of none (codes "7")))
    ↔ SameTicket same_text candidate (seat_of none (codes "7"))
fingerprint_iff_example =
    fingerprint_iff same_text candidate (seat_of none (codes "7")) candidate_plain candidate_plain
