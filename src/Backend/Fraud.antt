-- ===== src/Backend/Fraud.antt =====
-- apps/backend/src/services/listing-fraud.service.ts. A text is the list of its code points, and
-- `lower` is `toLowerCase` on them. A confidence is in hundredths.
pub mod Fingerprint
pub mod Alike
pub mod Tiers
mod Examples
use stellar_true_stub.Common.{
  ℕ, zero, suc, Bool, true, false, not, ◌&&◌, ◌||◌, Option, none, some, List, [], ◌∷◌, ◌++◌, map,
  if◌then◌else◌, ◌==◌, get_or_else, text_eq, codes, in_range, any, filter, collapse, trim_start,
  trim_end,
}

abbrev pub Text : Type 0
Text = List ℕ

pub record TicketListingRiskInput : Type 0 where
  pub id : Option Text
  pub event_name : Text
  pub event_date : Option Text
  pub section : Option Text
  pub row : Option Text
  pub seat : Option Text
  pub seller_id : Text
  pub status : Option Text

pub record ListingRiskMatch : Type 0 where
  pub id : Option Text
  pub fingerprint : Text
  pub reason : Text
  pub confidence : ℕ

pub data RiskLevel : Type 0 where
  low medium high : RiskLevel

pub record ListingRiskResult : Type 0 where
  pub fingerprint : Text
  pub duplicate : Bool
  pub risk_level : RiskLevel
  pub warning : Option Text
  pub matches : List ListingRiskMatch

pub active_statuses : List Text
active_statuses = codes "active" ∷ codes "pending" ∷ codes "reserved" ∷ []

pub is_seat_character : ℕ → Bool
is_seat_character c = in_range b'a' b'z' c || in_range b'0' b'9' c || c == b'-'

-- `!==` on the ids, where both may be undefined.
abbrev pub same_id : Option Text → Option Text → Bool
same_id none none = true
same_id (some s) (some t) = text_eq s t
same_id _ _ = false

abbrev pub is_empty : Text → Bool
is_empty [] = true
is_empty (c ∷ s) = false

-- `parts.join("|")`.
pub join : List Text → Text
join [] = []
join (s ∷ []) = s
join (s ∷ t ∷ l) = s ++ (b'|' ∷ join (t ∷ l))

module _ (lower : Text → Text) where
  pub normalize : Option Text → Text
  normalize value = collapse false (lower (trim_end (trim_start (get_or_else value []))))

  pub normalize_seat : Option Text → Text
  unfolding normalize
  normalize_seat value = filter is_seat_character (normalize value)

  pub ticket_listing_fingerprint : TicketListingRiskInput → Text
  unfolding join
  ticket_listing_fingerprint l = join (
      normalize (some l.event_name)
      ∷ normalize l.event_date
      ∷ normalize_seat l.section
      ∷ normalize_seat l.row
      ∷ normalize_seat l.seat
      ∷ normalize (some l.seller_id)
      ∷ [])

  pub is_active_listing : TicketListingRiskInput → Bool
  unfolding active_statuses
  is_active_listing l =
      let status = normalize l.status in
      any (text_eq (if is_empty status then codes "active" else status)) active_statuses

  -- `actives`.
  pub actives_of :
      TicketListingRiskInput → List TicketListingRiskInput → List TicketListingRiskInput
  actives_of candidate existing =
      filter is_active_listing (filter (λ l. not (same_id l.id candidate.id)) existing)

  pub is_exact : TicketListingRiskInput → TicketListingRiskInput → Bool
  is_exact candidate l =
      text_eq (ticket_listing_fingerprint l) (ticket_listing_fingerprint candidate)

  -- `sameEvent && sameSeller`.
  pub is_same_sale : TicketListingRiskInput → TicketListingRiskInput → Bool
  is_same_sale candidate l =
      text_eq (normalize (some l.event_name)) (normalize (some candidate.event_name))
      && text_eq (normalize (some l.seller_id)) (normalize (some candidate.seller_id))

  pub is_same_section : TicketListingRiskInput → TicketListingRiskInput → Bool
  is_same_section candidate l =
      is_same_sale candidate l
      && (not (is_empty (normalize_seat l.section))
          && text_eq (normalize_seat l.section) (normalize_seat candidate.section))

  pub match_of : Text → ℕ → TicketListingRiskInput → ListingRiskMatch
  match_of reason confidence l = record {
    id = l.id;
    fingerprint = ticket_listing_fingerprint l;
    reason = reason;
    confidence = confidence;
  }

  -- The three lists of matches, and what is returned for them.
  pub exact_matches : TicketListingRiskInput → List TicketListingRiskInput → List ListingRiskMatch
  exact_matches candidate actives =
      map (match_of (codes "same seller, event, section, row, and seat") 95)
        (filter (is_exact candidate) actives)

  pub section_matches : TicketListingRiskInput → List TicketListingRiskInput → List ListingRiskMatch
  section_matches candidate actives =
      map (match_of (codes "same seller, event, and section — different row or seat") 60)
        (filter (is_same_section candidate) actives)

  pub soft_matches : TicketListingRiskInput → List TicketListingRiskInput → List ListingRiskMatch
  soft_matches candidate actives =
      map (match_of (codes "same seller and event — no section or seat overlap") 20)
        (filter (is_same_sale candidate) actives)

  choose :
      Text
      → List ListingRiskMatch
      → List ListingRiskMatch
      → List ListingRiskMatch
      → ListingRiskResult
  choose fingerprint (x ∷ exact) section soft = record {
    fingerprint = fingerprint;
    duplicate = true;
    risk_level = high;
    warning = some (
        codes
          "This ticket appears to match an active listing from the same seller. Review before publishing.");
    matches = x ∷ exact;
  }
  choose fingerprint [] (x ∷ section) soft = record {
    fingerprint = fingerprint;
    duplicate = false;
    risk_level = medium;
    warning = some (
        codes
          "This ticket is from the same seller and section as an existing listing. Verify it is a different seat.");
    matches = x ∷ section;
  }
  choose fingerprint [] [] (x ∷ soft) = record {
    fingerprint = fingerprint;
    duplicate = false;
    risk_level = low;
    warning = some (
        codes
          "This seller has other active listings for the same event. Likely legitimate but worth a quick review.");
    matches = x ∷ soft;
  }
  choose fingerprint [] [] [] = record {
    fingerprint = fingerprint;
    duplicate = false;
    risk_level = low;
    warning = none;
    matches = [];
  }

  pub assess_listing_risk : TicketListingRiskInput → List TicketListingRiskInput → ListingRiskResult
  unfolding choose
  assess_listing_risk candidate existing =
      let actives = actives_of candidate existing in
      choose (ticket_listing_fingerprint candidate) (exact_matches candidate actives)
        (section_matches candidate actives) (soft_matches candidate actives)
