-- ===== src/Backend/Fraud/Fingerprint.antt =====
-- What two listings with one fingerprint of listing-fraud.service.ts have in common.
use stellar_true_stub.Common.{
  ◌≡◌, ◌↔◌, refl, false, ◌==◌, Option, some, [], ◌∷◌, ◌++◌, All, filter, Bool-cases, inl, inr,
  arith,
}
use stellar_true_stub.Backend.Fraud.{
  Text, TicketListingRiskInput, is_seat_character, join, normalize, normalize_seat,
  ticket_listing_fingerprint,
}

-- No `|` in the text.
abbrev pub HasNoBar : Text → Type 0
HasNoBar s = All (λ c. (c == b'|') ≡ false) s

-- The first bar ends the first part.
bar-inj :
    (s t u v : Text)
    → HasNoBar s
    → HasNoBar u
    → s ++ (b'|' ∷ t) ≡ u ++ (b'|' ∷ v)
    → (s ≡ u) × (t ≡ v)
bar-inj [] t [] v hs hu e = (refl, cc)
bar-inj [] t (d ∷ u) v hs hu e = absurd (ground (arith, e, hu.0))
bar-inj (c ∷ s) t [] v hs hu e = absurd (ground (arith, e, hs.0))
bar-inj (c ∷ s) t (d ∷ u) v (hc, hs) (hd, hu) e =
    let first : c ≡ d = cc in
    let rest : s ++ (b'|' ∷ t) ≡ u ++ (b'|' ∷ v) = cc in
    let (p, q) = bar-inj s t u v hs hu rest in (cc, q)

seat-HasNoBar : (s : Text) → HasNoBar (filter is_seat_character s)
unfolding is_seat_character
seat-HasNoBar [] = tt
seat-HasNoBar (c ∷ s) = elim (Bool-cases (is_seat_character c)) [
  | inl fits ↦ rw fits (ground (arith, fits), seat-HasNoBar s)
  | inr other ↦ rw other (seat-HasNoBar s)
]

module _ (lower : Text → Text) where
  -- One event, date, seller, section, row and seat, as they are normalized.
  abbrev pub SameTicket : TicketListingRiskInput → TicketListingRiskInput → Type 0
  SameTicket a b =
      (normalize lower (some a.event_name) ≡ normalize lower (some b.event_name))
      × (normalize lower a.event_date ≡ normalize lower b.event_date)
      × (normalize_seat lower a.section ≡ normalize_seat lower b.section)
      × (normalize_seat lower a.row ≡ normalize_seat lower b.row)
      × (normalize_seat lower a.seat ≡ normalize_seat lower b.seat)
      × (normalize lower (some a.seller_id) ≡ normalize lower (some b.seller_id))

  abbrev pub IsPlain : TicketListingRiskInput → Type 0
  IsPlain l =
      HasNoBar (normalize lower (some l.event_name)) × HasNoBar (normalize lower l.event_date)

  seat_part : (o : Option Text) → HasNoBar (normalize_seat lower o)
  unfolding normalize_seat
  seat_part o = seat-HasNoBar (normalize lower o)

  same-of :
      (a b : TicketListingRiskInput)
      → IsPlain a
      → IsPlain b
      → ticket_listing_fingerprint lower a ≡ ticket_listing_fingerprint lower b
      → SameTicket a b
  unfolding ticket_listing_fingerprint join
  same-of a b (a1, a2) (b1, b2) e =
      let (p1, r1) = bar-inj _ _ _ _ a1 b1 e in
      let (p2, r2) = bar-inj _ _ _ _ a2 b2 r1 in
      let (p3, r3) = bar-inj _ _ _ _ (seat_part a.section) (seat_part b.section) r2 in
      let (p4, r4) = bar-inj _ _ _ _ (seat_part a.row) (seat_part b.row) r3 in
      let (p5, r5) = bar-inj _ _ _ _ (seat_part a.seat) (seat_part b.seat) r4 in
      (p1, p2, p3, p4, p5, r5)

  of-same :
      (a b : TicketListingRiskInput)
      → SameTicket a b
      → ticket_listing_fingerprint lower a ≡ ticket_listing_fingerprint lower b
  unfolding ticket_listing_fingerprint
  of-same a b (p1, p2, p3, p4, p5, p6) = rw (p1, p2, p3, p4, p5, p6) refl

  -- Two listings without a `|` in their normalized event names and dates have the same fingerprint
  -- exactly if they agree in the normalized event, date, section, row, seat and seller.
  pub fingerprint_iff :
      (a b : TicketListingRiskInput)
      → IsPlain a
      → IsPlain b
      → (ticket_listing_fingerprint lower a ≡ ticket_listing_fingerprint lower b) ↔ SameTicket a b
  fingerprint_iff a b ha hb = (same-of a b ha hb, of-same a b)
