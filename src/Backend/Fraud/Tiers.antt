-- ===== src/Backend/Fraud/Tiers.antt =====
-- Which tier of listing-fraud.service.ts a candidate falls into, and with which matches.
use stellar_true_stub.Common.{
  ℕ, ◌≡◌, ◌≢◌, ◌↔◌, Bool-cases, refl, sym, ap, Bool, true, false, not, none, some, List, [], ◌∷◌,
  map, Mem, Mem-cons, here, there, filter, filter-Mem, inl, inr, codes, subst,
}
use stellar_true_stub.Backend.Fraud.{
  Text, TicketListingRiskInput, ListingRiskMatch, ListingRiskResult, low, medium, high, same_id,
  normalize, ticket_listing_fingerprint, is_active_listing, actives_of, match_of, exact_matches,
  section_matches, soft_matches, choose, assess_listing_risk,
}
use stellar_true_stub.Backend.Fraud.Alike.{
  SameTicket, SameSection, SameSale, is_exact_iff, is_same_section_iff, is_same_sale_iff,
  active_iff, same_id_iff, statuses,
}

module _ {A B : Type 0} (f : A → B) where
  map-Mem-back : (b : B) (l : List A) → Mem b (map f l) → (a : A) × Mem a l × (b ≡ f a)
  map-Mem-back b [] h = elim h [ ]
  map-Mem-back b (a ∷ l) h = elim (Mem-cons b (f a) (map f l) h) [
    | inl same ↦ (a, here refl, same)
    | inr later ↦ let (c, m, e) = map-Mem-back b l later in (c, there m, e)
  ]

  map-Mem-there : (a : A) (l : List A) → Mem a l → Mem (f a) (map f l)
  map-Mem-there a [] h = elim h [ ]
  map-Mem-there a (c ∷ l) h = elim (Mem-cons a c l h) [
    | inl same ↦ here (ap f same)
    | inr later ↦ there (map-Mem-there a l later)
  ]

module _ (lower : Text → Text) (candidate : TicketListingRiskInput)
    (existing : List TicketListingRiskInput) where
  -- An existing listing that the candidate is compared with: another id, and active.
  abbrev pub Compared : TicketListingRiskInput → Type 0
  Compared l = Mem l existing × (l.id ≢ candidate.id) × Mem (normalize lower l.status) statuses

  abbrev pub Found : (TicketListingRiskInput → Type 0) → Type 0
  Found P = (l : TicketListingRiskInput) × Compared l × P l

  -- The matches are exactly those of the compared listings that have this in common.
  abbrev pub AreMatches :
      (TicketListingRiskInput → Type 0) → Text → ℕ → List ListingRiskMatch → Type 0
  AreMatches P reason confidence matches =
      (m : ListingRiskMatch)
      → Mem m matches ↔ (
          (f : Found P) × (m ≡ record {
            id = f.0.id;
            fingerprint = ticket_listing_fingerprint lower f.0;
            reason = reason;
            confidence = confidence;
          }))

  actives_of-Mem :
      (l : TicketListingRiskInput) → Mem l (actives_of lower candidate existing) ↔ Compared l
  unfolding actives_of
  actives_of-Mem l =
      let others =
        filter (λ (k : TicketListingRiskInput). not (same_id k.id candidate.id)) existing in
      (
        λ h.
            let (m, active) = (filter-Mem (is_active_listing lower) l others).0 h in
            let (m', other) =
              (filter-Mem (λ (k : TicketListingRiskInput). not (same_id k.id candidate.id)) l
                  existing).0
                m in
            let differs = not-true (same_id l.id candidate.id) other in
            (
              m',
              λ e. let same = (same_id_iff l.id candidate.id).1 e in cc,
              (active_iff lower candidate l).0 active,
            ),
        λ (m, other, active).
            let differs : same_id l.id candidate.id ≡ false =
              elim (Bool-cases (same_id l.id candidate.id)) [
                | inl same ↦ absurd (other ((same_id_iff l.id candidate.id).0 same))
                | inr differs ↦ differs
              ] in
            (filter-Mem (is_active_listing lower) l others).1 (
              (filter-Mem (λ (k : TicketListingRiskInput). not (same_id k.id candidate.id)) l
                    existing).1
                  (m, ap not differs),
              (active_iff lower candidate l).1 active,
            ),
      )
    where
      not-true : (b : Bool) → not b ≡ true → b ≡ false
      not-true true h = cc
      not-true false h = refl

  matches-AreMatches :
      (p : TicketListingRiskInput → Bool) (P : TicketListingRiskInput → Type 0)
      → ((l : TicketListingRiskInput) → (p l ≡ true) ↔ P l)
      → (reason : Text) (confidence : ℕ)
      → AreMatches P reason confidence
          (map (match_of lower reason confidence) (filter p (actives_of lower candidate existing)))
  unfolding match_of
  matches-AreMatches p P iff reason confidence m = (
    λ h.
        let (l, k, e) = map-Mem-back (match_of lower reason confidence) m _ h in
        let (a, passes) = (filter-Mem p l (actives_of lower candidate existing)).0 k in
        ((l, (actives_of-Mem l).0 a, (iff l).0 passes), e),
    λ ((l, c, passes), e).
        subst
          (λ x. Mem x (
            map (match_of lower reason confidence)
              (filter p (actives_of lower candidate existing))))
          (sym e)
          (map-Mem-there (match_of lower reason confidence) l _ (
            (filter-Mem p l (actives_of lower candidate existing)).1
              ((actives_of-Mem l).1 c, (iff l).1 passes))),
  )

  head-Found :
      (P : TicketListingRiskInput → Type 0) (reason : Text) (confidence : ℕ) (x : ListingRiskMatch)
      (l : List ListingRiskMatch)
      → AreMatches P reason confidence (x ∷ l)
      → Found P
  head-Found P reason confidence x l h = ((h x).0 (here refl)).0

  not-Found :
      (P : TicketListingRiskInput → Type 0) (reason : Text) (confidence : ℕ)
      → AreMatches P reason confidence []
      → Found P
      → ⊥
  not-Found P reason confidence h f = elim ((h _).1 (f, refl)) [ ]

  abbrev pub ExactMatches : List ListingRiskMatch → Type 0
  ExactMatches =
      AreMatches (SameTicket lower candidate) (codes "same seller, event, section, row, and seat")
        95

  abbrev pub SectionMatches : List ListingRiskMatch → Type 0
  SectionMatches =
      AreMatches (SameSection lower candidate)
        (codes "same seller, event, and section — different row or seat") 60

  abbrev pub SoftMatches : List ListingRiskMatch → Type 0
  SoftMatches =
      AreMatches (SameSale lower candidate)
        (codes "same seller and event — no section or seat overlap") 20

  pub data Assessment : ListingRiskResult → Type 0 where
    exact :
        (warning : Text) (matches : List ListingRiskMatch)
        → Found (SameTicket lower candidate)
        → ExactMatches matches
        → Assessment (record {
          fingerprint = ticket_listing_fingerprint lower candidate;
          duplicate = true;
          risk_level = high;
          warning = some warning;
          matches = matches;
        })
    section :
        (warning : Text) (matches : List ListingRiskMatch)
        → (Found (SameTicket lower candidate) → ⊥)
        → Found (SameSection lower candidate)
        → SectionMatches matches
        → Assessment (record {
          fingerprint = ticket_listing_fingerprint lower candidate;
          duplicate = false;
          risk_level = medium;
          warning = some warning;
          matches = matches;
        })
    soft :
        (warning : Text) (matches : List ListingRiskMatch)
        → (Found (SameTicket lower candidate) → ⊥)
        → (Found (SameSection lower candidate) → ⊥)
        → Found (SameSale lower candidate)
        → SoftMatches matches
        → Assessment (record {
          fingerprint = ticket_listing_fingerprint lower candidate;
          duplicate = false;
          risk_level = low;
          warning = some warning;
          matches = matches;
        })
    clear :
        (Found (SameTicket lower candidate) → ⊥)
        → (Found (SameSection lower candidate) → ⊥)
        → (Found (SameSale lower candidate) → ⊥)
        → Assessment (record {
          fingerprint = ticket_listing_fingerprint lower candidate;
          duplicate = false;
          risk_level = low;
          warning = none;
          matches = [];
        })

  choose-Assessment :
      (e s t : List ListingRiskMatch)
      → ExactMatches e
      → SectionMatches s
      → SoftMatches t
      → Assessment (choose lower (ticket_listing_fingerprint lower candidate) e s t)
  unfolding choose
  choose-Assessment (x ∷ e) s t he hs ht = exact _ (x ∷ e) (head-Found _ _ _ x e he) he
  choose-Assessment [] (x ∷ s) t he hs ht =
      section _ (x ∷ s) (not-Found _ _ _ he) (head-Found _ _ _ x s hs) hs
  choose-Assessment [] [] (x ∷ t) he hs ht =
      soft _ (x ∷ t) (not-Found _ _ _ he) (not-Found _ _ _ hs) (head-Found _ _ _ x t ht) ht
  choose-Assessment [] [] [] he hs ht =
      clear (not-Found _ _ _ he) (not-Found _ _ _ hs) (not-Found _ _ _ ht)

  -- A candidate is compared with the listings of another id that have no status or an active one. It is a
  -- duplicate, of high risk, exactly if one of them has its fingerprint; otherwise of medium risk if one
  -- has its event, its seller and its section, which is not empty; otherwise of low risk, with a warning if one
  -- has its event and seller, and without one and without matches if none has, all as they are
  -- normalized. The matches are those of all the listings of the tier that decided, with their ids,
  -- fingerprints, the tier's reason and its confidence, and no others.
  pub assess_listing_risk-Assessment : Assessment (assess_listing_risk lower candidate existing)
  unfolding assess_listing_risk exact_matches section_matches soft_matches
  assess_listing_risk-Assessment =
      choose-Assessment _ _ _
        (matches-AreMatches _ (SameTicket lower candidate) (is_exact_iff lower candidate) _ _)
        (matches-AreMatches _ (SameSection lower candidate) (is_same_section_iff lower candidate) _
          _)
        (matches-AreMatches _ (SameSale lower candidate) (is_same_sale_iff lower candidate) _ _)
