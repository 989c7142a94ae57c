-- ===== src/Backend/Fraud/Alike.antt =====
-- What the tests of listing-fraud.service.ts on two listings say.
use stellar_true_stub.Common.{
  ◌≡◌, ◌≢◌, ◌↔◌, Option, any, text_eq, text_eq_iff, Bool-cases, arith, if◌then◌else◌, refl, ap,
  true, false, none, some, List, [], ◌∷◌, Mem, Mem-cons, here, there, inl, inr, codes,
}
use stellar_true_stub.Backend.Fraud.{
  Text, TicketListingRiskInput, same_id, is_empty, normalize, normalize_seat, active_statuses,
  ticket_listing_fingerprint, is_active_listing, is_exact, is_same_sale, is_same_section,
}

any-Mem : (x : Text) (l : List Text) → (any (text_eq x) l ≡ true) ↔ Mem x l
any-Mem x l = (to l, of l)
  where
    to : (k : List Text) → any (text_eq x) k ≡ true → Mem x k
    to [] h = cc
    to (y ∷ k) h = elim (Bool-cases (text_eq x y)) [
      | inl same ↦ here ((text_eq_iff x y).0 same)
      | inr other ↦ there (to k (rw other at h))
    ]

    of : (k : List Text) → Mem x k → any (text_eq x) k ≡ true
    of [] m = elim m [ ]
    of (y ∷ k) m = elim (Mem-cons x y k m) [
      | inl same ↦ let e = (text_eq_iff x y).1 same in rw e refl
      | inr later ↦ let e = of k later in ground (arith, e)
    ]

pub same_id_iff : (a b : Option Text) → (same_id a b ≡ true) ↔ (a ≡ b)
same_id_iff none none = (λ h. refl, λ h. refl)
same_id_iff none (some t) = (λ h. cc, λ h. cc)
same_id_iff (some s) none = (λ h. cc, λ h. cc)
same_id_iff (some s) (some t) =
    (λ h. ap some ((text_eq_iff s t).0 h), λ h. let same : s ≡ t = cc in (text_eq_iff s t).1 same)

-- The status of a listing, where it has one, is one of the three of an active listing.
abbrev pub statuses : List Text
statuses = [] ∷ codes "active" ∷ codes "pending" ∷ codes "reserved" ∷ []

module _ (lower : Text → Text) (candidate : TicketListingRiskInput) where
  -- What the listing has in common with the candidate, in each tier.
  abbrev pub SameTicket : TicketListingRiskInput → Type 0
  SameTicket l = ticket_listing_fingerprint lower l ≡ ticket_listing_fingerprint lower candidate

  abbrev pub SameSale : TicketListingRiskInput → Type 0
  SameSale l =
      (normalize lower (some l.event_name) ≡ normalize lower (some candidate.event_name))
      × (normalize lower (some l.seller_id) ≡ normalize lower (some candidate.seller_id))

  abbrev pub SameSection : TicketListingRiskInput → Type 0
  SameSection l =
      SameSale l
      × (normalize_seat lower l.section ≢ [])
      × (normalize_seat lower l.section ≡ normalize_seat lower candidate.section)

  pub is_exact_iff :
      (l : TicketListingRiskInput) → (is_exact lower candidate l ≡ true) ↔ SameTicket l
  unfolding is_exact
  is_exact_iff l = text_eq_iff _ _

  pub is_same_sale_iff :
      (l : TicketListingRiskInput) → (is_same_sale lower candidate l ≡ true) ↔ SameSale l
  unfolding is_same_sale
  is_same_sale_iff l =
      let event =
        text_eq_iff (normalize lower (some l.event_name))
          (normalize lower (some candidate.event_name)) in
      let seller =
        text_eq_iff (normalize lower (some l.seller_id))
          (normalize lower (some candidate.seller_id)) in
      (
        λ h. (event.0 (ground (arith, h)), seller.0 (ground (arith, h))),
        λ (e, s). let p = event.1 e in let q = seller.1 s in rw (p, q) refl,
      )

  is_empty_iff : (t : Text) → (is_empty t ≡ false) ↔ (t ≢ [])
  is_empty_iff [] = (λ h. cc, λ h. absurd (h refl))
  is_empty_iff (c ∷ s) = (λ h e. cc, λ h. refl)

  pub is_same_section_iff :
      (l : TicketListingRiskInput) → (is_same_section lower candidate l ≡ true) ↔ SameSection l
  unfolding is_same_section
  is_same_section_iff l =
      let section =
        text_eq_iff (normalize_seat lower l.section) (normalize_seat lower candidate.section) in
      let sale = is_same_sale_iff l in
      let full = is_empty_iff (normalize_seat lower l.section) in
      (
        λ h.
            (sale.0 (ground (arith, h)), full.0 (ground (arith, h)), section.0 (ground (arith, h))),
        λ (s, f, e).
            let p = sale.1 s in let q = full.1 f in let r = section.1 e in rw (p, q, r) refl,
      )

  pub active_iff :
      (l : TicketListingRiskInput)
      → (is_active_listing lower l ≡ true) ↔ Mem (normalize lower l.status) statuses
  unfolding is_active_listing active_statuses
  active_iff l = to (normalize lower l.status)
    where
      to :
          (t : Text)
          → (any (text_eq (if is_empty t then codes "active" else t)) active_statuses ≡ true)
            ↔ Mem t statuses
      to [] = (λ h. here refl, λ h. refl)
      to (c ∷ s) = (
        λ h. there ((any-Mem (c ∷ s) active_statuses).0 h),
        λ m. elim (Mem-cons (c ∷ s) [] active_statuses m) [
          | inl none_there ↦ cc
          | inr later ↦ (any-Mem (c ∷ s) active_statuses).1 later
        ],
      )
