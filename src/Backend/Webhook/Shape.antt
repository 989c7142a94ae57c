-- ===== src/Backend/Webhook/Shape.antt =====
-- Whether a delivery of webhooks.ts comes as far as the guard against replays, and with what.
use stellar_true_stub.Common.{
  ℕ, ◌≡◌, ◌⊎◌, refl, inl, inr, String, Option, none, some, Bool-cases, Result, err,
}
use stellar_true_stub.Map.{Map}
use stellar_true_stub.Backend.AppError.{is_blank}
use stellar_true_stub.Backend.Webhook.{
  Request, Stored, Pending, Reply, no_secret, no_signature, invalid_signature, no_body,
  missing_fields, unknown_status, verify_signature, dedup, check_status, check_fields, check_body,
  check_signature, check_secret, begin, lookup_status, filled, get_signature_header,
}

module _ (hmac : String → String → String) (lower : String → String) (r : Request) where
  -- The request alone decides: not the time, and not the processed events.
  abbrev pub Fixed : (ℕ → Map ℕ → Map ℕ × Result Reply Pending) → Type 0
  Fixed f =
      ((e : Reply) × ((now : ℕ) (m : Map ℕ) → f now m ≡ (m, err e)))
      ⊎ ((body : String) × (contract : String) × (stored : Stored) × ((now : ℕ) (m : Map ℕ)
            → f now m ≡ dedup hmac lower r body contract stored now m))

  status-Fixed :
      (body contract status : String) (o : Option Stored)
      → Fixed (check_status hmac lower r body contract status o)
  unfolding check_status
  status-Fixed body contract status none = inl (unknown_status status, λ now m. refl)
  status-Fixed body contract status (some stored) = inr (body, contract, stored, λ now m. refl)

  fields-Fixed :
      (body : String) (contract status : Option String)
      → Fixed (check_fields hmac lower r body contract status)
  unfolding check_fields
  fields-Fixed body (some contract) (some status) =
      status-Fixed body contract status (lookup_status lower status)
  fields-Fixed body none status = inl (missing_fields, λ now m. refl)
  fields-Fixed body (some contract) none = inl (missing_fields, λ now m. refl)

  body-Fixed :
      (key sig : String) (body : Option String) → Fixed (check_body hmac lower r key sig body)
  unfolding check_body
  body-Fixed key sig none = inl (no_body, λ now m. refl)
  body-Fixed key sig (some body) = elim (Bool-cases (verify_signature hmac body sig key)) [
    | inl good ↦ rw good (fields-Fixed body (filled r.contract_id) (filled r.status))
    | inr bad ↦ inl (invalid_signature, λ now m. rw bad refl)
  ]

  signature-Fixed :
      (key : String) (sig : Option String) → Fixed (check_signature hmac lower r key sig)
  unfolding check_signature
  signature-Fixed key none = inl (no_signature, λ now m. refl)
  signature-Fixed key (some sig) = elim (Bool-cases (is_blank sig)) [
    | inl blank ↦ inl (no_signature, λ now m. rw blank refl)
    | inr there ↦ rw there (body-Fixed key sig r.raw_body)
  ]

  secret-Fixed : (secret : Option String) → Fixed (check_secret hmac lower r secret)
  unfolding check_secret
  secret-Fixed none = inl (no_secret, λ now m. refl)
  secret-Fixed (some key) = elim (Bool-cases (is_blank key)) [
    | inl blank ↦ inl (no_secret, λ now m. rw blank refl)
    | inr there ↦ rw there (signature-Fixed key (get_signature_header r))
  ]

  pub begin-Fixed : (secret : Option String) → Fixed (begin hmac lower secret r)
  unfolding begin
  begin-Fixed secret = secret-Fixed secret
