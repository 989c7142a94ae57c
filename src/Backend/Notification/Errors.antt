-- ===== src/Backend/Notification/Errors.antt =====
-- Which errors notification.service.ts counts as permanent, and which notifications as financial.
use stellar_true_stub.Common.{
  ℕ, ◌≤◌, ◌<◌, ◌≡◌, ◌⊎◌, ◌↔◌, any, or_else, str_eq, refl, eq_iff, inl, inr, String, true, false,
  Option, none, some, arith,
}
use stellar_true_stub.Backend.Notification.{
  financial_status_types, Value, number, other, as_number, extract_status_code, transient_with,
  by_message, Thrown, classify_error,
}

-- The status of an error: what is in the first of the three places that is not empty, if it is a number.
abbrev pub HasStatus : Thrown → ℕ → Type 0
HasStatus e n =
    (e.status ≡ some (number n))
    ⊎ (((e.status ≡ none) × (e.status_code ≡ some (number n)))
        ⊎ ((e.status ≡ none) × (e.status_code ≡ none) × (e.response_status ≡ some (number n))))

-- The provider refused the notification, with a status from 400 to 499.
abbrev pub IsPermanent : Thrown → Type 0
IsPermanent e = (n : ℕ) × HasStatus e n × (400 ≤ n) × (n < 500)

extract_iff : (e : Thrown) (n : ℕ) → (extract_status_code e ≡ some n) ↔ HasStatus e n
unfolding extract_status_code
extract_iff e n = (of e.status e.status_code e.response_status refl refl refl, back)
  where
    of :
        (a b c : Option Value)
        → e.status ≡ a
        → e.status_code ≡ b
        → e.response_status ≡ c
        → as_number (or_else a (or_else b c)) ≡ some n
        → HasStatus e n
    of (some (number m)) b c p q r h = inl (let k : m ≡ n = cc in rw (p, k) refl)
    of (some other) b c p q r h = cc
    of none (some (number m)) c p q r h = inr (inl (p, let k : m ≡ n = cc in rw (q, k) refl))
    of none (some other) c p q r h = cc
    of none none (some (number m)) p q r h = inr (inr (p, q, let k : m ≡ n = cc in rw (r, k) refl))
    of none none (some other) p q r h = cc
    of none none none p q r h = cc

    back :
        HasStatus e n
        → as_number (or_else e.status (or_else e.status_code e.response_status)) ≡ some n
    back (inl p) = rw p refl
    back (inr (inl (p, q))) = rw (p, q) refl
    back (inr (inr (p, q, r))) = rw (p, q, r) refl

transient_iff :
    (o : Option ℕ) (message : String)
    → (transient_with o message ≡ false) ↔ ((n : ℕ) × (o ≡ some n) × (400 ≤ n) × (n < 500))
unfolding transient_with by_message
transient_iff none message = (λ h. ground (arith, h), λ (n, e, low, high). cc)
transient_iff (some m) message = (
  λ h. (m, refl, ground (arith, h), ground (arith, h)),
  λ (n, e, low, high). let k : m ≡ n = cc in ground (arith, k, low, high),
)

pub classify_error_iff :
    (lower : String → String) (e : Thrown) → (classify_error lower e ≡ false) ↔ IsPermanent e
unfolding classify_error
classify_error_iff lower e = (
  λ h.
      let (n, s, low, high) = (transient_iff (extract_status_code e) (lower e.message)).0 h in
      (n, (extract_iff e n).0 s, low, high),
  λ (n, s, low, high).
      (transient_iff (extract_status_code e) (lower e.message)).1
        (n, (extract_iff e n).1 s, low, high),
)

-- The types of notifications that must not be lost.
abbrev pub IsFinancial : String → Type 0
IsFinancial kind =
    (kind ≡ "escrow_funded") ⊎ ((kind ≡ "escrow_released") ⊎ (kind ≡ "escrow_disputed"))

pub listed_iff :
    (kind : String) → (any (str_eq kind) financial_status_types ≡ true) ↔ IsFinancial kind
listed_iff kind =
    let funded = eq_iff kind "escrow_funded" in
    let released = eq_iff kind "escrow_released" in
    let disputed = eq_iff kind "escrow_disputed" in
    (
      λ h. ground (arith, h, funded, released, disputed),
      λ h. ground (arith, h, funded, released, disputed),
    )
