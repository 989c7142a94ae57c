-- ===== src/Backend/Refund/Validation.antt =====
-- What refund.service.ts demands of a payload before it executes a refund on chain.
use stellar_true_stub.Common.{
  ℕ, ◌≡◌, ◌↔◌, refl, String, Bool, true, false, ◌&&◌, Option, none, some, arith, ok, ◌⊎◌, ◌≤◌, List,
  [], ◌∷◌, All, all, length, codes, ap, inl, inr, eq_iff, Bool-cases, get_or_else,
}
use stellar_true_stub.Map
use stellar_true_stub.Map.{Map}
use stellar_true_stub.Backend.AppError.{AppError, is_blank}
use stellar_true_stub.Backend.Refund.{
  is_missing, is_address, is_amount, is_multi, ClaimedRefund, RefundPayload, EscrowType,
  single_release, multi_release, pending, is_base32, is_stellar_codes, check_payload,
  assert_executable, begin_claim, begin_checked, insert_if_absent, stellar_address, claim_record,
}

-- `A` to `Z`, or `2` to `7`.
abbrev pub IsBase32 : ℕ → Type 0
IsBase32 c = ((b'A' ≤ c) × (c ≤ b'Z')) ⊎ ((b'2' ≤ c) × (c ≤ b'7'))

-- `G` or `C`, and 55 characters of base 32.
abbrev pub IsStellarAddress : String → Type 0
IsStellarAddress t =
    (first : ℕ) × (rest : List ℕ) × (codes t ≡ first ∷ rest)
    × ((first ≡ b'G') ⊎ (first ≡ b'C'))
    × (length rest ≡ 55)
    × All IsBase32 rest

is_base32_iff : (c : ℕ) → (is_base32 c ≡ true) ↔ IsBase32 c
is_base32_iff c = (λ h. ground (arith, h), λ h. ground (arith, h))

all-All : (l : List ℕ) → (all is_base32 l ≡ true) ↔ All IsBase32 l
all-All [] = (λ h. tt, λ h. refl)
all-All (c ∷ l) = (
  λ h. ((is_base32_iff c).0 (ground (arith, h)), (all-All l).0 (ground (arith, h))),
  λ (first, later).
      let f = (is_base32_iff c).1 first in let r = (all-All l).1 later in rw (f, r) refl,
)

stellar_codes_iff :
    (l : List ℕ)
    → (is_stellar_codes l ≡ true) ↔ (
        (first : ℕ) × (rest : List ℕ) × (l ≡ first ∷ rest)
        × ((first ≡ b'G') ⊎ (first ≡ b'C'))
        × (length rest ≡ 55)
        × All IsBase32 rest)
unfolding is_stellar_codes
stellar_codes_iff [] = (λ h. cc, λ (first, rest, e, kind, size, fits). cc)
stellar_codes_iff (c ∷ s) = (
  λ h. (c, s, refl, ground (arith, h), ground (arith, h), (all-All s).0 (ground (arith, h))),
  λ (first, rest, e, kind, size, fits).
      let same : c ≡ first = cc in
      let tail : s ≡ rest = cc in
      let good = (all-All rest).1 fits in rw (same, tail) (ground (arith, kind, size, good)),
)

stellar_address_iff : (t : String) → (stellar_address t ≡ true) ↔ IsStellarAddress t
unfolding stellar_address
stellar_address_iff t = stellar_codes_iff (codes t)

-- A text that is there, and not empty.
present :
    (o : Option String) → is_missing o ≡ false → (t : String) × (o ≡ some t) × (is_blank t ≡ false)
present none h = cc
present (some t) h = (t, refl, h)

address :
    (o : Option String) → is_address o ≡ true → (t : String) × (o ≡ some t) × IsStellarAddress t
address none h = cc
address (some t) h = (t, refl, (stellar_address_iff t).0 (ground (arith, h)))

address_back : (t : String) → IsStellarAddress t → is_address (some t) ≡ true
address_back t (first, rest, e, kind, size, fits) = elim (Bool-cases (is_blank t)) [
  | inl blank ↦
      let empty : codes t ≡ [] = ap codes ((eq_iff t "").0 blank) in
      absurd (ground (arith, e, empty))
  | inr full ↦
      let valid = (stellar_address_iff t).1 (first, rest, e, kind, size, fits) in
      rw (full, valid) refl
]

-- A milestone is there where the escrow has milestones.
named :
    (e : Option EscrowType) (o : Option String)
    → (e ≡ some multi_release → (t : String) × (o ≡ some t) × (is_blank t ≡ false))
    → is_multi e && is_missing o ≡ false
named none o h = refl
named (some single_release) o h = refl
named (some multi_release) o h = let (t, there, filled) = h refl in rw (there, filled)

amount :
    {A : Type 0} (f : A → Bool) (o : Option A)
    → is_amount f o ≡ true
    → (a : A) × (o ≡ some a) × (f a ≡ true)
amount f none h = cc
amount f (some a) h = (a, refl, h)

module _ {Amount : Type 0} where
  -- The record of the claim, with the terms of the payload.
  abbrev pub pending_claim : RefundPayload Amount → ℕ → ClaimedRefund Amount
  pending_claim p now = record {
    refund_id = p.refund_id;
    escrow_id = p.escrow_id;
    claimed_at = now;
    amount = p.amount;
    currency = p.currency;
    claimed_by = p.claimed_by;
    status = some pending;
    refund_to = p.refund_to;
    escrow_type = some (get_or_else p.escrow_type single_release);
    milestone_index = p.milestone_index;
    tx_hash = none;
    failure_reason = none;
  }

module _ {Amount : Type 0} (is_positive : Amount → Bool) where
  -- A refund that can go on chain: to a Stellar address, of a positive amount, and of a named
  -- milestone where the escrow has milestones.
  abbrev pub IsExecutable : RefundPayload Amount → Type 0
  IsExecutable p =
      (is_blank p.refund_id ≡ false)
      × (is_blank p.escrow_id ≡ false)
      × ((address : String) × (p.refund_to ≡ some address) × IsStellarAddress address)
      × ((amount : Amount) × (p.amount ≡ some amount) × (is_positive amount ≡ true))
      × (p.escrow_type ≡ some multi_release
          → (milestone : String) × (p.milestone_index ≡ some milestone)
            × (is_blank milestone ≡ false))

  -- The checks of a service with an executor let exactly the executable payloads pass.
  check_payload_iff :
      (p : RefundPayload Amount) → (check_payload is_positive true p ≡ none) ↔ IsExecutable p
  unfolding check_payload assert_executable
  check_payload_iff p = (
    λ h. (
      ground arith,
      ground arith,
      address _ (ground arith),
      amount is_positive _ (ground arith),
      λ multi. present _ (ground (arith, multi)),
    ),
    λ (id, escrow, (t, to, stellar), (a, some_amount, positive), multi).
        let good_address : is_address p.refund_to ≡ true = rw to (address_back t stellar) in
        let good_amount : is_amount is_positive p.amount ≡ true = rw (some_amount, positive) in
        ground (arith, named p.escrow_type p.milestone_index multi),
  )

  checked_iff :
      (p : RefundPayload Amount) (now : ℕ) (e : Option AppError) (s : Map (ClaimedRefund Amount))
      (r : ClaimedRefund Amount)
      → ((begin_checked true p now e s).1 ≡ ok r)
        ↔ ((e ≡ none) × (Map.has p.refund_id s ≡ false) × (r ≡ claim_record true p now))
  unfolding begin_checked insert_if_absent
  checked_iff p now none s r =
      (λ h. (refl, ground arith, ground arith), λ (_, fresh, same). ground (arith, fresh, same))
  checked_iff p now (some e) s r = (λ h. cc, λ h. cc)

  -- A service with an executor goes on with exactly the claims of an executable payload whose
  -- refund id has no record, and the record that it returns is pending, claimed now, with the payload's
  -- terms, of a single release where it names no type.
  pub begins_iff :
      (p : RefundPayload Amount) (now : ℕ) (s : Map (ClaimedRefund Amount))
      → (r : ClaimedRefund Amount)
      → ((begin_claim is_positive true p now s).1 ≡ ok r)
        ↔ (IsExecutable p × (Map.has p.refund_id s ≡ false) × (r ≡ pending_claim p now))
  unfolding begin_claim claim_record
  begins_iff p now s r = (
    λ h.
        let (passed, fresh, same) = (checked_iff p now _ s r).0 h in
        ((check_payload_iff p).0 passed, fresh, same),
    λ (executable, fresh, same).
        (checked_iff p now _ s r).1 ((check_payload_iff p).1 executable, fresh, same),
  )
