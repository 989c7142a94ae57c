-- ===== src/Frontend/RateLimit/Window.antt =====
-- Within a window, rate-limit.ts lets no client past its limit, and its retry hint is right.
use stellar_true_stub.Common.{
  ℕ, suc, ◌+◌, ◌-◌, ◌*◌, ◌≤◌, ◌<◌, ◌≡◌, String, true, false, ◌&&◌, some, List, [], ◌∷◌, inl, inr,
  if◌then◌else◌, leb, str_eq, eq_iff, length, All, arith, Option-cases, Bool-cases,
}
use stellar_true_stub.Map
use stellar_true_stub.Map.{Map}
use stellar_true_stub.Map.Laws
use stellar_true_stub.Frontend.RateLimit.{
  RateLimitRule, RateLimitResult, Entry, max_tracked_keys, fresh, check_rate_limit,
}
use stellar_true_stub.Frontend.RateLimit.Size

module _ (rule_of : String → RateLimitRule) where
  abbrev checked : String → ℕ → Map Entry → Map Entry × RateLimitResult
  checked key now hits = check_rate_limit key (rule_of key) now hits

  -- How many of the checks of `k` are allowed, in a sequence of checks of any keys.
  unfoldable pub allowed_in : String → List (String × ℕ) → Map Entry → ℕ
  allowed_in k [] hits = 0
  allowed_in k ((key, now) ∷ rest) hits =
      let later = allowed_in k rest (checked key now hits).0 in
      if str_eq key k && (checked key now hits).1.allowed then suc later else later

  -- A check of `k` in its window counts, and passes up to the limit.
  check_live :
      (k : String) (now : ℕ) (hits : Map Entry) (e : Entry)
      → Map.get k hits ≡ some e
      → now < e.reset_at
      → (Map.get k (checked k now hits).0 ≡ some (record e { count = e.count + 1 }))
        × ((checked k now hits).1.allowed ≡ leb (e.count + 1) (rule_of k).limit)
  unfolding check_rate_limit
  check_live k now hits e g lt = (grind (arith, Laws.get-set, eq_iff k k), ground arith)

  -- A check of another key leaves the entry, where the map has room.
  check_other :
      (k key : String) (now : ℕ) (hits : Map Entry)
      → str_eq key k ≡ false
      → Map.size hits < max_tracked_keys
      → Map.get k (checked key now hits).0 ≡ Map.get k hits
  unfolding check_rate_limit
  check_other k key now hits ne room = grind (arith, Laws.get-set)

  size-checked_le :
      (key : String) (now : ℕ) (hits : Map Entry)
      → Map.size hits < max_tracked_keys
      → Map.size (checked key now hits).0 ≤ Map.size hits + 1
  unfolding check_rate_limit
  size-checked_le key now hits room = grind (arith, Laws.size-set, Size.size-set-set)

  -- The number of requests that a client gets through in one window is at most the limit, whatever
  -- other clients do in between: from a state in which its window is open with `count` requests
  -- counted, at most `limit - count` of its further requests before the window's end are allowed,
  -- as long as the map does not fill up.
  pub allowed_bound :
      (k : String) (checks : List (String × ℕ)) (hits : Map Entry) (e : Entry)
      → Map.size hits + length checks ≤ max_tracked_keys
      → Map.get k hits ≡ some e
      → All (λ check. check.1 < e.reset_at) checks
      → allowed_in k checks hits ≤ (rule_of k).limit - e.count
  unfolding allowed_in
  allowed_bound k [] hits e room g before = omega arith
  allowed_bound k ((key, now) ∷ rest) hits e room g (lt, before) =
      elim (Bool-cases (str_eq key k)) [
        | inl same ↦
            let p = (eq_iff key k).0 same in
            let (kept, passed) = check_live key now hits e (rw p g) lt in
            let ih =
              allowed_bound k rest (checked key now hits).0 (record e { count = e.count + 1 })
                (omega (arith, size-checked_le key now hits (omega arith))) (rw (← p) kept)
                before in
            ground (arith, passed, ih, p)
        | inr other ↦ rw other (
            allowed_bound k rest (checked key now hits).0 e
              (omega (arith, size-checked_le key now hits (omega arith)))
              (rw (check_other k key now hits other (omega arith)) g) before)
      ]

module _ (key : String) (rule : RateLimitRule) where
  -- What a check leaves for its key: an entry whose window is over by the time that it hints at.
  checked_entry :
      (now : ℕ) (hits : Map Entry)
      → let (after, result) = check_rate_limit key rule now hits in
        (e : Entry) × (Map.get key after ≡ some e) × (e.reset_at ≤ now + 1000 * result.retry_after)
  unfolding check_rate_limit
  checked_entry now hits = elim (Option-cases (Map.get key hits)) [
    | inl absent ↦ (
      record (fresh rule now) { count = 1 },
      grind (arith, Laws.get-set, eq_iff key key),
      ground arith,
    )
    | inr (e, present) ↦ elim (Bool-cases (leb e.reset_at now)) [
      | inl over ↦ (
        record (fresh rule now) { count = 1 },
        grind (arith, Laws.get-set, eq_iff key key),
        ground arith,
      )
      | inr live ↦ (
        record e { count = e.count + 1 },
        grind (arith, Laws.get-set, eq_iff key key),
        ground arith,
      )
    ]
  ]

  check_expired :
      (later : ℕ) (hits : Map Entry) (e : Entry)
      → Map.get key hits ≡ some e
      → e.reset_at ≤ later
      → 0 < rule.limit
      → (check_rate_limit key rule later hits).1.allowed ≡ true
  unfolding check_rate_limit
  check_expired later hits e g over pos = ground arith

  -- The hint of a check suffices: a client that waits the seconds that a check returned is allowed
  -- at its next check, if its limit is positive and nothing was checked in between.
  pub retry_after_suffices :
      (now later : ℕ) (hits : Map Entry)
      → 0 < rule.limit
      → now + 1000 * (check_rate_limit key rule now hits).1.retry_after ≤ later
      → (check_rate_limit key rule later (check_rate_limit key rule now hits).0).1.allowed ≡ true
  retry_after_suffices now later hits pos wait =
      let (e, kept, over) = checked_entry now hits in
      check_expired later (check_rate_limit key rule now hits).0 e kept (omega arith) pos
