-- ===== src/Frontend/Retry/Transient.antt =====
-- Which errors retry.ts retries.
use stellar_true_stub.Common.{
  ℕ, ◌≡◌, ◌↔◌, ◌⊎◌, String, true, false, Option, some, any, or_else, arith,
}
use stellar_true_stub.Frontend.Retry.{
  HttpErrorLike, includes, definitive_patterns, lowered, is_transient_error,
}

-- A status code that is never retried, and one that always is.
abbrev pub IsDefinitive : Option ℕ → Type 0
IsDefinitive s = (s ≡ some 400) ⊎ (s ≡ some 401) ⊎ (s ≡ some 403)

abbrev pub IsBusy : Option ℕ → Type 0
IsBusy s = (s ≡ some 429) ⊎ (s ≡ some 503) ⊎ (s ≡ some 504)

-- An error is retried exactly when its status is 429, 503 or 504, or else its status is none of
-- 400, 401 and 403 and its lower-cased message contains no definitive pattern. So the list of
-- transient patterns decides nothing.
pub transient_iff :
    (lower : String → String) (e : HttpErrorLike)
    → let status = or_else e.response_status e.status in
      (is_transient_error lower (some e) ≡ true) ↔ (
        IsBusy status
        ⊎ ((¬ IsDefinitive status)
            × (any (includes (lowered lower e.message)) definitive_patterns ≡ false)))
unfolding is_transient_error
transient_iff lower e = ground arith
