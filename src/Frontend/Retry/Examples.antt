-- ===== src/Frontend/Retry/Examples.antt =====
-- The theorems on retries at concrete functions.
use stellar_true_stub.Common.{
  ℕ, zero, suc, ◌<◌, ◌≡◌, refl, inl, Bool, true, false, none, some, Result, ok, err, arith,
}
use stellar_true_stub.Frontend.Retry.{
  HttpErrorLike, includes, is_transient_error, retry_with_backoff,
}
use stellar_true_stub.Frontend.Retry.Backoff.{calls, decides, retry-stops}

abbrev rejection : HttpErrorLike
rejection = record { response_status = none; status = some 500; message = some "tx rejected" }

rejected_stops : is_transient_error (λ s. s) (some rejection) ≡ false
unfolding is_transient_error includes
rejected_stops = refl

-- Fails twice, then returns 9.
abbrev flaky : ℕ → Result Bool ℕ
flaky zero = err true
flaky (suc zero) = err true
flaky (suc (suc n)) = ok 9

early : (j : ℕ) → j < 2 → decides (λ e. e) flaky 1000 (flaky j) ≡ false
early zero h = refl
early (suc zero) h = refl
early (suc (suc j)) h = absurd (omega arith)

retry-stops_example :
    ((retry_with_backoff (λ e. e) flaky 1000 3).1 ≡ ok 9)
    × (calls (retry_with_backoff (λ e. e) flaky 1000 3).0 ≡ 3)
retry-stops_example = retry-stops (λ e. e) flaky 1000 2 2 (omega arith) early (inl refl)
