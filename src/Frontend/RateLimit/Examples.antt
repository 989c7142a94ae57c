-- ===== src/Frontend/RateLimit/Examples.antt =====
-- The theorems on rate limits at concrete checks.
use stellar_true_stub.Common.{ℕ, ◌-◌, ◌≤◌, ◌≡◌, refl, String, List, [], ◌∷◌, arith}
use stellar_true_stub.Map
use stellar_true_stub.Map.{Map}
use stellar_true_stub.Frontend.RateLimit.{
  RateLimitRule, Entry, get_rule_for_path, check_rate_limit, reset_rate_limits,
}
use stellar_true_stub.Frontend.RateLimit.Window.{allowed_in, allowed_bound}

abbrev rule : RateLimitRule
rule = record { limit = 3; window_ms = 60_000 }

abbrev hits : Map Entry
hits = ("1.2.3.4", record { count = 1; reset_at = 60_100 }) ∷ []

abbrev checks : List (String × ℕ)
checks = ("1.2.3.4", 200) ∷ ("5.6.7.8", 210) ∷ ("1.2.3.4", 220) ∷ ("1.2.3.4", 230) ∷ []

rules :
    (get_rule_for_path "/api/auth/sync-user/" ≡ record { limit = 20; window_ms = 60_000 })
    × (get_rule_for_path "/api/auth/other" ≡ record { limit = 10; window_ms = 60_000 })
unfolding get_rule_for_path Map.get
rules = (refl, refl)

two_pass : allowed_in (λ _. rule) "1.2.3.4" checks hits ≡ 2
unfolding allowed_in check_rate_limit Map.get Map.set
two_pass = refl

allowed_bound_example : allowed_in (λ _. rule) "1.2.3.4" checks hits ≤ 3 - 1
unfolding Map.get
allowed_bound_example =
    allowed_bound (λ _. rule) "1.2.3.4" checks hits (record { count = 1; reset_at = 60_100 })
      (omega arith) refl (omega arith)

none_tracked : Map.size (reset_rate_limits hits) ≡ 0
unfolding reset_rate_limits
none_tracked = refl
