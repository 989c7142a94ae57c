-- ===== src/Frontend/RateLimit/Size.antt =====
-- The map of rate-limit.ts stays within its capacity.
use stellar_true_stub.Common.{
  ℕ, ◌+◌, ◌-◌, ◌≤◌, ◌<◌, ◌≡◌, String, List, [], ◌∷◌, if◌then◌else◌, length-drop, arith,
}
use stellar_true_stub.Map
use stellar_true_stub.Map.{Map}
use stellar_true_stub.Map.Laws
use stellar_true_stub.Frontend.RateLimit.{
  RateLimitRule, Entry, max_tracked_keys, drop_expired, prune, check_rate_limit,
}

size-prune_lt : (now : ℕ) (hits : Map Entry) → Map.size (prune now hits) < max_tracked_keys
unfolding prune
size-prune_lt now hits =
    let kept = drop_expired now hits in
    ground (arith, length-drop (Map.size kept - max_tracked_keys + 1) kept)

-- The two writes of a check make at most one key more.
pub size-set-set :
    (key : String) (v w : Entry) (hits : Map Entry)
    → Map.size (Map.set key w (Map.set key v hits))
      ≡ (if Map.has key hits then Map.size hits else Map.size hits + 1)
size-set-set key v w hits = rw Laws.set-set (Laws.size-set key w hits)

-- One check.
size-check_rate_limit :
    (key : String) (rule : RateLimitRule) (now : ℕ) (hits : Map Entry)
    → Map.size hits ≤ max_tracked_keys
    → Map.size (check_rate_limit key rule now hits).0 ≤ max_tracked_keys
unfolding check_rate_limit
size-check_rate_limit key rule now hits h =
    grind (arith, size-prune_lt now hits, size-set-set, Laws.size-set)

-- Any sequence of checks, with any keys, rules and times.
unfoldable pub run : List (String × RateLimitRule × ℕ) → Map Entry → Map Entry
run [] hits = hits
run ((key, rule, now) ∷ checks) hits = run checks (check_rate_limit key rule now hits).0

-- However many clients there are, the map never holds more than MAX_TRACKED_KEYS entries: no
-- sequence of checks takes it past that size.
pub size-run :
    (checks : List (String × RateLimitRule × ℕ)) (hits : Map Entry)
    → Map.size hits ≤ max_tracked_keys
    → Map.size (run checks hits) ≤ max_tracked_keys
unfolding run
size-run [] hits h = h
size-run ((key, rule, now) ∷ checks) hits h =
    size-run checks (check_rate_limit key rule now hits).0
      (size-check_rate_limit key rule now hits h)
