-- ===== src/Frontend/RateLimit.antt =====
-- apps/frontend/src/lib/rate-limit.ts: the fixed-window limiter of requests, keyed on the client.
-- Times are milliseconds; `hits`, the module's map, is passed along. A count that the source
-- increases in the entry that the map holds is written back here.
pub mod Size
pub mod Window
mod Examples
use Prim.Native.Char.{code}
use Prim.Native.Nat.{max}
use Prim.Native.String
use stellar_true_stub.Common.{
  ℕ, ◌+◌, ◌-◌, ◌/◌, String, Bool, true, false, ◌&&◌, not, Option, none, some, List, [], ◌∷◌,
  if◌then◌else◌, leb, ◌==◌, str_eq, get_or_else, drop,
}
use stellar_true_stub.Map
use stellar_true_stub.Map.{Map}

pub record RateLimitRule : Type 0 where
  pub limit : ℕ
  pub window_ms : ℕ

pub record RateLimitResult : Type 0 where
  pub allowed : Bool
  pub remaining : ℕ
  pub retry_after : ℕ

pub record Entry : Type 0 where
  pub count : ℕ
  pub reset_at : ℕ

abbrev auth_route_rules : Map RateLimitRule
auth_route_rules =
    ("/api/auth/forgot-password", record { limit = 5; window_ms = 60_000 })
    ∷ ("/api/auth/reset-password", record { limit = 5; window_ms = 60_000 })
    ∷ ("/api/auth/validate-reset-token", record { limit = 10; window_ms = 60_000 })
    ∷ ("/api/auth/sync-user", record { limit = 20; window_ms = 60_000 })
    ∷ []

abbrev default_auth_rule : RateLimitRule
default_auth_rule = record { limit = 10; window_ms = 60_000 }

abbrev pub max_tracked_keys : ℕ
max_tracked_keys = 10_000

-- `pathname.replace(/\/$/, "")`.
strip_slash : String → String
strip_slash String.[] = String.[]
strip_slash (String.◌∷◌ c String.[]) = if code c == b'/' then String.[] else String.◌∷◌ c String.[]
strip_slash (String.◌∷◌ c (String.◌∷◌ d s)) = String.◌∷◌ c (strip_slash (String.◌∷◌ d s))

pub get_rule_for_path : String → RateLimitRule
unfolding strip_slash
get_rule_for_path pathname =
    get_or_else (Map.get (strip_slash pathname) auth_route_rules) default_auth_rule

-- The first loop of `prune`.
pub drop_expired : ℕ → Map Entry → Map Entry
drop_expired now [] = []
drop_expired now ((key, entry) ∷ hits) =
    let rest = drop_expired now hits in if leb entry.reset_at now then rest else (key, entry) ∷ rest

-- The second loop: the oldest keys go until there is room for one more.
pub drop_excess : Map Entry → Map Entry
drop_excess hits =
    if leb max_tracked_keys (Map.size hits)
    then drop (Map.size hits - max_tracked_keys + 1) hits
    else hits

prune : ℕ → Map Entry → Map Entry
unfolding drop_expired drop_excess
prune now hits = drop_excess (drop_expired now hits)

-- `Math.max(1, Math.ceil((resetAt - now) / 1000))`, where `now` is not after `resetAt`.
abbrev seconds_until : ℕ → ℕ → ℕ
seconds_until reset_at now = max 1 ((reset_at - now + 999) / 1000)

-- The part of `checkRateLimit` after its `if`, for the entry that the map then holds.
count_hit : String → RateLimitRule → ℕ → Entry → Map Entry → Map Entry × RateLimitResult
count_hit key rule now entry hits =
    let counted : Entry = record entry { count = entry.count + 1 } in
    (
      Map.set key counted hits,
      record {
        allowed = leb counted.count rule.limit;
        remaining = rule.limit - counted.count;
        retry_after = seconds_until counted.reset_at now;
      },
    )

abbrev fresh : RateLimitRule → ℕ → Entry
fresh rule now = record { count = 0; reset_at = now + rule.window_ms }

check_over : String → RateLimitRule → ℕ → Option Entry → Map Entry → Map Entry × RateLimitResult
unfolding prune count_hit
check_over key rule now none hits =
    let room = if leb max_tracked_keys (Map.size hits) then prune now hits else hits in
    count_hit key rule now (fresh rule now) (Map.set key (fresh rule now) room)
check_over key rule now (some entry) hits =
    if leb entry.reset_at now
    then count_hit key rule now (fresh rule now) (Map.set key (fresh rule now) hits)
    else count_hit key rule now entry hits

pub check_rate_limit : String → RateLimitRule → ℕ → Map Entry → Map Entry × RateLimitResult
unfolding check_over
check_rate_limit key rule now hits = check_over key rule now (Map.get key hits) hits

pub reset_rate_limits : Map Entry → Map Entry
reset_rate_limits hits = []
