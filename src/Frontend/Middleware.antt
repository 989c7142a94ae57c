-- ===== src/Frontend/Middleware.antt =====
-- apps/frontend/src/middleware.ts: which requests of the client reach a page, with the limiter of
-- apps/frontend/src/lib/rate-limit.ts on the routes of /api/auth.
pub mod Decisions
pub mod Roles
mod Examples
use Prim.Native.Char.{code}
use Prim.Native.String
use stellar_true_stub.Common.{
  ℕ, String, Bool, true, false, not, ◌&&◌, ◌||◌, Option, none, some, List, [], ◌∷◌, if◌then◌else◌,
  ◌==◌, any, get_or_else, is_some, str_eq, strip_prefix, trim, before_comma, concat,
}
use stellar_true_stub.Map.{Map}
use stellar_true_stub.Frontend.RateLimit.{
  Entry, RateLimitResult, check_rate_limit, get_rule_for_path,
}

-- What is read of a request.
pub record Request : Type 0 where
  pub pathname : String
  pub forwarded_for : Option String
  pub real_ip : Option String
  pub session : Option String
  pub role : Option String

pub data Answer : Type 0 where
  -- The request goes on.
  next : Answer
  -- 429, with the seconds of `Retry-After`.
  too_many_requests : ℕ → Answer
  -- To /login with `next`, or to /dashboard/escrow-dashboard.
  to_login : String → Answer
  to_dashboard : Answer

abbrev filled : String → Bool
filled s = not (str_eq s "")

-- `a || b`, for texts that may be absent.
abbrev text_or : Option String → String → String
text_or none b = b
text_or (some a) b = if filled a then a else b

abbrev first_forwarded : Option String → Option String
first_forwarded none = none
first_forwarded (some s) = some (trim (before_comma s))

pub get_client_ip : Request → String
get_client_ip r = text_or (first_forwarded r.forwarded_for) (text_or r.real_ip "unknown")

abbrev pub starts_with : String → String → Bool
starts_with s p = is_some (strip_prefix p s)

-- `pathname === p || pathname.startsWith(p + "/")`.
abbrev pub is_under : String → String → Bool
is_under pathname p = str_eq pathname p || starts_with pathname (concat p "/")

abbrev public_dashboard_paths : List String
public_dashboard_paths =
    "/dashboard/event" ∷ "/dashboard/event/payment" ∷ "/dashboard/event/details"
    ∷ "/dashboard/event/search" ∷ "/dashboard/event/escrow" ∷ "/dashboard/event/create-escrow" ∷ []

-- A character that `.` does not match.
abbrev is_line_end : ℕ → Bool
is_line_end c = c == 10 || c == 13 || c == 0x2028 || c == 0x2029

-- `/.+\/escrow$/` from here on; `some_before` says that `.+` has matched a character.
ends_in_escrow : Bool → String → Bool
ends_in_escrow some_before String.[] = false
ends_in_escrow some_before (String.◌∷◌ c s) =
    let rest = ends_in_escrow true s in
    (some_before && str_eq (String.◌∷◌ c s) "/escrow") || (not (is_line_end (code c)) && rest)

abbrev booking_rest : Option String → Bool
booking_rest none = false
booking_rest (some s) = ends_in_escrow false s

pub is_public_dashboard_path : String → Bool
unfolding ends_in_escrow
is_public_dashboard_path pathname =
    any (is_under pathname) public_dashboard_paths
    || booking_rest (strip_prefix "/dashboard/event/booking/" pathname)

-- `ROLE_RESTRICTED_PATHS`.
abbrev pub role_restricted_paths : List (String × String)
role_restricted_paths =
    ("/dashboard/manager", "manager")
    ∷ ("/dashboard/users", "admin")
    ∷ ("/dashboard/admin", "admin")
    ∷ []

-- The loop over them: no entry sends the request away.
pub has_role : String → String → List (String × String) → Bool
has_role pathname role [] = true
has_role pathname role ((path, required) ∷ rest) =
    let later = has_role pathname role rest in
    if is_under pathname path && not (str_eq role required) then false else later

-- `if (!sessionCookie)`.
abbrev pub has_session : Option String → Bool
has_session none = false
has_session (some s) = filled s

-- Without the routes of /api/auth.
pub guard_page : Request → Answer
unfolding has_role is_public_dashboard_path
guard_page r =
    if not (starts_with r.pathname "/dashboard")
    then next
    else if is_public_dashboard_path r.pathname
    then next
    else if not (has_session r.session)
    then to_login r.pathname
    else if has_role r.pathname (get_or_else r.role "") role_restricted_paths
    then next
    else to_dashboard

pub limit_key : Request → String
unfolding get_client_ip
limit_key r = concat (get_client_ip r) (concat ":" r.pathname)

limited : Map Entry × RateLimitResult → Map Entry × Answer
limited (hits, result) =
    (hits, if result.allowed then next else too_many_requests result.retry_after)

pub middleware : Request → ℕ → Map Entry → Map Entry × Answer
unfolding guard_page limited limit_key
middleware r now hits =
    if starts_with r.pathname "/api/auth"
    then limited (check_rate_limit (limit_key r) (get_rule_for_path r.pathname) now hits)
    else (hits, guard_page r)
