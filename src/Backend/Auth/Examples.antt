-- ===== src/Backend/Auth/Examples.antt =====
-- The theorems on the guards at concrete headers.
use stellar_true_stub.Common.{
  ◌≡◌, ◌↔◌, refl, String, Option, none, some, ok, err, if◌then◌else◌, str_eq,
}
use stellar_true_stub.Backend.Auth.{
  text, User, not_admin, no_header, require_admin, authenticate, require_auth_for_writes,
}
use stellar_true_stub.Backend.Auth.Admin.{Carries, IsAdmin, require_admin_iff}

abbrev admin : User
admin = record { uid = some "u1"; role = none; hasura_role = some (text "admin") }

abbrev seller : User
seller = record { uid = some "u2"; role = some (text "seller"); hasura_role = some (text "admin") }

abbrev verify : String → Option User
verify token =
    if str_eq token "t1" then some admin else if str_eq token "t2" then some seller else none

require_admin_iff_example :
    (require_admin verify (some "Bearer t1") ≡ ok admin)
    ↔ (Carries verify (some "Bearer t1") admin × IsAdmin verify admin)
require_admin_iff_example = require_admin_iff verify (some "Bearer t1") admin

-- A role of its own goes before the Hasura role.
refuses_seller : require_admin verify (some "Bearer t2") ≡ err not_admin
unfolding require_admin authenticate
refuses_seller = refl

refuses_lower : require_auth_for_writes verify "DELETE" (some "bearer t1") ≡ err no_header
unfolding require_auth_for_writes authenticate
refuses_lower = refl
