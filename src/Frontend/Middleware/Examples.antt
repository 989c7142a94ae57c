-- ===== src/Frontend/Middleware/Examples.antt =====
-- The theorems on the middleware at concrete requests.
use stellar_true_stub.Common.{
  ◌≡◌, refl, inr, true, none, some, [], here, there, get_or_else, trim, drop_spaces,
  drop_last_spaces, before_comma, is_space,
}
use stellar_true_stub.Map.{Map}
use stellar_true_stub.Frontend.RateLimit.{Entry}
use stellar_true_stub.Frontend.Middleware.{
  Request, next, to_dashboard, get_client_ip, is_public_dashboard_path, has_role, has_session,
  guard_page, limit_key, middleware,
}
use stellar_true_stub.Frontend.Middleware.Roles.{restricted-next}

abbrev ann : Request
ann = record {
  pathname = "/dashboard/users/7";
  forwarded_for = some " 10.0.0.1 , 10.0.0.2";
  real_ip = none;
  session = some "token";
  role = some "admin";
}

abbrev no_hits : Map Entry
no_hits = []

keyed : limit_key ann ≡ "10.0.0.1:/dashboard/users/7"
unfolding limit_key get_client_ip trim drop_spaces drop_last_spaces before_comma is_space
keyed = refl

enters : (middleware ann 5 no_hits).1 ≡ next
unfolding middleware guard_page is_public_dashboard_path has_role
enters = refl

turned_away : guard_page (record ann { role = some "manager" }) ≡ to_dashboard
unfolding guard_page is_public_dashboard_path has_role
turned_away = refl

booking_is_public : is_public_dashboard_path "/dashboard/event/booking/9/escrow" ≡ true
unfolding is_public_dashboard_path
booking_is_public = refl

restricted-next_example : (has_session ann.session ≡ true) × (get_or_else ann.role "" ≡ "admin")
restricted-next_example =
    restricted-next ann 5 no_hits "/dashboard/users" "admin" "/7" (there (here refl))
      (inr ("7", refl)) refl enters
