-- ===== src/Frontend/Middleware/Decisions.antt =====
-- Every answer of middleware.ts, with its condition.
use stellar_true_stub.Common.{
  ℕ, ◌≡◌, ◌≢◌, refl, inl, inr, String, true, false, not, ◌&&◌, List, [], ◌∷◌, Mem, Mem-cons, here,
  there, str_eq, eq_iff, get_or_else, Bool-cases, arith, ap, sym, ◌∙◌,
}
use stellar_true_stub.Map.{Map}
use stellar_true_stub.Frontend.RateLimit.{Entry, check_rate_limit, get_rule_for_path}
use stellar_true_stub.Frontend.Middleware.{
  Request, Answer, next, too_many_requests, to_login, to_dashboard, starts_with, is_under,
  is_public_dashboard_path, role_restricted_paths, has_role, has_session, limit_key,
}

module _ (pathname role : String) where
  -- Every entry of the list that the path lies under requires this role.
  abbrev pub Permits : List (String × String) → Type 0
  Permits l =
      (path required : String)
      → Mem (path, required) l
      → is_under pathname path ≡ true
      → role ≡ required

  -- An entry of the list that the path lies under requires another role.
  pub data Refuses (l : List (String × String)) : Type 0 where
    refuses :
        (path required : String)
        → Mem (path, required) l
        → is_under pathname path ≡ true
        → role ≢ required
        → Refuses l

  Refuses-cons : (e : String × String) (l : List (String × String)) → Refuses l → Refuses (e ∷ l)
  Refuses-cons e l (refuses path required m u n) = refuses path required (there m) u n

  -- The entry at the front decides, or leaves it to the rest.
  passes_first :
      (path required : String)
      → (is_under pathname path && not (str_eq role required)) ≡ false
      → is_under pathname path ≡ true
      → role ≡ required
  passes_first path required e u = ground (arith, eq_iff role required)

  stopped_first :
      (path required : String)
      → (is_under pathname path && not (str_eq role required)) ≡ true
      → (is_under pathname path ≡ true) × (str_eq role required ≡ false)
  stopped_first path required e = ground arith

  pub permits : (l : List (String × String)) → has_role pathname role l ≡ true → Permits l
  unfolding has_role
  permits [] h path required m u = elim m [ ]
  permits ((p, q) ∷ l) h path required m u =
      elim (Bool-cases (is_under pathname p && not (str_eq role q))) [
        | inl stopped ↦ let k = rw stopped at h in cc
        | inr on ↦ elim (Mem-cons (path, required) (p, q) l m) [
          | inl same ↦
              let at_path : path ≡ p = ap (λ e. e.0) same in
              let at_role : required ≡ q = ap (λ e. e.1) same in
              passes_first p q on (rw (← at_path) u) ∙ sym at_role
          | inr later ↦ permits l (rw on at h) path required later u
        ]
      ]

  pub refused : (l : List (String × String)) → has_role pathname role l ≡ false → Refuses l
  unfolding has_role
  refused [] h = cc
  refused ((p, q) ∷ l) h = elim (Bool-cases (is_under pathname p && not (str_eq role q))) [
    | inl stopped ↦
        let (u, n) = stopped_first p q stopped in
        refuses p q (here refl) u (λ e. let k = (eq_iff role q).1 e in cc)
    | inr on ↦ Refuses-cons (p, q) l (refused l (rw on at h))
  ]

module _ (r : Request) (now : ℕ) (hits : Map Entry) where
  pub data Decision : Map Entry × Answer → Type 0 where
    counted :
        starts_with r.pathname "/api/auth" ≡ true
        → (check_rate_limit (limit_key r) (get_rule_for_path r.pathname) now hits).1.allowed ≡ true
        → Decision
            ((check_rate_limit (limit_key r) (get_rule_for_path r.pathname) now hits).0, next)
    limited_out :
        starts_with r.pathname "/api/auth" ≡ true
        → (check_rate_limit (limit_key r) (get_rule_for_path r.pathname) now hits).1.allowed ≡ false
        → Decision (
          (check_rate_limit (limit_key r) (get_rule_for_path r.pathname) now hits).0,
          too_many_requests
              (check_rate_limit
                (limit_key r)
                (get_rule_for_path r.pathname)
                now
                hits).1.retry_after,
        )
    elsewhere :
        starts_with r.pathname "/api/auth" ≡ false
        → starts_with r.pathname "/dashboard" ≡ false
        → Decision (hits, next)
    open_page :
        starts_with r.pathname "/api/auth" ≡ false
        → starts_with r.pathname "/dashboard" ≡ true
        → is_public_dashboard_path r.pathname ≡ true
        → Decision (hits, next)
    logged_out :
        starts_with r.pathname "/api/auth" ≡ false
        → starts_with r.pathname "/dashboard" ≡ true
        → is_public_dashboard_path r.pathname ≡ false
        → has_session r.session ≡ false
        → Decision (hits, to_login r.pathname)
    wrong_role :
        starts_with r.pathname "/api/auth" ≡ false
        → starts_with r.pathname "/dashboard" ≡ true
        → is_public_dashboard_path r.pathname ≡ false
        → has_session r.session ≡ true
        → Refuses r.pathname (get_or_else r.role "") role_restricted_paths
        → Decision (hits, to_dashboard)
    entered :
        starts_with r.pathname "/api/auth" ≡ false
        → starts_with r.pathname "/dashboard" ≡ true
        → is_public_dashboard_path r.pathname ≡ false
        → has_session r.session ≡ true
        → Permits r.pathname (get_or_else r.role "") role_restricted_paths
        → Decision (hits, next)
