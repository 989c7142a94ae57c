-- ===== src/Backend/Auth/Admin.antt =====
-- Who passes the guards of auth.ts.
use stellar_true_stub.Common.{
  ◌≡◌, ◌↔◌, refl, ap, String, true, Option, none, some, Result, ok, err, or_else, strip_prefix,
  eq_iff, Option-cases, Bool-cases, arith, inl, inr,
}
use stellar_true_stub.Backend.Auth.{
  Claim, text, other, User, Refusal, is_admin_role, decoded, authenticate, require_auth,
  require_admin, admin_only,
}

decoded-ok : (o : Option User) (user : User) → decoded o ≡ ok user → o ≡ some user
decoded-ok none user h = ground arith
decoded-ok (some u) user h = cc

module _ (verify : String → Option User) where
  -- The header carries a token behind which the verifier finds the user.
  abbrev pub Carries : Option String → User → Type 0
  Carries header user =
      (value : String) × (token : String) × (header ≡ some value)
      × (strip_prefix "Bearer " value ≡ some token)
      × (verify token ≡ some user)

  pub authenticate-Carries :
      (header : Option String) (user : User)
      → authenticate verify header ≡ ok user
      → Carries header user
  unfolding authenticate
  authenticate-Carries none user h = ground arith
  authenticate-Carries (some value) user h = elim (Option-cases (strip_prefix "Bearer " value)) [
    | inl missing ↦ absurd (ground (arith, (rw missing at h)))
    | inr (token, found) ↦
        (value, token, refl, found, decoded-ok (verify token) user (rw found at h))
  ]

  pub Carries-authenticate :
      (header : Option String) (user : User)
      → Carries header user
      → authenticate verify header ≡ ok user
  unfolding authenticate
  Carries-authenticate header user (value, token, sent, bearer, known) =
      rw (sent, bearer, known) refl

  pub require_auth-Carries :
      (header : Option String) (user : User)
      → require_auth verify header ≡ ok user
      → Carries header user
  unfolding require_auth
  require_auth-Carries header user h = authenticate-Carries header user h

  -- Its own role, or where it has none the one of its Hasura claims, is admin.
  abbrev pub IsAdmin : User → Type 0
  IsAdmin user = or_else user.role user.hasura_role ≡ some (text "admin")

  admin_role : (role : Option Claim) → is_admin_role role ≡ true → role ≡ some (text "admin")
  admin_role none h = absurd (ground (arith, h))
  admin_role (some other) h = absurd (ground (arith, h))
  admin_role (some (text role)) h = ap (λ s. some (text s)) ((eq_iff role "admin").0 h)

  admin_only-ok :
      (a : Result Refusal User) (user : User)
      → admin_only a ≡ ok user
      → (a ≡ ok user) × IsAdmin user
  admin_only-ok (err refusal) user h = absurd (ground (arith, h))
  admin_only-ok (ok u) user h = elim (Bool-cases (is_admin_role (or_else u.role u.hasura_role))) [
    | inl admin ↦
        let same : Path (Result Refusal User) (ok u) (ok user) = rw admin at h in
        let role : IsAdmin u = admin_role (or_else u.role u.hasura_role) admin in (same, cc)
    | inr plain ↦ absurd (ground (arith, (rw plain at h)))
  ]

  -- A request passes as an administrator's exactly when its header is "Bearer " with a token that
  -- the verifier accepts, and the role in the token, or where there is none its Hasura role, is
  -- "admin".
  pub require_admin_iff :
      (header : Option String) (user : User)
      → (require_admin verify header ≡ ok user) ↔ (Carries header user × IsAdmin user)
  unfolding require_admin
  require_admin_iff header user = (
    λ h.
        let (passed, admin) = admin_only-ok (authenticate verify header) user h in
        (authenticate-Carries header user passed, admin),
    λ (carried, admin). rw (Carries-authenticate header user carried, admin) refl,
  )
