-- ===== src/Backend/Auth.antt =====
-- apps/backend/src/middleware/auth.ts. `verify` stands for Firebase's verifyIdToken: the decoded
-- token, or nothing where it throws.
pub mod Admin
mod Examples
use stellar_true_stub.Common.{
  String, Bool, true, false, ◌||◌, Option, none, some, if◌then◌else◌, Result, ok, err, or_else,
  str_eq, strip_prefix,
}

-- A claim that is neither null nor absent.
pub data Claim : Type 0 where
  text : String → Claim
  other : Claim

-- What is read of a decoded token; `hasura_role` is the x-hasura-role of its Hasura claims.
pub record User : Type 0 where
  pub uid : Option String
  pub role : Option Claim
  pub hasura_role : Option Claim

pub data Refusal : Type 0 where
  -- 401.
  no_header invalid_token : Refusal
  -- 403.
  not_admin : Refusal

abbrev pub decoded : Option User → Result Refusal User
decoded none = err invalid_token
decoded (some user) = ok user

abbrev pub is_admin_role : Option Claim → Bool
is_admin_role (some (text role)) = str_eq role "admin"
is_admin_role _ = false

-- `requireAdmin` behind `authenticate`.
abbrev pub admin_only : Result Refusal User → Result Refusal User
admin_only (err refusal) = err refusal
admin_only (ok user) =
    if is_admin_role (or_else user.role user.hasura_role) then ok user else err not_admin

abbrev with_user : Result Refusal User → Result Refusal (Option User)
with_user (err refusal) = err refusal
with_user (ok user) = ok (some user)

module _ (verify : String → Option User) where
  abbrev bearer : Option String → Result Refusal User
  bearer none = err no_header
  bearer (some token) = decoded (verify token)

  -- `ok user` sets `res.locals.user`.
  unfoldable pub authenticate : Option String → Result Refusal User
  authenticate none = err no_header
  authenticate (some header) = bearer (strip_prefix "Bearer " header)

  -- `ok` is the call of `next`.
  unfoldable pub require_auth : Option String → Result Refusal User
  unfolding authenticate
  require_auth header = authenticate header

  pub require_admin : Option String → Result Refusal User
  unfolding authenticate
  require_admin header = admin_only (authenticate header)

  pub require_auth_for_writes : String → Option String → Result Refusal (Option User)
  unfolding require_auth
  require_auth_for_writes method header =
      if str_eq method "GET" || str_eq method "HEAD" || str_eq method "OPTIONS"
      then ok none
      else with_user (require_auth header)
