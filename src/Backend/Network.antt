-- ===== src/Backend/Network.antt =====
-- apps/backend/src/lib/network-guard.ts, and of apps/backend/src/config/env.ts the variables that
-- decide where and with what key a refund is submitted. `host` is `new URL(text).hostname` in lower
-- case, where the text is a URL, and `lower` is `toLowerCase`. A text is `process.env`'s, as it is.
pub mod Guard
mod Examples
use Prim.Native.Char.{code}
use Prim.Native.String
use stellar_true_stub.Common.{
  ℕ, String, Bool, true, false, not, ◌&&◌, ◌||◌, Option, none, some, List, [], ◌∷◌, ◌++◌,
  if◌then◌else◌, Result, ok, err, get_or_else, str_eq, codes, all, any, trim, in_range, ◌==◌,
  length,
}
use stellar_true_stub.Backend.AppError.{is_blank}

pub record NetworkGuardConfig : Type 0 where
  pub node_env : Option String
  pub stellar_network : Option String
  pub trustless_work_api_url : Option String
  pub ci : Option String

abbrev pub trustless_work_mainnet_hosts : List String
trustless_work_mainnet_hosts = "api.trustlesswork.com" ∷ []

abbrev pub is_text : String → Option String → Bool
is_text s none = false
is_text s (some t) = str_eq t s

-- `.replace(/\/+$/, "")`.
unfoldable pub strip_slashes : String → String
strip_slashes String.[] = String.[]
strip_slashes (String.◌∷◌ c s) =
    let rest = strip_slashes s in
    if (code c == b'/') && is_blank rest then String.[] else String.◌∷◌ c rest

module _ (lower : String → String) where
  unfoldable pub is_truthy_flag : Option String → Bool
  unfolding trim
  is_truthy_flag none = false
  is_truthy_flag (some value) =
      if is_blank value
      then false
      else not (any (str_eq (lower (trim value))) ("0" ∷ "false" ∷ "no" ∷ "off" ∷ []))

  unfoldable pub is_production_environment : NetworkGuardConfig → Bool
  is_production_environment config =
      is_text "production" config.node_env && not (is_truthy_flag config.ci)

host_signal : Option String → List String
host_signal none = []
host_signal (some h) =
    if any (str_eq h) trustless_work_mainnet_hosts
    then String.◌++◌ "TRUSTLESS_WORK_API_URL points at " h ∷ []
    else []

module _ (host : String → Option String) where
  pub url_signal : Option String → List String
  unfolding host_signal
  url_signal none = []
  url_signal (some url) = if is_blank url then [] else host_signal (host url)

  unfoldable pub mainnet_signals : NetworkGuardConfig → List String
  unfolding url_signal
  mainnet_signals config =
      (if is_text "mainnet" config.stellar_network then "STELLAR_NETWORK=mainnet" ∷ [] else [])
      ++ url_signal config.trustless_work_api_url

env_label : Bool → NetworkGuardConfig → String
env_label truthy config =
    if truthy
    then String.◌++◌ "CI=" (get_or_else config.ci "")
    else String.◌++◌ "NODE_ENV=" (get_or_else config.node_env "unset")

blocked_or : Bool → List String → String → Option (List String)
blocked_or production [] label = none
blocked_or production (r ∷ reasons) label = if production then none else some (label ∷ r ∷ reasons)

-- The reasons of the MainnetSubmissionBlockedError that it throws, if it throws one.
unfoldable pub assert_mainnet_submission_allowed :
    (String → String) → (String → Option String) → NetworkGuardConfig → Option (List String)
unfolding blocked_or env_label is_truthy_flag
assert_mainnet_submission_allowed lower host config =
    blocked_or (is_production_environment lower config) (mainnet_signals host config)
      (env_label (is_truthy_flag lower config.ci) config)

-- The networks whose passphrases sign.
pub data Network : Type 0 where
  public testnet : Network

-- `env`, as far as it is read here.
pub record Env : Type 0 where
  pub trustless_work_api_url : String
  pub trustless_work_api_key : Option String
  pub trustless_work_dispute_resolver_secret : Option String
  pub stellar_network : Network

abbrev pub default_api_url : String
default_api_url = "https://dev.api.trustlesswork.com"

-- A variable that is set to spaces counts as unset.
unset_if_blank : Option String → Option String
unfolding trim
unset_if_blank none = none
unset_if_blank (some s) = if is_blank (trim s) then none else some s

-- `z.enum(["testnet", "mainnet"]).default("testnet")`.
network_of : Option String → Option Network
network_of none = some testnet
network_of (some s) =
    if str_eq s "mainnet" then some public else if str_eq s "testnet" then some testnet else none

abbrev is_secret_codes : List ℕ → Bool
is_secret_codes [] = false
is_secret_codes (c ∷ s) =
    c == b'S' && length s == 55 && all (λ d. in_range b'A' b'Z' d || in_range b'2' b'7' d) s

-- `/^S[A-Z2-7]{55}$/`, or absent.
is_secret : Option String → Bool
is_secret none = true
is_secret (some s) = is_secret_codes (codes s)

api_url_of : (String → Option String) → Option String → Option String
api_url_of host none = some default_api_url
api_url_of host (some url) = elim (host url) [ none ↦ none | some h ↦ some url ]

env_with : Option String → Option Network → Option String → Option String → Option Env
env_with (some url) (some network) key secret =
    if is_secret secret
    then some (record {
      trustless_work_api_url = url;
      trustless_work_api_key = key;
      trustless_work_dispute_resolver_secret = secret;
      stellar_network = network;
    })
    else none
env_with _ _ key secret = none

-- `validateEnv`, from the API key, the secret and what the guard reads too; `none` where it throws.
unfoldable pub validate_env :
    (String → Option String) → Option String → Option String → NetworkGuardConfig → Option Env
unfolding unset_if_blank network_of is_secret api_url_of env_with
validate_env host key secret config =
    env_with (api_url_of host (unset_if_blank config.trustless_work_api_url))
      (network_of (unset_if_blank config.stellar_network)) (unset_if_blank key)
      (unset_if_blank secret)
