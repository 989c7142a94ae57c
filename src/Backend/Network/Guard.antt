-- ===== src/Backend/Network/Guard.antt =====
-- What the guard of network-guard.ts lets pass, and what the environment of env.ts then says.
use Prim.Native.Char.{code}
use stellar_true_stub.Common.{
  trim, drop_spaces, drop_last_spaces, ◌≡◌, ◌≢◌, ◌↔◌, refl, subst, sym, ap, ◌∙◌, inl, inr, String,
  true, false, Option, none, some, List, [], ◌∷◌, ◌++◌, Bool-cases, ◌==◌, ◌&&◌, eq_iff, arith,
}
use stellar_true_stub.Backend.AppError.{is_blank}
use stellar_true_stub.Backend.Network.{
  NetworkGuardConfig, is_text, is_production_environment, host_signal, url_signal, mainnet_signals,
  blocked_or, assert_mainnet_submission_allowed, Network, testnet, Env, default_api_url,
  unset_if_blank, network_of, is_secret, api_url_of, env_with, validate_env, strip_slashes,
}

-- The configuration points to mainnet: by the network, or by the host of the API.
pub data IsMainnet (host : String → Option String) (config : NetworkGuardConfig) : Type 0 where
  by_network : config.stellar_network ≡ some "mainnet" → IsMainnet host config
  by_host :
      (url : String)
      → config.trustless_work_api_url ≡ some url
      → host url ≡ some "api.trustlesswork.com"
      → IsMainnet host config

is_text_iff : (s : String) (o : Option String) → (is_text s o ≡ true) ↔ (o ≡ some s)
is_text_iff s none = ground arith
is_text_iff s (some t) = ground (arith, eq_iff t s)

host_signal-nil : (h : Option String) → host_signal h ≡ [] → h ≢ some "api.trustlesswork.com"
unfolding host_signal
host_signal-nil none e k = cc
host_signal-nil (some h) e k = ground (arith, eq_iff h "api.trustlesswork.com")

url_signal-nil :
    (host : String → Option String) (o : Option String) (url : String)
    → is_blank url ≡ false
    → o ≡ some url
    → url_signal host o ≡ []
    → host url ≢ some "api.trustlesswork.com"
unfolding url_signal
url_signal-nil host none url there k e = cc
url_signal-nil host (some u) url there k e =
    let same : u ≡ url = cc in host_signal-nil (host url) (rw there at (rw same at e))

append-nil : (xs ys : List String) → xs ++ ys ≡ [] → (xs ≡ []) × (ys ≡ [])
append-nil [] ys e = (refl, e)
append-nil (x ∷ xs) ys e = cc

-- What a configuration without signals says.
abbrev pub IsTest : (String → Option String) → NetworkGuardConfig → Type 0
IsTest host config =
    (is_text "mainnet" config.stellar_network ≡ false)
    × (url_signal host config.trustless_work_api_url ≡ [])

pub signals-nil :
    (host : String → Option String) (config : NetworkGuardConfig)
    → mainnet_signals host config ≡ []
    → IsTest host config
unfolding mainnet_signals
signals-nil host config e = elim (Bool-cases (is_text "mainnet" config.stellar_network)) [
  | inl main ↦ let k = rw main at e in cc
  | inr test ↦ (test, rw test at e)
]

-- Not a text whose host is the production API's.
abbrev pub IsTestUrl : (String → Option String) → String → Type 0
IsTestUrl host url = host url ≢ some "api.trustlesswork.com"

network-testnet :
    (o : Option String) (n : Network)
    → is_text "mainnet" o ≡ false
    → network_of (unset_if_blank o) ≡ some n
    → n ≡ testnet
unfolding network_of unset_if_blank
network-testnet none n test e = cc
network-testnet (some s) n test e = ground (arith, eq_iff s "testnet", eq_iff s "mainnet")

blank-trim : (s : String) → is_blank (trim s) ≡ false → is_blank s ≡ false
unfolding trim drop_spaces drop_last_spaces
blank-trim s there = elim (Bool-cases (is_blank s)) [
  | inl blank ↦
      let k : is_blank (trim "") ≡ false =
        subst (λ t. is_blank (trim t) ≡ false) ((eq_iff s "").0 blank) there in
      cc
  | inr full ↦ full
]

default-IsTestUrl :
    (host : String → Option String) (url : String)
    → host default_api_url ≡ some "dev.api.trustlesswork.com"
    → some default_api_url ≡ some url
    → IsTestUrl host url
default-IsTestUrl host url dev e bad =
    let same : default_api_url ≡ url = cc in
    let k : ◌≡◌ {A = Option String} (some "dev.api.trustlesswork.com")
        (some "api.trustlesswork.com") =
      sym dev ∙ ap host same ∙ bad in
    ground (arith, eq_iff "dev.api.trustlesswork.com" "api.trustlesswork.com")

given-IsTestUrl :
    (host : String → Option String) (s url : String)
    → is_blank s ≡ false
    → url_signal host (some s) ≡ []
    → (h : Option String) → host s ≡ h
    → elim h as (λ _. Option String) [ none ↦ none | some _ ↦ some s ] ≡ some url
    → IsTestUrl host url
given-IsTestUrl host s url there quiet none k e = cc
given-IsTestUrl host s url there quiet (some h) k e =
    let same : s ≡ url = cc in
    url_signal-nil host (some s) url (rw same at there) (ap some same) quiet

url-IsTestUrl :
    (host : String → Option String) (o : Option String) (url : String)
    → host default_api_url ≡ some "dev.api.trustlesswork.com"
    → url_signal host o ≡ []
    → api_url_of host (unset_if_blank o) ≡ some url
    → IsTestUrl host url
unfolding unset_if_blank api_url_of
url-IsTestUrl host none url dev quiet e = default-IsTestUrl host url dev e
url-IsTestUrl host (some s) url dev quiet e = elim (Bool-cases (is_blank (trim s))) [
  | inl blank ↦ default-IsTestUrl host url dev (rw blank at e)
  | inr full ↦ given-IsTestUrl host s url (blank-trim s full) quiet (host s) refl (rw full at e)
]

made : (a b : Env) → some a ≡ some b → a ≡ b
made a b e = cc

env_with-parts :
    (url : Option String) (n : Option Network) (key secret : Option String) (env : Env)
    → env_with url n key secret ≡ some env
    → (url ≡ some env.trustless_work_api_url) × (n ≡ some env.stellar_network)
unfolding env_with
env_with-parts (some url) (some n) key secret env e = elim (Bool-cases (is_secret secret)) [
  | inl good ↦
      let k = rw good at e in
      (
        ap (λ r. some r.trustless_work_api_url) (made _ env k),
        ap (λ r. some r.stellar_network) (made _ env k),
      )
  | inr bad ↦ let k = rw bad at e in cc
]
env_with-parts none n key secret env e = cc
env_with-parts (some url) none key secret env e = cc

-- The environment of a configuration without signals signs for testnet, and its API is not mainnet's.
pub validate_env-test :
    (host : String → Option String) (key secret : Option String) (config : NetworkGuardConfig)
    (env : Env)
    → host default_api_url ≡ some "dev.api.trustlesswork.com"
    → IsTest host config
    → validate_env host key secret config ≡ some env
    → (env.stellar_network ≡ testnet) × IsTestUrl host env.trustless_work_api_url
unfolding validate_env
validate_env-test host key secret config env dev (test, quiet) e =
    let (u, n) = env_with-parts _ _ _ _ env e in
    (
      network-testnet config.stellar_network env.stellar_network test n,
      url-IsTestUrl host config.trustless_work_api_url env.trustless_work_api_url dev quiet u,
    )

allowed-nil :
    (reasons : List String) (label : String) → blocked_or false reasons label ≡ none → reasons ≡ []
unfolding blocked_or
allowed-nil [] label e = refl
allowed-nil (r ∷ reasons) label e = cc

-- What the guard lets pass outside production has no signal.
pub allowed-IsTest :
    (lower : String → String) (host : String → Option String) (config : NetworkGuardConfig)
    → is_production_environment lower config ≡ false
    → assert_mainnet_submission_allowed lower host config ≡ none
    → IsTest host config
unfolding assert_mainnet_submission_allowed
allowed-IsTest lower host config aside e = signals-nil host config (allowed-nil _ _ (rw aside at e))

-- What takes the slashes away leaves no slash at the end.
pub strip-strip : (s : String) → strip_slashes (strip_slashes s) ≡ strip_slashes s
unfolding strip_slashes
strip-strip String.[] = refl
strip-strip (String.◌∷◌ c s) =
    let again = strip-strip s in
    elim (Bool-cases ((code c == b'/') && is_blank (strip_slashes s))) [
      | inl gone ↦ rw gone refl
      | inr stays ↦ rw (stays, again, stays) refl
    ]
