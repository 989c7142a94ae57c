-- ===== src/Backend/Executor/Network.antt =====
-- Where a refund may go: the executor of refund.service.ts with the guard and the client.
use stellar_true_stub.Common.{◌≡◌, refl, sym, ◌∙◌, String, false, Option, none, some, List, All}
use stellar_true_stub.Backend.Network.{
  NetworkGuardConfig, is_production_environment, testnet, Env, default_api_url, validate_env,
  strip_slashes,
}
use stellar_true_stub.Backend.Network.Guard.{IsTestUrl, validate_env-test, allowed-IsTest}
use stellar_true_stub.Backend.Refund.{ClaimedRefund}
use stellar_true_stub.Backend.TrustlessWork.{Kit, Effect, Response}
use stellar_true_stub.Backend.TrustlessWork.TestOnly.{TestOnly, resolve_dispute-TestOnly}
use stellar_true_stub.Backend.Executor.{execute_unless, execute, resolution_of}

-- The parser of URLs takes the same host out of a URL without the slashes at its end.
abbrev pub KeepsHost : (String → Option String) → Type 0
KeepsHost host = (url : String) → host (strip_slashes url) ≡ host url

unless-TestOnly :
    {Amount Number : Type 0} (number : Option Amount → Number) (lower : String → String)
    (host : String → Option String) (kit : Kit) (remote : Effect Number → Response)
    (config : NetworkGuardConfig) (env : Env) (ambient : Option String)
    (claim : ClaimedRefund Amount) (o : Option (List String))
    → (o ≡ none
        → (env.stellar_network ≡ testnet)
          × IsTestUrl host (strip_slashes env.trustless_work_api_url))
    → All (TestOnly host) (execute_unless number lower host kit remote config env ambient o claim).0
unfolding execute_unless
unless-TestOnly number lower host kit remote config env ambient claim (some reasons) safe = tt
unless-TestOnly number lower host kit remote config env ambient claim none safe =
    let (net, url) = safe refl in
    resolve_dispute-TestOnly host kit remote env ambient (resolution_of number claim) url net

-- Outside production (NODE_ENV is not "production", or CI is set), whatever the networks and URLs that
-- the process is started with, the executor sends no request to the host of the production API and
-- signs nothing for another network than testnet. The environment is the validated one of the same
-- process, and the parser of URLs reads the default URL and keeps hosts as documented.
pub execute-TestOnly :
    {Amount Number : Type 0} (number : Option Amount → Number) (lower : String → String)
    (host : String → Option String) (kit : Kit) (remote : Effect Number → Response)
    (config : NetworkGuardConfig) (key secret : Option String) (env : Env) (ambient : Option String)
    (claim : ClaimedRefund Amount)
    → is_production_environment lower config ≡ false
    → validate_env host key secret config ≡ some env
    → host default_api_url ≡ some "dev.api.trustlesswork.com"
    → KeepsHost host
    → All (TestOnly host) (execute number lower host kit remote config env ambient claim).0
unfolding execute
execute-TestOnly number lower host kit remote config key secret env ambient claim aside valid dev
      keeps =
    unless-TestOnly number lower host kit remote config env ambient claim _ (λ allowed.
      let (net, url) =
        validate_env-test host key secret config env dev
          (allowed-IsTest lower host config aside allowed) valid in
      (net, λ bad. url (sym (keeps env.trustless_work_api_url) ∙ bad)))
