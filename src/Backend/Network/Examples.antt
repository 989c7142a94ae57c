-- ===== src/Backend/Network/Examples.antt =====
-- The guard and the environment of refunds at concrete configurations.
use stellar_true_stub.Common.{
  ◌≡◌, refl, String, true, false, Option, none, some, [], ◌∷◌, map, is_space, if◌then◌else◌, str_eq,
}
use stellar_true_stub.Backend.Network.{
  NetworkGuardConfig, strip_slashes, is_truthy_flag, mainnet_signals, is_production_environment,
  assert_mainnet_submission_allowed, validate_env,
}

abbrev same_text : String → String
same_text s = s

-- A stand-in for the parser of URLs.
abbrev host_of : String → Option String
host_of url =
    if str_eq url "https://api.trustlesswork.com/"
    then some "api.trustlesswork.com"
    else if str_eq url "https://x"
    then some "x"
    else none

flags :
    map (is_truthy_flag same_text) (none ∷ some "" ∷ some " off " ∷ some "true" ∷ [])
    ≡ false ∷ false ∷ false ∷ true ∷ []
unfolding is_truthy_flag is_space
flags = refl

slashes : strip_slashes "a/b//" ≡ "a/b"
unfolding strip_slashes
slashes = refl

abbrev pointed : NetworkGuardConfig
pointed = record {
  node_env = some "test";
  stellar_network = some "testnet";
  trustless_work_api_url = some "https://api.trustlesswork.com/";
  ci = none;
}

blocks :
    assert_mainnet_submission_allowed same_text host_of pointed
    ≡ some ("NODE_ENV=test" ∷ "TRUSTLESS_WORK_API_URL points at api.trustlesswork.com" ∷ [])
unfolding assert_mainnet_submission_allowed is_production_environment is_truthy_flag mainnet_signals
blocks = refl

-- A network that the schema does not know stops the process.
unknown_network :
    validate_env host_of none none (record pointed { stellar_network = some "futurenet" }) ≡ none
unfolding validate_env is_space
unknown_network = refl
