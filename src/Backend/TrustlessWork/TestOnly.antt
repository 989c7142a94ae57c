-- ===== src/Backend/TrustlessWork/TestOnly.antt =====
-- The client of trustless-work.ts with a configuration for testnet: what it sends and signs.
use stellar_true_stub.Common.{
  ◌≡◌, refl, sym, ap, ◌∙◌, or_else, subst, inl, inr, String, Option, none, some, List, [], ◌∷◌,
  Bool-cases, Result, ok, err, All, All-append,
}
use stellar_true_stub.Backend.AppError.{is_blank}
use stellar_true_stub.Backend.Network.{testnet, Env, strip_slashes}
use stellar_true_stub.Backend.Network.Guard.{IsTestUrl}
use stellar_true_stub.Backend.Refund.{EscrowType, ExecutionError}
use stellar_true_stub.Backend.TrustlessWork.{
  Kit, Effect, posts, gets, signs, Response, Json, ResolveDisputeInput, Config, key_checked,
  config_with, require_trustless_work_config, submit, sign_built, build, resolve_with,
  resolve_dispute, read_answer, resolve_path, built_transaction, build_call,
}

-- What only touches testnet: a request to another host than the production API's, a signature for
-- testnet.
abbrev pub TestOnly : {A : Type 0} → (String → Option String) → Effect A → Type 0
TestOnly host (posts base path key id body) = IsTestUrl host base
TestOnly host (gets base path key id) = IsTestUrl host base
TestOnly host (signs network key xdr) = network ≡ testnet

-- The parser of URLs takes the same host out of a URL without the slashes at its end.
abbrev pub KeepsHost : (String → Option String) → Type 0
KeepsHost host = (url : String) → host (strip_slashes url) ≡ host url

module _ {A : Type 0} (host : String → Option String) (kit : Kit)
    (remote : Effect A → Response) where
  abbrev IsTestConfig : Config → Type 0
  IsTestConfig c = IsTestUrl host c.api_url × (c.network ≡ testnet)

  submit-TestOnly :
      (c : Config) (id : Option String) (done : List (Effect A))
      (signed : Result String (String × String))
      → IsTestConfig c
      → All (TestOnly host) done
      → All (TestOnly host) (submit kit remote c id done signed).0
  unfolding submit
  submit-TestOnly c id done (err message) t h = h
  submit-TestOnly c id done (ok (xdr, hash)) t h = All-append (TestOnly host) done _ h (t.0, tt)

  build-TestOnly :
      (c : Config) (t : EscrowType) (id : Option String) (done : List (Effect A))
      (r : Result ExecutionError Json)
      → IsTestConfig c
      → All (TestOnly host) done
      → All (TestOnly host) (build kit remote c t id done r).0
  unfolding build
  build-TestOnly c t id done (err e) safe h = h
  build-TestOnly c t id done (ok json) safe h =
      sign_built-TestOnly (built_transaction kit remote json.unsigned_transaction)
    where
      sign_built-TestOnly :
          (o : Option String) → All (TestOnly host) (sign_built kit remote c t id done o).0
      sign_built-TestOnly none = h
      sign_built-TestOnly (some xdr) =
          submit-TestOnly c id _ _ safe (All-append (TestOnly host) done _ h (safe.1, tt))

  resolve_with-TestOnly :
      (ambient : Option String) (input : ResolveDisputeInput A) (r : Result ExecutionError Config)
      → ((c : Config) → r ≡ ok c → IsTestConfig c)
      → All (TestOnly host) (resolve_with kit remote ambient input r).0
  unfolding resolve_with build_call
  resolve_with-TestOnly ambient input (err e) safe = tt
  resolve_with-TestOnly ambient input (ok c) safe =
      let id = or_else input.request_id ambient in
      let call = build_call kit remote c id input in
      let answer = read_answer (resolve_path input.escrow_type) id (remote call) in
      build-TestOnly c input.escrow_type id (call ∷ []) answer (safe c refl) ((safe c refl).0, tt)

  key_checked-same : (o : Option String) (d c : Config) → key_checked o d ≡ ok c → d ≡ c
  unfolding key_checked
  key_checked-same none d c e = cc
  key_checked-same (some message) d c e = cc

  config-fields :
      (env : Env) (key secret : Option String) (c : Config)
      → config_with kit env key secret ≡ ok c
      → (c.api_url ≡ strip_slashes env.trustless_work_api_url) × (c.network ≡ env.stellar_network)
  unfolding config_with
  config-fields env none secret c e = cc
  config-fields env (some key) none c e = cc
  config-fields env (some key) (some secret) c e = elim (Bool-cases (is_blank key)) [
    | inl blank ↦ let k = rw blank at e in cc
    | inr there ↦ elim (Bool-cases (is_blank secret)) [
      | inl blank ↦ let k = rw (there, blank) at e in cc
      | inr known ↦
          let same = key_checked-same (kit.from_secret secret) _ c (rw (there, known) at e) in
          (ap (λ d. d.api_url) (sym same), ap (λ d. d.network) (sym same))
    ]
  ]

  pub resolve_dispute-TestOnly :
      (env : Env) (ambient : Option String) (input : ResolveDisputeInput A)
      → IsTestUrl host (strip_slashes env.trustless_work_api_url)
      → env.stellar_network ≡ testnet
      → All (TestOnly host) (resolve_dispute kit remote env ambient input).0
  unfolding resolve_dispute require_trustless_work_config
  resolve_dispute-TestOnly env ambient input url net = resolve_with-TestOnly ambient input _ (λ c e.
      let (u, n) =
        config-fields env env.trustless_work_api_key env.trustless_work_dispute_resolver_secret c
          e in
      (subst (IsTestUrl host) (sym u) url, n ∙ net))
