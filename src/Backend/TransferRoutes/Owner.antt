-- ===== src/Backend/TransferRoutes/Owner.antt =====
-- Who owns what transfers.ts transfers: the caller behind the verified token, whatever the body says.
use stellar_true_stub.Common.{
  ℕ, ◌≡◌, refl, inl, inr, Bool-cases, String, Option, none, some, List, [], ◌∷◌, Result, ok, err,
  str_eq, Mem, here, there, arith, subst,
}
use stellar_true_stub.Backend.Auth.{User, Refusal, require_auth}
use stellar_true_stub.Backend.Auth.Admin.{Carries, require_auth-Carries}
use stellar_true_stub.Backend.Transfer.{OwnershipTransfer, Call, World, arrive, go_on}
use stellar_true_stub.Backend.Transfer.Serial.{IsSerial, start, step-IsSerial}
use stellar_true_stub.Backend.Transfer.Owner.{Names, Brings, IsOwned, step-IsOwned}
use stellar_true_stub.Backend.TransferRoutes.{
  Fields, to_initiate, to_finalize, Reply, Event, request, resume, present, user_id, initiate_with,
  finalize_with, called, get_verified_user_id, route, serve,
}

present-ok : (o : Option String) (uid : String) → present o ≡ ok uid → o ≡ some uid
present-ok none uid h = absurd (ground (arith, h))
present-ok (some s) uid h = ground (arith, h)

user_id-ok :
    (a : Result Refusal User) (uid : String)
    → user_id a ≡ ok uid
    → (user : User) × (a ≡ ok user) × (user.uid ≡ some uid)
user_id-ok (err refusal) uid h = absurd (ground (arith, h))
user_id-ok (ok user) uid h = (user, refl, present-ok user.uid uid h)

module _ (verify : String → Option User) where
  -- The event is a request to initiate, with a token behind which the verifier finds this id.
  abbrev pub Initiates : String → Event × ℕ → Type 0
  Initiates seller (request (to_initiate header body), now) =
      (user : User) × Carries verify header user × (user.uid ≡ some seller)
  Initiates seller _ = ⊥

  verified :
      (header : Option String) (uid : String)
      → get_verified_user_id verify header ≡ ok uid
      → (user : User) × Carries verify header user × (user.uid ≡ some uid)
  unfolding get_verified_user_id
  verified header uid h =
      let (user, passed, same) = user_id-ok (require_auth verify header) uid h in
      (user, require_auth-Carries verify header user passed, same)

  module _ (id : String) where
    unfoldable pub run : List (Event × ℕ) → World → World
    run [] w = w
    run ((e, now) ∷ rest) w = run rest (serve verify id e now w).0

    module _ (P : String → Type 0) where
      abbrev IsGood : World → Type 0
      IsGood w = IsSerial w × IsOwned P w

      abbrev CallBrings : Result Reply (String × Call) → Type 0
      CallBrings (err reply) = Unit
      CallBrings (ok (transfer, call)) = Brings P call

      called-IsGood :
          (now : ℕ) (w : World) (c : Result Reply (String × Call))
          → CallBrings c
          → IsGood w
          → IsGood (called id now w c).0
      called-IsGood now w (err reply) brought good = good
      called-IsGood now w (ok (transfer, call)) brought (serial, owned) =
          elim (Bool-cases (str_eq transfer id)) [
            | inl same ↦ rw same (
              step-IsSerial id (arrive call) now w serial,
              step-IsOwned P id (arrive call) now w serial brought owned,
            )
            | inr another ↦ rw another (serial, owned)
          ]

      initiate-CallBrings :
          (body : Option Fields) (a : Result Reply String)
          → ((uid : String) → a ≡ ok uid → P uid)
          → CallBrings (initiate_with body a)
      initiate-CallBrings body (err reply) brought = tt
      initiate-CallBrings none (ok uid) brought = tt
      initiate-CallBrings (some b) (ok uid) brought = brought uid refl

      finalize-CallBrings :
          (outcome : _) (transfer : String) (a : Result Reply String)
          → CallBrings (finalize_with outcome transfer a)
      finalize-CallBrings outcome transfer (err reply) = tt
      finalize-CallBrings outcome transfer (ok actor) = tt

      serve-IsGood :
          (e : Event) (now : ℕ) (w : World)
          → ((seller : String) → Initiates seller (e, now) → P seller)
          → IsGood w
          → IsGood (serve verify id e now w).0
      unfolding serve route
      serve-IsGood (request (to_initiate header body)) now w brought good =
          called-IsGood now w _
            (initiate-CallBrings body (get_verified_user_id verify header)
              (λ uid h. brought uid (verified header uid h)))
            good
      serve-IsGood (request (to_finalize outcome header transfer)) now w brought good =
          called-IsGood now w _
            (finalize-CallBrings outcome transfer (get_verified_user_id verify header)) good
      serve-IsGood (resume i) now w brought (serial, owned) = (
        step-IsSerial id (go_on i) now w serial,
        step-IsOwned P id (go_on i) now w serial tt owned,
      )

      run-IsGood :
          (events : List (Event × ℕ)) (w : World)
          → ((seller : String) (x : Event × ℕ) → Mem x events → Initiates seller x → P seller)
          → IsGood w
          → IsGood (run events w)
      unfolding run
      run-IsGood [] w brought good = good
      run-IsGood ((e, now) ∷ rest) w brought good =
          run-IsGood rest (serve verify id e now w).0
            (λ seller x later. brought seller x (there later))
            (serve-IsGood e now w (λ seller. brought seller (e, now) (here refl)) good)

  -- However requests on a transfer that is unknown at first arrive and interleave, the owner that
  -- its record names is the id that the verifier finds behind the bearer token of one of the
  -- requests to initiate.
  pub run-from_owner :
      (id : String) (events : List (Event × ℕ)) (r : OwnershipTransfer)
      → (run id events start).stored ≡ some r
      → (x : Event × ℕ) × Mem x events × Initiates r.from_owner x
  run-from_owner id events r h =
      let P : String → Type 0 = λ s. (x : Event × ℕ) × Mem x events × Initiates s x in
      let (_, owned) =
        run-IsGood id P events start (λ s x m i. (x, m, i)) ((refl, refl), (tt, tt, tt)) in
      subst (λ o. Names P o) h owned.0
