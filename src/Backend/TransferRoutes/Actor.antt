-- ===== src/Backend/TransferRoutes/Actor.antt =====
-- What the answer of transfers.ts depends on the caller for.
use stellar_true_stub.Common.{◌≡◌, refl, ℕ, String, Option, ok}
use stellar_true_stub.Backend.Auth.{User}
use stellar_true_stub.Backend.Transfer.{Outcome, World}
use stellar_true_stub.Backend.TransferRoutes.{
  request, to_finalize, serve, route, get_verified_user_id,
}

-- Whoever the parties of a transfer are, a request to accept or cancel it changes the same and is
-- answered the same for any two callers with a verified id.
pub finalize-any_caller :
    (verify : String → Option User) (id : String) (now : ℕ) (w : World) (outcome : Outcome)
    (transfer : String) (one two : Option String) (a b : String)
    → get_verified_user_id verify one ≡ ok a
    → get_verified_user_id verify two ≡ ok b
    → serve verify id (request (to_finalize outcome one transfer)) now w
      ≡ serve verify id (request (to_finalize outcome two transfer)) now w
unfolding serve route
finalize-any_caller verify id now w outcome transfer one two a b first second =
    rw (first, second) refl
