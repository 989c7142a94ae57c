-- ===== src/Backend/TransferRoutes/Examples.antt =====
-- The theorems on the routes of transfers at concrete requests.
use stellar_true_stub.Common.{
  ℕ, ◌≡◌, refl, String, Option, none, some, List, [], ◌∷◌, ◌++◌, Mem, ok, if◌then◌else◌, str_eq,
}
use stellar_true_stub.Backend.Auth.{User, no_header, authenticate, require_auth}
use stellar_true_stub.Backend.Transfer.{
  OwnershipTransfer, accepted, accept, step, acquire, advance, is_valid, task_at, release,
  release_to, leave, drop_task, set_task, insert_if_absent, finalize_read, initiated, is_pending,
}
use stellar_true_stub.Backend.Transfer.Serial.{start}
use stellar_true_stub.Backend.TransferRoutes.{
  Event, request, resume, to_initiate, to_finalize, serve, route, get_verified_user_id,
  get_transfer, done, refused,
}
use stellar_true_stub.Backend.TransferRoutes.Owner.{run, Initiates, run-from_owner}
use stellar_true_stub.Backend.TransferRoutes.Actor.{finalize-any_caller}

abbrev verify : String → Option User
verify token =
    if str_eq token "ann's"
    then some (record { uid = some "ann"; role = none; hasura_role = none })
    else if str_eq token "bob's"
    then some (record { uid = some "bob"; role = none; hasura_role = none })
    else if str_eq token "eve's"
    then some (record { uid = some "eve"; role = none; hasura_role = none })
    else none

-- Ann gives the ticket to Bob, and Eve accepts it.
abbrev initiation : List (Event × ℕ)
initiation =
    (
      request (
          to_initiate (some "Bearer ann's")
            (some (record { transfer_id = "t1"; escrow_id = "e1"; to_owner = "bob" }))),
      1,
    )
    ∷ (resume 0, 2)
    ∷ []

abbrev requests : List (Event × ℕ)
requests =
    initiation
    ++ (request (to_finalize accept (some "Bearer eve's") "t1"), 3)
      ∷ (resume 0, 4)
      ∷ (resume 0, 5)
      ∷ []

abbrev given : OwnershipTransfer
given = record {
  transfer_id = "t1";
  escrow_id = "e1";
  from_owner = "ann";
  to_owner = "bob";
  state = accepted;
  initiated_at = 2;
  finalized_at = some 5;
}

is_given : (run verify "t1" requests start).stored ≡ some given
unfolding run serve route get_verified_user_id require_auth authenticate step acquire advance
    is_valid task_at release release_to leave drop_task set_task insert_if_absent finalize_read
    initiated is_pending
is_given = refl

run-from_owner_example : (x : Event × ℕ) × Mem x requests × Initiates verify "ann" x
run-from_owner_example = run-from_owner verify "t1" requests given is_given

bob_known : get_verified_user_id verify (some "Bearer bob's") ≡ ok "bob"
unfolding get_verified_user_id require_auth authenticate
bob_known = refl

eve_known : get_verified_user_id verify (some "Bearer eve's") ≡ ok "eve"
unfolding get_verified_user_id require_auth authenticate
eve_known = refl

finalize-any_caller_example :
    serve verify "t1"
      (request (to_finalize accept (some "Bearer bob's") "t1"))
      3
      (run verify "t1" initiation start)
    ≡ serve verify "t1"
        (request (to_finalize accept (some "Bearer eve's") "t1"))
        3
        (run verify "t1" initiation start)
finalize-any_caller_example =
    finalize-any_caller verify "t1" 3 (run verify "t1" initiation start) accept "t1"
      (some "Bearer bob's") (some "Bearer eve's") "bob" "eve" bob_known eve_known

-- Whoever carries a token may read any transfer.
shows_anyone :
    (get_transfer verify (some "Bearer eve's") (some given) ≡ done given)
    × (get_transfer verify none (some given) ≡ refused no_header)
unfolding get_transfer require_auth authenticate
shows_anyone = (refl, refl)
