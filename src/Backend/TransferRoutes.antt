-- ===== src/Backend/TransferRoutes.antt =====
-- apps/backend/src/routes/transfers.ts behind requireAuth, on top of Backend.Transfer. The body of a
-- request to initiate is what its schema makes of it, or nothing where the schema refuses it.
pub mod Owner
pub mod Actor
mod Examples
use stellar_true_stub.Common.{ℕ, String, Option, none, some, if◌then◌else◌, Result, ok, err, str_eq}
use stellar_true_stub.Backend.AppError.{AppError, is_blank}
use stellar_true_stub.Backend.Auth.{User, Refusal, require_auth}
use stellar_true_stub.Backend.Transfer.{
  OwnershipTransfer, Outcome, Call, initiate, finalize, World, arrive, go_on, step, not_found,
  invalid_payload,
}

abbrev pub unauthenticated : AppError
unauthenticated = record { status_code = 401; code = "TRANSFER_UNAUTHENTICATED" }

pub record Fields : Type 0 where
  pub transfer_id : String
  pub escrow_id : String
  pub to_owner : String

-- A POST with its Authorization header: /initiate with its body, and /:transferId/accept or
-- /:transferId/cancel with the id.
pub data Request : Type 0 where
  to_initiate : Option String → Option Fields → Request
  to_finalize : Outcome → Option String → String → Request

pub data Reply : Type 0 where
  refused : Refusal → Reply
  failed : AppError → Reply
  done : OwnershipTransfer → Reply

-- `if (!userId)` on the verified id.
abbrev present : Option String → Result Reply String
present none = err (failed unauthenticated)
present (some uid) = if is_blank uid then err (failed unauthenticated) else ok uid

abbrev user_id : Result Refusal User → Result Reply String
user_id (err refusal) = err (refused refusal)
user_id (ok user) = present user.uid

abbrev initiate_with : Option Fields → Result Reply String → Result Reply (String × Call)
initiate_with body (err reply) = err reply
initiate_with none (ok uid) = err (failed invalid_payload)
initiate_with (some b) (ok uid) = ok (b.transfer_id, initiate b.escrow_id uid b.to_owner)

abbrev finalize_with : Outcome → String → Result Reply String → Result Reply (String × Call)
finalize_with outcome id (err reply) = err reply
finalize_with outcome id (ok actor) = ok (id, finalize outcome)

abbrev reply_of : Result AppError OwnershipTransfer → Reply
reply_of (err e) = failed e
reply_of (ok transfer) = done transfer

abbrev answer_of : Option (Result AppError OwnershipTransfer) → Option Reply
answer_of none = none
answer_of (some answer) = some (reply_of answer)

abbrev shown : Option OwnershipTransfer → Reply
shown none = failed not_found
shown (some transfer) = done transfer

-- A request arrives, or a call of the service goes on.
pub data Event : Type 0 where
  request : Request → Event
  resume : ℕ → Event

-- The call of the service, as far as it is about the transfer `id`.
abbrev called : String → ℕ → World → Result Reply (String × Call) → World × Option Reply
called id now w (err reply) = (w, some reply)
called id now w (ok (other, call)) =
    let (after, answer) = step id (arrive call) now w in
    if str_eq other id then (after, answer_of answer) else (w, none)

module _ (verify : String → Option User) where
  pub get_verified_user_id : Option String → Result Reply String
  get_verified_user_id header = user_id (require_auth verify header)

  -- What a handler answers at once, or the transfer id and the call that it makes.
  pub route : Request → Result Reply (String × Call)
  unfolding get_verified_user_id
  route (to_initiate header body) = initiate_with body (get_verified_user_id header)
  route (to_finalize outcome header id) = finalize_with outcome id (get_verified_user_id header)

  -- GET /:transferId.
  pub get_transfer : Option String → Option OwnershipTransfer → Reply
  get_transfer header stored = elim (require_auth verify header) [
    | err refusal ↦ refused refusal
    | ok user ↦ shown stored
  ]

  pub serve : String → Event → ℕ → World → World × Option Reply
  unfolding route
  serve id (request r) now w = called id now w (route r)
  serve id (resume i) now w =
      let (after, answer) = step id (go_on i) now w in (after, answer_of answer)
