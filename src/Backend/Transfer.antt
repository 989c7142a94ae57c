-- ===== src/Backend/Transfer.antt =====
-- apps/backend/src/services/ownership-transfer.service.ts over its in-memory store. Every call
-- works under the lock of its transfer id and reads or writes no other key, so a world is what
-- belongs to one id: its record, its `Lock`, and the calls inside the lock, which other calls
-- interleave with at each `await`. Logging and Sentry are left out. An ISO text is its milliseconds.
pub mod Serial
pub mod Draining
pub mod Owner
mod Examples
use stellar_true_stub.Common.{
  ℕ, zero, suc, String, Bool, true, false, ◌||◌, Option, none, some, List, [], ◌∷◌, ◌++◌,
  if◌then◌else◌, Result, ok, err,
}
use stellar_true_stub.Backend.AppError.{AppError, is_blank}

pub data TransferState : Type 0 where
  pending accepted cancelled : TransferState

pub record OwnershipTransfer : Type 0 where
  pub transfer_id : String
  pub escrow_id : String
  pub from_owner : String
  pub to_owner : String
  pub state : TransferState
  pub initiated_at : ℕ
  pub finalized_at : Option ℕ

abbrev pub not_found : AppError
not_found = record { status_code = 404; code = "TRANSFER_NOT_FOUND" }

abbrev pub already_finalized : AppError
already_finalized = record { status_code = 409; code = "TRANSFER_ALREADY_FINALIZED" }

abbrev pub invalid_payload : AppError
invalid_payload = record { status_code = 400; code = "TRANSFER_INVALID_PAYLOAD" }

abbrev pub conflict : AppError
conflict = record { status_code = 409; code = "TRANSFER_CONFLICT" }

pub data Outcome : Type 0 where
  accept cancel : Outcome

abbrev pub next_state : Outcome → TransferState
next_state accept = accepted
next_state cancel = cancelled

-- A call on the transfer: `initiateTransfer` with its other arguments, or `finalize`.
pub data Call : Type 0 where
  initiate : String → String → String → Call
  finalize : Outcome → Call

-- A call inside the lock: at its start, or (only `finalize`) after `await this.store.get`.
pub data Task : Type 0 where
  entered : Call → Task
  has_read : Outcome → Option OwnershipTransfer → Task

pub record World : Type 0 where
  pub stored : Option OwnershipTransfer
  pub locked : Bool
  pub queue : List Call
  pub running : List Task

-- `Lock.acquire`: the call goes on, or waits behind the others.
unfoldable pub acquire : Call → World → World
acquire call w =
    if w.locked
    then record w { queue = w.queue ++ (call ∷ []) }
    else record w { locked = true; running = entered call ∷ w.running }

-- `Lock.release` hands the lock over to the first that waits.
unfoldable pub release_to : List Call → World → World
release_to [] w = record w { locked = false }
release_to (next ∷ rest) w = record w { queue = rest; running = entered next ∷ w.running }

unfoldable pub release : World → World
unfolding release_to
release w = release_to w.queue w

unfoldable pub task_at : ℕ → List Task → Option Task
task_at i [] = none
task_at zero (t ∷ ts) = some t
task_at (suc i) (t ∷ ts) = task_at i ts

unfoldable pub drop_task : ℕ → List Task → List Task
drop_task i [] = []
drop_task zero (t ∷ ts) = ts
drop_task (suc i) (t ∷ ts) = t ∷ drop_task i ts

unfoldable pub set_task : ℕ → Task → List Task → List Task
set_task i u [] = []
set_task zero u (t ∷ ts) = u ∷ ts
set_task (suc i) u (t ∷ ts) = t ∷ set_task i u ts

-- The call at `i` ends: it stores what it stores, and releases the lock.
unfoldable pub leave : ℕ → Option OwnershipTransfer → World → World
unfolding release drop_task
leave i new w = release (record w { stored = new; running = drop_task i w.running })

unfoldable pub is_pending : TransferState → Bool
is_pending pending = true
is_pending _ = false

-- The record of `initiateTransfer`.
unfoldable pub initiated : String → String → String → String → ℕ → OwnershipTransfer
initiated id escrow seller buyer now = record {
  transfer_id = id;
  escrow_id = escrow;
  from_owner = seller;
  to_owner = buyer;
  state = pending;
  initiated_at = now;
  finalized_at = none;
}

-- `insertIfAbsent`.
unfoldable pub insert_if_absent :
    OwnershipTransfer
    → Option OwnershipTransfer
    → Option OwnershipTransfer × Result AppError OwnershipTransfer
insert_if_absent r none = (some r, ok r)
insert_if_absent r (some old) = (some old, err conflict)

-- What `finalize` does after its read: what it stores over `stored`, and its answer.
unfoldable pub finalize_read :
    Outcome
    → ℕ
    → Option OwnershipTransfer
    → Option OwnershipTransfer
    → Option OwnershipTransfer × Result AppError OwnershipTransfer
unfolding is_pending
finalize_read outcome now none stored = (stored, err not_found)
finalize_read outcome now (some r) stored =
    let after : OwnershipTransfer = record r {
      state = next_state outcome;
      finalized_at = some now;
    } in
    if is_pending r.state then (some after, ok after) else (stored, err already_finalized)

abbrev ending :
    ℕ
    → Option OwnershipTransfer × Result AppError OwnershipTransfer
    → World
    → World × Option (Result AppError OwnershipTransfer)
ending i (new, answer) w = (leave i new w, some answer)

unfoldable pub advance :
    String → ℕ → ℕ → Option Task → World → World × Option (Result AppError OwnershipTransfer)
unfolding leave insert_if_absent finalize_read initiated set_task
advance id now i none w = (w, none)
advance id now i (some (entered (initiate escrow seller buyer))) w =
    ending i (insert_if_absent (initiated id escrow seller buyer now) w.stored) w
advance id now i (some (entered (finalize outcome))) w =
    (record w { running = set_task i (has_read outcome w.stored) w.running }, none)
advance id now i (some (has_read outcome seen)) w =
    ending i (finalize_read outcome now seen w.stored) w

-- The check of the arguments, before the lock.
unfoldable pub is_valid : String → Call → Bool
is_valid id (initiate escrow seller buyer) =
    if is_blank id || is_blank escrow || is_blank seller || is_blank buyer then false else true
is_valid id (finalize outcome) = if is_blank id then false else true

-- A call arrives, or one of those inside the lock goes on to its next `await` or its end.
pub data Step : Type 0 where
  arrive : Call → Step
  go_on : ℕ → Step

-- A step at a time, with the answer of the call that ends with it.
unfoldable pub step : String → Step → ℕ → World → World × Option (Result AppError OwnershipTransfer)
unfolding acquire advance is_valid task_at
step id (arrive call) now w =
    if is_valid id call then (acquire call w, none) else (w, some (err invalid_payload))
step id (go_on i) now w = advance id now i (task_at i w.running) w
