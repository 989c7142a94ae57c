-- ===== src/Backend/Changelog.antt =====
-- apps/backend/src/services/changelog.service.ts over its in-memory store: write-once entries, and
-- the events that each observer receives, the latest first. `M` is the type of the metadata, and
-- `copy` what `JSON.parse(JSON.stringify(…))` makes of them. An append has an `await` between the
-- test that its id is free and the write: `check_append` and `commit_append` are the two parts.
-- The request id is an argument. An ISO text is its milliseconds.
pub mod Replay
pub mod WriteOnce
mod Examples
use Prim.Native.String
use stellar_true_stub.Common.{
  ℕ, String, Bool, true, false, ◌||◌, Option, none, some, List, [], ◌∷◌, if◌then◌else◌, Result, ok,
  err, or_else,
}
use stellar_true_stub.Map
use stellar_true_stub.Map.{Map}
use stellar_true_stub.Backend.AppError.{AppError, is_blank}

pub record ChangelogEntry (M : Type 0) : Type 0 where
  pub entry_id : String
  pub action : String
  pub actor_id : String
  pub resource_id : String
  pub timestamp : ℕ
  pub metadata : Option M
  pub request_id : Option String

pub data EventType : Type 0 where
  entry_appended entry_removed : EventType

pub record ChangelogEvent (M : Type 0) : Type 0 where
  pub type : EventType
  pub entry : ChangelogEntry M
  pub occurred_at : ℕ
  pub request_id : Option String

-- The argument of `appendEntry`; a request id that is not given is the caller's.
pub record Payload (M : Type 0) : Type 0 where
  pub entry_id : String
  pub action : String
  pub actor_id : String
  pub resource_id : String
  pub metadata : Option M
  pub request_id : Option String

-- `CHANGELOG_ACTIONS`.
pub data ChangelogAction : Type 0 where
  refund_submitted refund_completed transfer_completed : ChangelogAction

abbrev pub action_text : ChangelogAction → String
action_text refund_submitted = "refund.submitted"
action_text refund_completed = "refund.completed"
action_text transfer_completed = "transfer.completed"

abbrev pub invalid_payload : AppError
invalid_payload = record { status_code = 400; code = "CHANGELOG_INVALID_PAYLOAD" }

abbrev pub duplicate_entry : AppError
duplicate_entry = record { status_code = 409; code = "CHANGELOG_DUPLICATE_ENTRY" }

abbrev pub update_forbidden : AppError
update_forbidden = record { status_code = 409; code = "CHANGELOG_UPDATE_FORBIDDEN" }

abbrev pub entry_not_found : AppError
entry_not_found = record { status_code = 404; code = "CHANGELOG_ENTRY_NOT_FOUND" }

-- The store, and the events that have been emitted.
pub record State (M : Type 0) : Type 0 where
  pub store : Map (ChangelogEntry M)
  pub events : List (ChangelogEvent M)

join : String → String → String
join String.[] t = t
join (String.◌∷◌ c s) t = String.◌∷◌ c (join s t)

-- `${action}:${resourceId}`.
pub movement_id : ChangelogAction → String → String
unfolding join
movement_id action resource = join (action_text action) (join ":" resource)

abbrev copied : {M : Type 0} → (M → M) → Option M → Option M
copied copy none = none
copied copy (some m) = some (copy m)

module _ {M : Type 0} where
  pub entry_of : (M → M) → Payload M → ℕ → ChangelogEntry M
  entry_of copy p now = record {
    entry_id = p.entry_id;
    action = p.action;
    actor_id = p.actor_id;
    resource_id = p.resource_id;
    timestamp = now;
    metadata = copied copy p.metadata;
    request_id = p.request_id;
  }

  -- The checks of `appendEntry`: the error that it throws, if it throws one.
  unfoldable pub check_append : Payload M → Map (ChangelogEntry M) → Option AppError
  check_append p store =
      if is_blank p.entry_id || is_blank p.action || is_blank p.actor_id || is_blank p.resource_id
      then some invalid_payload
      else if Map.has p.entry_id store
      then some duplicate_entry
      else none

  -- The write of `appendEntry`, and its event.
  unfoldable pub commit_append : (M → M) → Payload M → ℕ → State M → State M
  unfolding entry_of
  commit_append copy p now s = record {
    store = Map.set p.entry_id (entry_of copy p now) s.store;
    events =
        record {
          type = entry_appended;
          entry = entry_of copy p now;
          occurred_at = now;
          request_id = p.request_id;
        }
        ∷ s.events;
  }

  append_checked :
      (M → M)
      → Payload M
      → ℕ
      → Option AppError
      → State M
      → State M × Result AppError (ChangelogEntry M)
  append_checked copy p now (some e) s = (s, err e)
  append_checked copy p now none s = (commit_append copy p now s, ok (entry_of copy p now))

  pub append_entry :
      (M → M) → Payload M → ℕ → State M → State M × Result AppError (ChangelogEntry M)
  unfolding append_checked
  append_entry copy p now s = append_checked copy p now (check_append p s.store) s

  movement_payload : ChangelogAction → String → String → Option M → Option String → Payload M
  movement_payload action actor resource metadata request = record {
    entry_id = movement_id action resource;
    action = action_text action;
    actor_id = actor;
    resource_id = resource;
    metadata = metadata;
    request_id = request;
  }

  movement_over :
      (M → M)
      → Payload M
      → ℕ
      → Option (ChangelogEntry M)
      → State M
      → State M × Result AppError (ChangelogEntry M)
  movement_over copy p now (some existing) s = (s, ok existing)
  movement_over copy p now none s = append_entry copy p now s

  pub record_money_movement :
      (M → M)
      → ChangelogAction
      → String
      → String
      → Option M
      → Option String
      → ℕ
      → State M
      → State M × Result AppError (ChangelogEntry M)
  unfolding movement_payload movement_over
  record_money_movement copy action actor resource metadata request now s =
      movement_over copy (movement_payload action actor resource metadata request) now
        (Map.get (movement_id action resource) s.store) s

  pub update_entry : String → State M → State M × Result AppError (ChangelogEntry M)
  update_entry id s = (s, err update_forbidden)

  remove_over :
      String
      → Option String
      → ℕ
      → Option (ChangelogEntry M)
      → State M
      → State M × Result AppError (ChangelogEntry M)
  remove_over id request now none s = (s, err entry_not_found)
  remove_over id request now (some e) s = (
    record {
      store = Map.remove id s.store;
      events =
          record {
            type = entry_removed;
            entry = e;
            occurred_at = now;
            request_id = or_else e.request_id request;
          }
          ∷ s.events;
    },
    ok e,
  )

  pub remove_entry :
      String → Option String → ℕ → State M → State M × Result AppError (ChangelogEntry M)
  unfolding remove_over
  remove_entry id request now s =
      if is_blank id
      then (s, err invalid_payload)
      else remove_over id request now (Map.get id s.store) s

  pub get_entry : String → State M → Option (ChangelogEntry M)
  get_entry id s = Map.get id s.store
