-- ===== src/Frontend/Changelog.antt =====
-- apps/frontend/src/lib/changelog/escrow-changelog.ts: the write-once log of an escrow's life.
-- `M` is the type of a metadata object, whose values the source leaves `unknown`; copying and
-- freezing it keep its value. The logger that is installed is the receiver of `events`, to which
-- each call adds what it emits. `new Date().toISOString()` is the argument `now`.
pub mod Log
pub mod Entries
pub mod Uniqueness
mod Examples
use stellar_true_stub.Common.{
  ℕ, String, Bool, true, false, Option, none, some, List, [], ◌∷◌, ◌++◌, if◌then◌else◌, str_eq, any,
  Result, ok, err, get_or_else,
}
use stellar_true_stub.Map
use stellar_true_stub.Map.{Map}

pub data ChangelogEventKind : Type 0 where
  escrow_created escrow_funded milestone_approved milestone_status_changed : ChangelogEventKind
  funds_released dispute_started dispute_resolved transfer_initiated : ChangelogEventKind
  transfer_completed transfer_cancelled refund_claimed escrow_cancelled custom : ChangelogEventKind

pub record ChangelogEntry (M : Type 0) : Type 0 where
  pub id : String
  pub contract_id : String
  pub kind : ChangelogEventKind
  pub description : String
  pub created_at : String
  pub actor : String
  pub tx_hash : Option String
  pub metadata : Option M

-- The argument of `appendChangelogEntry`, whose `createdAt` may be absent.
pub record NewEntry (M : Type 0) : Type 0 where
  pub id : String
  pub contract_id : String
  pub kind : ChangelogEventKind
  pub description : String
  pub created_at : Option String
  pub actor : String
  pub tx_hash : Option String
  pub metadata : Option M

pub data EventType : Type 0 where
  entry_appended entry_removed changelog_cleared : EventType

pub record ChangelogStoreEvent : Type 0 where
  pub type : EventType
  pub contract_id : Option String
  pub entry_id : Option String
  pub timestamp : String

pub data ChangelogError : Type 0 where
  changelog_immutability : String → ChangelogError
  duplicate_changelog_entry : String → ChangelogError

-- `_changelogStore`, and what the logger has received, the latest last.
pub record State (M : Type 0) : Type 0 where
  pub store : Map (List (ChangelogEntry M))
  pub events : List ChangelogStoreEvent

module _ {M : Type 0} where
  -- `entries.some((e) => e.id === id)`.
  pub holds : String → List (ChangelogEntry M) → Bool
  holds id entries = any (λ e. str_eq e.id id) entries

  -- The loop over `_changelogStore.values()`.
  pub is_taken : String → Map (List (ChangelogEntry M)) → Bool
  unfolding holds
  is_taken id store = any (holds id) (Map.values store)

  pub freeze : NewEntry M → String → ChangelogEntry M
  freeze e now = record {
    id = e.id;
    contract_id = e.contract_id;
    kind = e.kind;
    description = e.description;
    created_at = get_or_else e.created_at now;
    actor = e.actor;
    tx_hash = e.tx_hash;
    metadata = e.metadata;
  }

  emit : ChangelogStoreEvent → State M → State M
  emit event s = record s { events = s.events ++ event ∷ [] }

  pub append_changelog_entry :
      NewEntry M → String → State M → State M × Result ChangelogError (ChangelogEntry M)
  unfolding emit
  append_changelog_entry e now s =
      if is_taken e.id s.store then (s, err (duplicate_changelog_entry e.id)) else (
        emit
            (record {
              type = entry_appended;
              contract_id = some e.contract_id;
              entry_id = some e.id;
              timestamp = (freeze e now).created_at;
            })
            (record s {
              store =
                  Map.set e.contract_id
                    (get_or_else (Map.get e.contract_id s.store) [] ++ freeze e now ∷ []) s.store;
            }),
        ok (freeze e now),
      )

  pub update_changelog_entry :
      String → String → State M → State M × Result ChangelogError (ChangelogEntry M)
  update_changelog_entry c entry_id s = (s, err (changelog_immutability entry_id))

  -- `find((e) => e.id === id)`.
  pub find_entry : String → List (ChangelogEntry M) → Option (ChangelogEntry M)
  find_entry id [] = none
  find_entry id (e ∷ es) = if str_eq e.id id then some e else find_entry id es

  -- `splice` at the first index with the id, what is left.
  pub drop_entry : String → List (ChangelogEntry M) → List (ChangelogEntry M)
  drop_entry id [] = []
  drop_entry id (e ∷ es) = if str_eq e.id id then es else e ∷ drop_entry id es

  remove_found :
      String
      → String
      → String
      → List (ChangelogEntry M)
      → Option (ChangelogEntry M)
      → State M
      → State M × Option (ChangelogEntry M)
  unfolding emit
  remove_found c id now entries none s = (s, none)
  remove_found c id now entries (some removed) s = (
    emit
        (record { type = entry_removed; contract_id = some c; entry_id = some id; timestamp = now })
        (record s { store = Map.set c (drop_entry id entries) s.store }),
    some removed,
  )

  remove_over :
      String
      → String
      → String
      → Option (List (ChangelogEntry M))
      → State M
      → State M × Option (ChangelogEntry M)
  unfolding remove_found
  remove_over c id now none s = (s, none)
  remove_over c id now (some entries) s = remove_found c id now entries (find_entry id entries) s

  -- A `null` result is `none`.
  pub remove_changelog_entry :
      String → String → String → State M → State M × Option (ChangelogEntry M)
  unfolding remove_over
  remove_changelog_entry c id now s = remove_over c id now (Map.get c s.store) s

  pub get_changelog : String → State M → List (ChangelogEntry M)
  get_changelog c s = get_or_else (Map.get c s.store) []

  entry_over : String → Option (List (ChangelogEntry M)) → Option (ChangelogEntry M)
  entry_over id none = none
  entry_over id (some entries) = find_entry id entries

  pub get_changelog_entry : String → String → State M → Option (ChangelogEntry M)
  unfolding entry_over
  get_changelog_entry c id s = entry_over id (Map.get c s.store)

  pub clear_changelog : String → String → State M → State M × Bool
  unfolding emit
  clear_changelog c now s =
      let had = Map.has c s.store in
      let cleared : State M = record s { store = Map.remove c s.store } in
      (
        if had
            then emit
                (record {
                  type = changelog_cleared;
                  contract_id = some c;
                  entry_id = none;
                  timestamp = now;
                })
                cleared
            else cleared,
        had,
      )

  pub clear_all_changelogs : State M → State M
  clear_all_changelogs s = record s { store = [] }
