-- ===== src/Frontend/Changelog/Entries.antt =====
-- What an update and a clearing of a log in escrow-changelog.ts do.
use stellar_true_stub.Common.{◌≡◌, String, true, false, none, [], eq_iff, arith}
use stellar_true_stub.Map
use stellar_true_stub.Map.Laws
use stellar_true_stub.Frontend.Changelog.{
  NewEntry, State, is_taken, freeze, append_changelog_entry, find_entry, remove_changelog_entry,
  drop_entry, get_changelog, clear_changelog,
}

module _ {M : Type 0} where
  -- A log whose only entry is appended and then removed is empty, and clearing it nevertheless
  -- reports that there were entries to clear.
  pub clear-remove-append :
      (e : NewEntry M) (now t u : String) (s : State M)
      → is_taken e.id s.store ≡ false
      → Map.get e.contract_id s.store ≡ none
      → let emptied =
          (remove_changelog_entry e.contract_id e.id t (append_changelog_entry e now s).0).0 in
        (get_changelog e.contract_id emptied ≡ [])
        × ((clear_changelog e.contract_id u emptied).1 ≡ true)
  unfolding append_changelog_entry remove_changelog_entry get_changelog clear_changelog find_entry
      drop_entry freeze
  clear-remove-append e now t u s free absent =
      rw free
        (grind (arith, Laws.get-set, eq_iff e.contract_id e.contract_id, eq_iff e.id e.id, absent))
