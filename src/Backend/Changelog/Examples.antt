-- ===== src/Backend/Changelog/Examples.antt =====
-- The theorems on the changelog of the service at concrete calls.
use stellar_true_stub.Common.{ℕ, ◌≡◌, refl, String, none, some, List, [], ◌∷◌, ok, length}
use stellar_true_stub.Map
use stellar_true_stub.Backend.Changelog.{
  ChangelogEntry, Payload, refund_submitted, entry_of, check_append, commit_append, append_checked,
  append_entry, movement_payload, movement_over, movement_id, join, record_money_movement,
  update_entry, remove_entry, remove_over, get_entry,
}
use stellar_true_stub.Backend.Changelog.Replay.{
  Call, append, movement, update, remove, perform, run, start, replay, run-replay,
}
use stellar_true_stub.Backend.Changelog.WriteOnce.{run-kept, movement-run-movement}

abbrev same : ℕ → ℕ
same n = n

abbrev payload : String → String → Payload ℕ
payload id actor = record {
  entry_id = id;
  action = "refund.completed";
  actor_id = actor;
  resource_id = "e1";
  metadata = some 5;
  request_id = none;
}

abbrev calls : List (Call ℕ × ℕ)
calls =
    (append (payload "a" "ann"), 1)
    ∷ (append (payload "a" "eve"), 2)
    ∷ (movement refund_submitted "ann" "e1" none none, 3)
    ∷ (update "a", 4)
    ∷ (remove "a" none, 5)
    ∷ []

abbrev written : ChangelogEntry ℕ
written = record {
  entry_id = "a";
  action = "refund.completed";
  actor_id = "ann";
  resource_id = "e1";
  timestamp = 1;
  metadata = some 5;
  request_id = none;
}

abbrev moved_entry : ChangelogEntry ℕ
moved_entry = record {
  entry_id = "refund.submitted:e1";
  action = "refund.submitted";
  actor_id = "ann";
  resource_id = "e1";
  timestamp = 9;
  metadata = none;
  request_id = none;
}

three_events : length (run same calls start).events ≡ 3
unfolding run perform append_entry append_checked check_append commit_append entry_of
    record_money_movement movement_payload movement_over movement_id join update_entry remove_entry
    remove_over Map.get Map.set Map.remove
three_events = refl

-- Two appends of one id that run at once both find it free, and the second overwrites the first.
overwritten :
    (check_append (payload "a" "ann") [] ≡ none)
    × (check_append (payload "a" "eve") [] ≡ none)
    × (get_entry "a" (
          commit_append same (payload "a" "eve") 1 (commit_append same (payload "a" "ann") 1 start))
        ≡ some (record written { actor_id = "eve" }))
unfolding check_append commit_append entry_of get_entry Map.get Map.set
overwritten = (refl, refl, refl)

run-replay_example : get_entry "a" (run same calls start) ≡ replay "a" (run same calls start).events
run-replay_example = run-replay same calls "a"

run-kept_example :
    get_entry "a" (
      run same
        ((append (payload "b" "eve"), 2) ∷ (append (payload "a" "eve"), 3) ∷ [])
        (append_entry same (payload "a" "ann") 1 start).0)
    ≡ some written
unfolding append_entry append_checked check_append commit_append entry_of get_entry Map.get Map.set
run-kept_example =
    run-kept same "a" written
      ((append (payload "b" "eve"), 2) ∷ (append (payload "a" "eve"), 3) ∷ [])
      (append_entry same (payload "a" "ann") 1 start).0 refl refl

movement-run-movement_example :
    let t =
      run same calls (record_money_movement same refund_submitted "ann" "e1" none none 9 start).0 in
    record_money_movement same refund_submitted "bob" "e1" (some 7) none 20 t ≡ (t, ok moved_entry)
unfolding append_entry append_checked check_append commit_append entry_of record_money_movement
    movement_payload movement_over movement_id join Map.get Map.set
movement-run-movement_example =
    movement-run-movement same refund_submitted "e1" "ann" "bob" none (some 7) none none 9 20 start
      moved_entry calls refl refl
