-- ===== src/Backend/Changelog/WriteOnce.antt =====
-- What is written to changelog.service.ts stays until it is removed, and a money movement has one
-- entry. The calls run one after the other.
use stellar_true_stub.Common.{
  ℕ, ◌≡◌, refl, ap, ◌∙◌, String, Bool, true, false, Option, none, some, List, [], ◌∷◌,
  if◌then◌else◌, str_eq, eq_iff, arith, ok, inl, inr, Bool-cases,
}
use stellar_true_stub.Map
use stellar_true_stub.Map.Laws
use stellar_true_stub.Backend.AppError.{AppError, is_blank}
use stellar_true_stub.Backend.Changelog.{
  ChangelogEntry, Payload, ChangelogAction, State, movement_payload, movement_over, movement_id,
  check_append, commit_append, append_checked, append_entry, record_money_movement, update_entry,
  remove_entry, remove_over, get_entry,
}
use stellar_true_stub.Backend.Changelog.Replay.{
  Call, append, movement, update, remove, perform, run,
}

-- The call is no removal of `id`.
abbrev pub keeps : {M : Type 0} → String → Call M → Bool
keeps id (remove k request) = if str_eq k id then false else true
keeps id _ = true

abbrev pub all_keep : {M : Type 0} → String → List (Call M × ℕ) → Bool
all_keep id [] = true
all_keep id ((call, now) ∷ rest) = if keeps id call then all_keep id rest else false

module _ {M : Type 0} (copy : M → M) (id : String) (e : ChangelogEntry M) where
  checked-kept :
      (p : Payload M) (now : ℕ) (o : Option AppError) (s : State M)
      → check_append p s.store ≡ o
      → Map.get id s.store ≡ some e
      → Map.get id (append_checked copy p now o s).0.store ≡ some e
  unfolding append_checked check_append commit_append
  checked-kept p now none s free h =
      let fresh : Map.has p.entry_id s.store ≡ false = ground (arith, free) in
      grind (arith, Laws.get-set, eq_iff p.entry_id id, fresh, h)
  checked-kept p now (some error) s taken h = h

  movement-kept :
      (p : Payload M) (now : ℕ) (o : Option (ChangelogEntry M)) (s : State M)
      → Map.get id s.store ≡ some e
      → Map.get id (movement_over copy p now o s).0.store ≡ some e
  unfolding movement_over append_entry
  movement-kept p now none s h = checked-kept p now _ s refl h
  movement-kept p now (some old) s h = h

  remove-kept :
      (k : String) (request : Option String) (now : ℕ) (o : Option (ChangelogEntry M)) (s : State M)
      → str_eq k id ≡ false
      → Map.get id s.store ≡ some e
      → Map.get id (remove_over k request now o s).0.store ≡ some e
  unfolding remove_over
  remove-kept k request now none s other h = h
  remove-kept k request now (some old) s other h = grind (arith, Laws.get-remove, other, h)

  step-kept :
      (call : Call M) (now : ℕ) (s : State M)
      → keeps id call ≡ true
      → Map.get id s.store ≡ some e
      → Map.get id (perform copy call now s).0.store ≡ some e
  unfolding perform append_entry record_money_movement update_entry remove_entry
  step-kept (append p) now s k h = checked-kept p now _ s refl h
  step-kept (movement action actor resource metadata request) now s k h = movement-kept _ now _ s h
  step-kept (update j) now s k h = h
  step-kept (remove j request) now s k h = elim (Bool-cases (is_blank j)) [
    | inl blank ↦ rw blank h
    | inr there ↦ rw there (remove-kept j request now _ s (ground (arith, k)) h)
  ]

  -- An entry is write-once: it is read as it was written after any sequence of appends, money
  -- movements, attempted updates and removals of other entries.
  pub run-kept :
      (calls : List (Call M × ℕ)) (s : State M)
      → all_keep id calls ≡ true
      → get_entry id s ≡ some e
      → get_entry id (run copy calls s) ≡ some e
  unfolding get_entry run
  run-kept [] s k h = h
  run-kept ((call, now) ∷ rest) s k h =
      run-kept rest (perform copy call now s).0 (ground (arith, k))
        (step-kept call now s (ground (arith, k)) h)

module _ {M : Type 0} (copy : M → M) where
  committed :
      (p : Payload M) (now : ℕ) (o : Option AppError) (s : State M) (e : ChangelogEntry M)
      → (append_checked copy p now o s).1 ≡ ok e
      → Map.get p.entry_id (append_checked copy p now o s).0.store ≡ some e
  unfolding append_checked commit_append
  committed p now none s e h = grind (arith, Laws.get-set, eq_iff p.entry_id p.entry_id)
  committed p now (some error) s e h = cc

  moved :
      (p : Payload M) (now : ℕ) (o : Option (ChangelogEntry M)) (s : State M) (e : ChangelogEntry M)
      → Map.get p.entry_id s.store ≡ o
      → (movement_over copy p now o s).1 ≡ ok e
      → Map.get p.entry_id (movement_over copy p now o s).0.store ≡ some e
  unfolding movement_over append_entry
  moved p now none s e found h = committed p now _ s e h
  moved p now (some old) s e found h = let same : old ≡ e = cc in found ∙ ap some same

  -- A money movement is recorded once: after a call that recorded it or found it, and whatever
  -- follows that does not remove its entry, a further call for the same action and resource
  -- changes nothing, emits nothing and returns the same entry, whatever else it is given.
  pub movement-run-movement :
      (action : ChangelogAction) (resource actor other : String) (metadata again : Option M)
      (request retry : Option String) (now later : ℕ) (s : State M) (e : ChangelogEntry M)
      (calls : List (Call M × ℕ))
      → (record_money_movement copy action actor resource metadata request now s).1 ≡ ok e
      → all_keep (movement_id action resource) calls ≡ true
      → let t =
          run copy calls
            (record_money_movement copy action actor resource metadata request now s).0 in
        record_money_movement copy action other resource again retry later t ≡ (t, ok e)
  unfolding record_money_movement get_entry movement_payload movement_over
  movement-run-movement action resource actor other metadata again request retry now later s e calls
        h k =
      let p = movement_payload action actor resource metadata request in
      let written = moved p now (Map.get p.entry_id s.store) s e refl h in
      let after = (record_money_movement copy action actor resource metadata request now s).0 in
      let kept = run-kept copy (movement_id action resource) e calls after k written in rw kept refl
