-- ===== src/Backend/Changelog/Replay.antt =====
-- The store and the event log of changelog.service.ts, after calls that run one after the other.
use stellar_true_stub.Common.{
  ℕ, ◌≡◌, refl, String, Option, none, some, List, [], ◌∷◌, if◌then◌else◌, str_eq, eq_iff, arith,
  Result, inl, inr, Bool-cases,
}
use stellar_true_stub.Map
use stellar_true_stub.Map.Laws
use stellar_true_stub.Backend.AppError.{AppError, is_blank}
use stellar_true_stub.Backend.Changelog.{
  ChangelogEntry, entry_appended, entry_removed, ChangelogEvent, Payload, ChangelogAction, State,
  movement_over, entry_of, commit_append, append_checked, append_entry, record_money_movement,
  update_entry, remove_entry, remove_over, get_entry,
}

pub data Call (M : Type 0) : Type 0 where
  append : Payload M → Call M
  movement : ChangelogAction → String → String → Option M → Option String → Call M
  update : String → Call M
  remove : String → Option String → Call M

module _ {M : Type 0} where
  -- What the events, the latest first, say of an entry.
  pub replay : String → List (ChangelogEvent M) → Option (ChangelogEntry M)
  replay id [] = none
  replay id (ev ∷ evs) =
      if str_eq ev.entry.entry_id id
      then elim ev.type [ entry_appended ↦ some ev.entry | entry_removed ↦ none ]
      else replay id evs

  abbrev pub start : State M
  start = record { store = []; events = [] }

  -- The events tell for each id what the store holds.
  abbrev IsReplayed : State M → Type 0
  IsReplayed s = (id : String) → Map.get id s.store ≡ replay id s.events

  replay-keyed :
      (id : String) (evs : List (ChangelogEvent M)) (e : ChangelogEntry M)
      → replay id evs ≡ some e
      → e.entry_id ≡ id
  unfolding replay
  replay-keyed id [] e h = cc
  replay-keyed id (ev ∷ evs) e h =
      ground (arith, eq_iff ev.entry.entry_id id, replay-keyed id evs e)

module _ {M : Type 0} (copy : M → M) where
  unfoldable pub perform : Call M → ℕ → State M → State M × Result AppError (ChangelogEntry M)
  perform (append p) now s = append_entry copy p now s
  perform (movement action actor resource metadata request) now s =
      record_money_movement copy action actor resource metadata request now s
  perform (update id) now s = update_entry id s
  perform (remove id request) now s = remove_entry id request now s

  unfoldable pub run : List (Call M × ℕ) → State M → State M
  run [] s = s
  run ((call, now) ∷ rest) s = run rest (perform call now s).0

  commit-IsReplayed :
      (p : Payload M) (now : ℕ) (s : State M)
      → IsReplayed s
      → IsReplayed (commit_append copy p now s)
  unfolding commit_append entry_of replay
  commit-IsReplayed p now s h id = grind (arith, Laws.get-set, h id)

  append-IsReplayed :
      (p : Payload M) (now : ℕ) (o : Option AppError) (s : State M)
      → IsReplayed s
      → IsReplayed (append_checked copy p now o s).0
  unfolding append_checked
  append-IsReplayed p now none s h = commit-IsReplayed p now s h
  append-IsReplayed p now (some e) s h = h

  movement-IsReplayed :
      (p : Payload M) (now : ℕ) (o : Option (ChangelogEntry M)) (s : State M)
      → IsReplayed s
      → IsReplayed (movement_over copy p now o s).0
  unfolding movement_over append_entry
  movement-IsReplayed p now none s h = append-IsReplayed p now _ s h
  movement-IsReplayed p now (some e) s h = h

  remove-IsReplayed :
      (id : String) (request : Option String) (now : ℕ) (o : Option (ChangelogEntry M))
      (s : State M)
      → Map.get id s.store ≡ o
      → IsReplayed s
      → IsReplayed (remove_over id request now o s).0
  unfolding remove_over replay
  remove-IsReplayed id request now none s found h k = h k
  remove-IsReplayed id request now (some e) s found h k =
      let keyed : e.entry_id ≡ id = replay-keyed id s.events e (rw (h id) at found) in
      grind (arith, Laws.get-remove, h k, keyed)

  step-IsReplayed :
      (call : Call M) (now : ℕ) (s : State M) → IsReplayed s → IsReplayed (perform call now s).0
  unfolding perform append_entry record_money_movement update_entry remove_entry
  step-IsReplayed (append p) now s h = append-IsReplayed p now _ s h
  step-IsReplayed (movement action actor resource metadata request) now s h =
      movement-IsReplayed _ now _ s h
  step-IsReplayed (update id) now s h = h
  step-IsReplayed (remove id request) now s h = elim (Bool-cases (is_blank id)) [
    | inl blank ↦ rw blank h
    | inr there ↦ rw there (remove-IsReplayed id request now _ s refl h)
  ]

  -- The events never miss a change: after any sequence of appends, money movements, attempted
  -- updates and removals that starts from the empty store, an observer that has been there from
  -- the start knows from the last event of each id what the store holds under it.
  pub run-replay :
      (calls : List (Call M × ℕ)) (id : String)
      → get_entry id (run calls start) ≡ replay id (run calls start).events
  unfolding get_entry run replay Map.get
  run-replay calls id = from calls start (λ k. empty k) id
    where
      empty : (k : String) → Map.get k (start {M = M}).store ≡ replay k (start {M = M}).events
      empty k = refl

      from : (calls : List (Call M × ℕ)) (s : State M) → IsReplayed s → IsReplayed (run calls s)
      from [] s h = h
      from ((call, now) ∷ rest) s h =
          from rest (perform call now s).0 (step-IsReplayed call now s h)
