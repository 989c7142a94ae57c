-- ===== src/Frontend/Changelog/Uniqueness.antt =====
-- The id of an entry of escrow-changelog.ts is unique across all contracts.
use stellar_true_stub.Common.{
  ℕ, ◌⊎◌, suc, ◌+◌, ◌≤◌, ◌≡◌, refl, inl, inr, String, true, false, Option, none, some, List, [],
  ◌∷◌, ◌++◌, if◌then◌else◌, str_eq, eq_iff, ◌&&◌, arith, Bool-cases, Option-cases, ok, get_or_else,
}
use stellar_true_stub.Map
use stellar_true_stub.Map.{Map}
use stellar_true_stub.Map.Laws
use stellar_true_stub.Map.Laws.{total, measure_of}
use stellar_true_stub.Frontend.Changelog.{
  ChangelogEntry, NewEntry, State, holds, is_taken, freeze, append_changelog_entry,
  update_changelog_entry, remove_changelog_entry, find_entry, drop_entry, get_changelog_entry,
  clear_changelog, clear_all_changelogs,
}
use stellar_true_stub.Frontend.Changelog.Log.{
  Call, append, update, Removal, remove, clear, clear_all, step, take_away, append_taken,
}

module _ {M : Type 0} where
  -- How many entries have the id.
  pub count_id : String → List (ChangelogEntry M) → ℕ
  count_id id [] = 0
  count_id id (e ∷ es) = let rest = count_id id es in if str_eq e.id id then suc rest else rest

  abbrev pub occurrences : String → Map (List (ChangelogEntry M)) → ℕ
  occurrences id m = total (count_id id) m

  abbrev pub IdsAreUnique : State M → Type 0
  IdsAreUnique s = (id : String) → occurrences id s.store ≤ 1

  count_id-append :
      (id : String) (xs ys : List (ChangelogEntry M))
      → count_id id (xs ++ ys) ≡ count_id id xs + count_id id ys
  unfolding count_id
  count_id-append id [] ys = omega arith
  count_id-append id (x ∷ xs) ys = ground (arith, count_id-append id xs ys)

  count_id_of_absent :
      (id : String) (xs : List (ChangelogEntry M)) → holds id xs ≡ false → count_id id xs ≡ 0
  unfolding count_id holds
  count_id_of_absent id [] h = refl
  count_id_of_absent id (x ∷ xs) h = ground (arith, count_id_of_absent id xs)

  occurrences_of_free :
      (id : String) (m : Map (List (ChangelogEntry M)))
      → is_taken id m ≡ false
      → occurrences id m ≡ 0
  unfolding total is_taken
  occurrences_of_free id [] h = refl
  occurrences_of_free id ((k, xs) ∷ m) h =
      ground (arith, occurrences_of_free id m, count_id_of_absent id xs)

  count_id-drop_entry :
      (id j : String) (xs : List (ChangelogEntry M))
      → count_id j (drop_entry id xs) + (if str_eq id j && holds id xs then 1 else 0)
        ≡ count_id j xs
  unfolding count_id drop_entry holds
  count_id-drop_entry id j [] = ground arith
  count_id-drop_entry id j (x ∷ xs) =
      ground (arith, count_id-drop_entry id j xs, eq_iff x.id id, eq_iff x.id j, eq_iff id j)

  holds_of_zero :
      (id : String) (xs : List (ChangelogEntry M)) → count_id id xs ≡ 0 → holds id xs ≡ false
  unfolding count_id holds
  holds_of_zero id [] h = refl
  holds_of_zero id (x ∷ xs) h = ground (arith, holds_of_zero id xs)

  free_of_zero :
      (id : String) (m : Map (List (ChangelogEntry M)))
      → occurrences id m ≡ 0
      → is_taken id m ≡ false
  unfolding total is_taken
  free_of_zero id [] h = refl
  free_of_zero id ((k, xs) ∷ m) h = ground (arith, free_of_zero id m, holds_of_zero id xs)

  holds_of_find :
      (id : String) (xs : List (ChangelogEntry M)) (e : ChangelogEntry M)
      → find_entry id xs ≡ some e
      → holds id xs ≡ true
  unfolding find_entry holds
  holds_of_find id [] e h = cc
  holds_of_find id (x ∷ xs) e h = ground (arith, holds_of_find id xs e)

  measure_of_old :
      (id : String) (o : Option (List (ChangelogEntry M)))
      → count_id id (get_or_else o []) ≡ measure_of (count_id id) o
  unfolding count_id
  measure_of_old id none = refl
  measure_of_old id (some xs) = refl

  -- An accepted append adds one occurrence of its own id.
  occurrences-append :
      (e : NewEntry M) (now j : String) (s : State M)
      → is_taken e.id s.store ≡ false
      → occurrences j (append_changelog_entry e now s).0.store
        ≡ occurrences j s.store + (if str_eq e.id j then 1 else 0)
  unfolding append_changelog_entry count_id freeze
  occurrences-append e now j s h =
      let old = get_or_else (Map.get e.contract_id s.store) [] in
      rw h (
        ground (
          arith,
          Laws.total-set (count_id j) e.contract_id (old ++ freeze e now ∷ []) s.store,
          count_id-append j old (freeze e now ∷ []),
          measure_of_old j (Map.get e.contract_id s.store),
        ))

  occurrences-remove_found :
      (c id now j : String) (s : State M) (entries : List (ChangelogEntry M)) (e : ChangelogEntry M)
      → Map.get c s.store ≡ some entries
      → find_entry id entries ≡ some e
      → occurrences j (remove_changelog_entry c id now s).0.store + (if str_eq id j then 1 else 0)
        ≡ occurrences j s.store
  unfolding remove_changelog_entry
  occurrences-remove_found c id now j s entries e h g = ground (
    arith,
    Laws.total-set (count_id j) c (drop_entry id entries) s.store,
    count_id-drop_entry id j entries,
    holds_of_find id entries e g,
  )

  remove_missing :
      (c id now : String) (s : State M)
      → get_changelog_entry c id s ≡ none
      → remove_changelog_entry c id now s ≡ (s, none)
  unfolding remove_changelog_entry get_changelog_entry
  remove_missing c id now s h = ground arith

  remove_found_lem :
      (c id now : String) (s : State M) (e : ChangelogEntry M)
      → get_changelog_entry c id s ≡ some e
      → (entries : List (ChangelogEntry M)) × (Map.get c s.store ≡ some entries)
        × (find_entry id entries ≡ some e)
        × ((remove_changelog_entry c id now s).1 ≡ some e)
  unfolding remove_changelog_entry get_changelog_entry
  remove_found_lem c id now s e h = elim (Option-cases (Map.get c s.store)) [
    | inl missing ↦ absurd (ground arith)
    | inr (entries, found) ↦ (entries, found, ground arith, ground arith)
  ]

  step-IdsAreUnique : (call : Call M) (s : State M) → IdsAreUnique s → IdsAreUnique (step call s)
  unfolding step update_changelog_entry
  step-IdsAreUnique (append e now) s u j = elim (Bool-cases (is_taken e.id s.store)) [
    | inl taken ↦ rw (append_taken e now s taken, step) (u j)
    | inr free ↦ ground (
      arith,
      u j,
      occurrences-append e now j s free,
      occurrences_of_free e.id s.store free,
      eq_iff e.id j,
    )
  ]
  step-IdsAreUnique (update c id) s u j = u j

  take_away-IdsAreUnique :
      (r : Removal) (s : State M) → IdsAreUnique s → IdsAreUnique (take_away r s)
  unfolding take_away clear_changelog clear_all_changelogs total
  take_away-IdsAreUnique (remove c id now) s u j =
      elim (Option-cases (get_changelog_entry c id s)) [
        | inl missing ↦ rw (remove_missing c id now s missing, take_away) (u j)
        | inr (e, present) ↦
            let (entries, g, f, _) = remove_found_lem c id now s e present in
            ground (arith, u j, occurrences-remove_found c id now j s entries e g f)
      ]
  take_away-IdsAreUnique (clear c now) s u j =
      ground (arith, u j, Laws.total-remove_le (count_id j) c s.store)
  take_away-IdsAreUnique clear_all s u j = omega arith

  -- Appends, attempted updates, removals and clearings in any order.
  pub run_all : List (Call M ⊎ Removal) → State M → State M
  run_all [] s = s
  run_all (inl call ∷ rest) s = run_all rest (step call s)
  run_all (inr removal ∷ rest) s = run_all rest (take_away removal s)

  -- Any sequence of appends, attempted updates, removals and clearings keeps the ids unique: if no
  -- id occurs twice at the start, over all contracts together, none does at the end.
  pub run_all-IdsAreUnique :
      (calls : List (Call M ⊎ Removal)) (s : State M)
      → IdsAreUnique s
      → IdsAreUnique (run_all calls s)
  unfolding run_all
  run_all-IdsAreUnique [] s u = u
  run_all-IdsAreUnique (inl call ∷ rest) s u =
      run_all-IdsAreUnique rest (step call s) (step-IdsAreUnique call s u)
  run_all-IdsAreUnique (inr removal ∷ rest) s u =
      run_all-IdsAreUnique rest (take_away removal s) (take_away-IdsAreUnique removal s u)

  append_free :
      (n : NewEntry M) (now : String) (s : State M)
      → is_taken n.id s.store ≡ false
      → (append_changelog_entry n now s).1 ≡ ok (freeze n now)
  unfolding append_changelog_entry
  append_free n now s h = rw h

  -- The documented correction works: with unique ids, removing an entry that is there returns it,
  -- and an entry with the same id, for whatever contract, can then be appended.
  pub remove-append :
      (c id now later : String) (s : State M) (e : ChangelogEntry M) (n : NewEntry M)
      → IdsAreUnique s
      → get_changelog_entry c id s ≡ some e
      → n.id ≡ id
      → let (t, removed) = remove_changelog_entry c id now s in
        (removed ≡ some e) × ((append_changelog_entry n later t).1 ≡ ok (freeze n later))
  remove-append c id now later s e n u h same =
      let (entries, g, f, returned) = remove_found_lem c id now s e h in
      (
        returned,
        append_free n later _ (
            free_of_zero n.id _ (
              ground (
                arith,
                u id,
                occurrences-remove_found c id now id s entries e g f,
                eq_iff id id,
                same,
              ))),
      )
