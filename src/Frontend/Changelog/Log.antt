-- ===== src/Frontend/Changelog/Log.antt =====
-- The calls of escrow-changelog.ts as one type, and the log as an append-only list.
use stellar_true_stub.Common.{
  ◌≡◌, inl, inr, String, true, false, List, [], ◌∷◌, ◌++◌, if◌then◌else◌, str_eq, eq_iff, All,
  All-append, arith, Bool-cases, err, sym, ◌∙◌,
}
use mathlib.Core.List.{append-nil, append_assoc}
use stellar_true_stub.Map.Laws
use stellar_true_stub.Frontend.Changelog.{
  ChangelogEntry, NewEntry, State, duplicate_changelog_entry, is_taken, freeze,
  append_changelog_entry, update_changelog_entry, remove_changelog_entry, get_changelog,
  clear_changelog, clear_all_changelogs,
}

module _ {M : Type 0} where
  pub get_changelog-append_free :
      (e : NewEntry M) (now c : String) (s : State M)
      → is_taken e.id s.store ≡ false
      → get_changelog c (append_changelog_entry e now s).0
        ≡ get_changelog c s ++ (if str_eq e.contract_id c then freeze e now ∷ [] else [])
  unfolding append_changelog_entry get_changelog
  get_changelog-append_free e now c s h =
      grind (arith, Laws.get-set, append-nil, eq_iff e.contract_id c)

  pub append_taken :
      (e : NewEntry M) (now : String) (s : State M)
      → is_taken e.id s.store ≡ true
      → append_changelog_entry e now s ≡ (s, err (duplicate_changelog_entry e.id))
  unfolding append_changelog_entry
  append_taken e now s h = rw h

-- The calls on a changelog. Those that take entries away are in a type of their own.
pub data Call (M : Type 0) : Type 0 where
  append : NewEntry M → String → Call M
  update : String → String → Call M

pub data Removal : Type 0 where
  remove : String → String → String → Removal
  clear : String → String → Removal
  clear_all : Removal

module _ {M : Type 0} where
  unfoldable pub step : Call M → State M → State M
  step (append e now) s = (append_changelog_entry e now s).0
  step (update c id) s = (update_changelog_entry c id s).0

  unfoldable pub take_away : Removal → State M → State M
  take_away (remove c id now) s = (remove_changelog_entry c id now s).0
  take_away (clear c now) s = (clear_changelog c now s).0
  take_away clear_all s = clear_all_changelogs s

  unfoldable pub run : List (Call M) → State M → State M
  run [] s = s
  run (call ∷ calls) s = run calls (step call s)

  -- What one call adds to the log of `c`.
  added : String → Call M → State M → List (ChangelogEntry M)
  added c (append e now) s =
      if is_taken e.id s.store then [] else if str_eq e.contract_id c then freeze e now ∷ [] else []
  added c (update k id) s = []

  get_changelog-step :
      (c : String) (call : Call M) (s : State M)
      → get_changelog c (step call s) ≡ get_changelog c s ++ added c call s
  unfolding step added update_changelog_entry
  get_changelog-step c (append e now) s = elim (Bool-cases (is_taken e.id s.store)) [
    | inl taken ↦ rw (append_taken e now s taken, step) (rw taken (sym (append-nil _)))
    | inr free ↦ rw free (get_changelog-append_free e now c s free)
  ]
  get_changelog-step c (update k id) s = sym (append-nil _)

  added-All :
      (c : String) (call : Call M) (s : State M) → All (λ e. e.contract_id ≡ c) (added c call s)
  unfolding added freeze
  added-All c (append e now) s = ground (arith, eq_iff e.contract_id c)
  added-All c (update k id) s = tt

  -- Without a removal the log of a contract only grows: after any sequence of appends and attempted
  -- updates it is what it was before, in the same order, followed by entries of that contract.
  pub run-append_only :
      (c : String) (calls : List (Call M)) (s : State M)
      → (tail : List (ChangelogEntry M)) × (get_changelog c (run calls s)
          ≡ get_changelog c s ++ tail)
        × All (λ e. e.contract_id ≡ c) tail
  unfolding run
  run-append_only c [] s = ([], sym (append-nil _), tt)
  run-append_only c (call ∷ calls) s =
      let (tail, e, h) = run-append_only c calls (step call s) in
      (
        added c call s ++ tail,
        e
            ∙ rw (get_changelog-step c call s)
                (append_assoc (get_changelog c s) (added c call s) tail),
        All-append _ (added c call s) tail (added-All c call s) h,
      )
