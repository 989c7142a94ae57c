-- ===== src/Backend/Migrations/Recorded.antt =====
-- Which migrations an audit of migrationAudit.ts records.
use stellar_true_stub.Common.{
  ◌≡◌, ◌↔◌, ◌⊎◌, refl, err, some, if◌then◌else◌, ap, ◌∙◌, inl, inr, String, Bool, true, false, not,
  Option, List, [], ◌∷◌, ◌++◌, Mem, Mem-cons, here, there, All, any, filter-Mem, Result, ok, str_eq,
  eq_iff, Bool-cases, arith,
}
use stellar_true_stub.Backend.Migrations.{
  MigrationAuditOptions, MigrationAuditRecord, Effect, logs, appends, inserts,
  resolve_release_version, resolve_environment, resolve_log_file, Process, read_applied_migrations,
  diff_migrations, build_audit_record, write_migration_audit, audited_run, start_with, finish_with,
}

any-Mem : (x : String) (l : List String) → (any (str_eq x) l ≡ true) ↔ Mem x l
any-Mem x l = (to l, of l)
  where
    to : (k : List String) → any (str_eq x) k ≡ true → Mem x k
    to [] h = cc
    to (y ∷ k) h = elim (Bool-cases (str_eq x y)) [
      | inl same ↦ here ((eq_iff x y).0 same)
      | inr other ↦ there (to k (rw other at h))
    ]

    of : (k : List String) → Mem x k → any (str_eq x) k ≡ true
    of [] m = elim m [ ]
    of (y ∷ k) m = elim (Mem-cons x y k m) [
      | inl same ↦ let e = (eq_iff x y).1 same in rw e refl
      | inr later ↦ let e = of k later in ground (arith, e)
    ]

-- None of the names is in the list.
abbrev pub AreNew : List String → List String → Type 0
AreNew before names = All (λ name. any (str_eq name) before ≡ false) names

keep_new : (before names : List String) → AreNew before names → diff_migrations before names ≡ names
unfolding diff_migrations
keep_new before [] h = refl
keep_new before (x ∷ l) (new, h) = rw new (ap (λ k. x ∷ k) (keep_new before l h))

diff-within :
    (before rest names : List String)
    → All (λ name. any (str_eq name) before ≡ true) names
    → diff_migrations before (names ++ rest) ≡ diff_migrations before rest
unfolding diff_migrations
diff-within before rest [] h = refl
diff-within before rest (x ∷ l) (old, h) = rw old (diff-within before rest l h)

All-Mem : (P : String → Type 0) (l : List String) → ((x : String) → Mem x l → P x) → All P l
All-Mem P [] h = tt
All-Mem P (x ∷ l) h = (h x (here refl), All-Mem P l (λ y m. h y (there m)))

-- The difference to a list that the first one begins is what follows it.
diff-append :
    (before new : List String) → AreNew before new → diff_migrations before (before ++ new) ≡ new
diff-append before new h =
    diff-within before new before
      (All-Mem (λ name. any (str_eq name) before ≡ true) before (λ x m. (any-Mem x before).1 m))
    ∙ keep_new before new h

-- The record of these migrations.
abbrev pub record_of : Process → MigrationAuditOptions → List String → MigrationAuditRecord
record_of p options names = record {
  release_version = resolve_release_version p options.release_version;
  deployed_at = p.now;
  environment = resolve_environment p options.environment;
  applied_migrations = names;
  note = options.note;
}

-- The writes of a record: the log, then the file and the table unless they are skipped.
abbrev pub writes_of : Process → MigrationAuditOptions → MigrationAuditRecord → List Effect
writes_of p options r =
    logs r
    ∷ ((if options.skip_file then [] else appends (resolve_log_file p options.log_file) r ∷ [])
        ++ (if options.skip_database then [] else inserts r ∷ []))

writes-same :
    (p : Process) (options : MigrationAuditOptions) (r : MigrationAuditRecord)
    → write_migration_audit p r options true ≡ writes_of p options r
unfolding write_migration_audit
writes-same p options r = elim (Bool-cases options.skip_file) [
  | inl skip ↦ elim (Bool-cases options.skip_database) [
    | inl out ↦ rw (skip, out) refl
    | inr into ↦ rw (skip, into) refl
  ]
  | inr file ↦ elim (Bool-cases options.skip_database) [
    | inl out ↦ rw (file, out) refl
    | inr into ↦ rw (file, into) refl
  ]
]

-- An audit around a run that adds migrations at the end of the table makes a record of exactly those, in
-- order, with the time, the note of the options, and the release version and environment that the
-- process and the options resolve to. It writes that record to the log, to the end of the log file that
-- they resolve to unless the options skip the file, and to the table unless they skip the database, and
-- nothing else. A table that is missing at the start counts as empty.
pub audited_run-new :
    (p : Process) (options : MigrationAuditOptions)
    (first later : Result (Option String) (List String)) (before new : List String)
    → (first ≡ ok before) ⊎ ((first ≡ err (some "42P01")) × (before ≡ []))
    → later ≡ ok (before ++ new)
    → AreNew before new
    → audited_run p options first later
      ≡ ok (writes_of p options (record_of p options new), record_of p options new)
unfolding audited_run start_with finish_with build_audit_record read_applied_migrations
audited_run-new p options first later before new (inl f) l h =
    rw (f, l, diff-append before new h, writes-same) refl
audited_run-new p options first later before new (inr (f, e)) l h =
    rw (f, l, e) (rw (keep_new [] new (rw e at h), writes-same) refl)

-- A migration is recorded exactly if it is in the table after the run and was not in it before.
pub diff_migrations_iff :
    (before after : List String) (name : String)
    → Mem name (diff_migrations before after) ↔ (Mem name after × (Mem name before → ⊥))
unfolding diff_migrations
diff_migrations_iff before after name =
    let found = filter-Mem (λ (n : String). not (any (str_eq n) before)) name after in
    (
      λ m.
          let (k, e) = found.0 m in
          (
            k,
            λ old.
                let there_before = (any-Mem name before).1 old in ground (arith, e, there_before),
          ),
      λ (m, new). found.1 (m, absent new (any (str_eq name) before) refl),
    )
  where
    absent :
        (Mem name before → ⊥)
        → (b : Bool) → any (str_eq name) before ≡ b
        → not (any (str_eq name) before) ≡ true
    absent new true e = absurd (new ((any-Mem name before).0 e))
    absent new false e = ap not e
