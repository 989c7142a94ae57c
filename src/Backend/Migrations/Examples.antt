-- ===== src/Backend/Migrations/Examples.antt =====
-- The theorems on the audit of migrations at concrete runs.
use stellar_true_stub.Common.{
  ◌≡◌, refl, inr, String, true, none, some, List, [], ◌∷◌, ◌++◌, ok, err, trim, drop_spaces,
  drop_last_spaces, is_space,
}
use stellar_true_stub.Backend.Migrations.{
  MigrationAuditRecord, MigrationAuditOptions, Process, resolve_release_version,
  resolve_environment, resolve_log_file, read_applied_migrations, diff_migrations,
  build_audit_record, logs, appends, inserts, write_migration_audit, audited_run, split_names,
  parse_args, no_options, main, parse_from, take_argument, applied_with,
}
use stellar_true_stub.Backend.Migrations.Recorded.{audited_run-new, writes_of, record_of}

abbrev process : Process
process = record {
  release_version = some " 1.4.2 ";
  release_config = none;
  package_json = some "0.1.0";
  node_env = "test";
  log_file = none;
  default_log_file = "/app/deploy-migrations.log";
  now = 7;
}

-- A stand-in for the split at commas.
abbrev whole : String → List String
whole s = s ∷ []

abbrev made : MigrationAuditRecord
made = record {
  release_version = "1.4.2";
  deployed_at = 7;
  environment = "test";
  applied_migrations = "001_a" ∷ "002_b" ∷ [];
  note = none;
}

-- No baseline is ever written to the file that `--after` reads, so it records all that was ever applied.
no_baseline :
    main whole process true none (ok ("001_a" ∷ "002_b" ∷ [])) ("--after" ∷ [])
    ≡ ok (logs made ∷ appends "/app/deploy-migrations.log" made ∷ inserts made ∷ [])
unfolding main parse_args parse_from take_argument build_audit_record write_migration_audit
    resolve_release_version resolve_environment resolve_log_file read_applied_migrations
    diff_migrations trim drop_spaces drop_last_spaces is_space
no_baseline = refl

names_test : (parse_args whole ("--applied" ∷ " 001_a " ∷ "--before" ∷ [])).applied ≡ "001_a" ∷ []
unfolding parse_args parse_from take_argument applied_with split_names trim drop_spaces
    drop_last_spaces is_space
names_test = refl

starts_empty : read_applied_migrations (err (some "42P01")) ≡ ok []
unfolding read_applied_migrations
starts_empty = refl

ends_with_two :
    read_applied_migrations (ok ("001_a" ∷ "002_b" ∷ [])) ≡ ok ([] ++ ("001_a" ∷ "002_b" ∷ []))
unfolding read_applied_migrations
ends_with_two = refl

audited_run-new_example :
    audited_run process no_options (err (some "42P01")) (ok ("001_a" ∷ "002_b" ∷ []))
    ≡ ok (
      writes_of process no_options (record_of process no_options ("001_a" ∷ "002_b" ∷ [])),
      record_of process no_options ("001_a" ∷ "002_b" ∷ []),
    )
audited_run-new_example =
    audited_run-new process no_options (err (some "42P01")) (ok ("001_a" ∷ "002_b" ∷ [])) []
      ("001_a" ∷ "002_b" ∷ []) (inr (refl, refl)) refl (refl, (refl, tt))

abbrev some_options : MigrationAuditOptions
some_options = record no_options { note = some "--before"; skip_file = true }
