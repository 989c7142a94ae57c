-- ===== src/Backend/Migrations.antt =====
-- apps/backend/src/db/migrationAudit.ts: which migrations a deploy records, and where. What the
-- database and the files answer are arguments: the migrations that the table holds, or the code of
-- the error, and whether a write succeeds; the effects are what is written. `pgmigrations` is
-- node-pg-migrate's table.
pub mod Types
pub mod Recorded
pub mod CommandLine
mod Examples
use stellar_true_stub.Common.{
  ℕ, String, Bool, true, false, not, ◌&&◌, Option, none, some, List, [], ◌∷◌, map, if◌then◌else◌,
  Result, ok, err, any, filter, get_or_else, str_eq, trim, before_comma, concat,
}
use stellar_true_stub.Backend.AppError.{is_blank}
pub use Types.{
  MigrationAuditRecord, MigrationAuditOptions, Process, Effect, logs, appends, inserts,
  logs_baseline, Mode, before, after, applied, recorded, Arguments, no_options,
}

-- A text that is there and not only spaces.
abbrev pub is_given : Option String → Bool
is_given none = false
is_given (some s) = not (is_blank (trim s))

abbrev trimmed : Option String → String
trimmed none = ""
trimmed (some s) = trim s

abbrev filled_or : Option String → String → String
filled_or none d = d
filled_or (some s) d = if is_blank s then d else s

pub resolve_release_version : Process → Option String → String
resolve_release_version p explicit =
    if is_given explicit
    then trimmed explicit
    else if is_given p.release_version
    then trimmed p.release_version
    else filled_or p.release_config (filled_or p.package_json "unknown")

pub resolve_environment : Process → Option String → String
resolve_environment p explicit =
    if is_given explicit then trimmed explicit else filled_or (some p.node_env) "unknown"

pub resolve_log_file : Process → Option String → String
resolve_log_file p explicit =
    if is_given explicit
    then get_or_else explicit ""
    else if is_given p.log_file
    then get_or_else p.log_file ""
    else p.default_log_file

-- The rows of the table, or the code of what the query throws.
pub read_applied_migrations :
    Result (Option String) (List String) → Result (Option String) (List String)
read_applied_migrations (ok rows) = ok rows
read_applied_migrations (err none) = err none
read_applied_migrations (err (some code)) = if str_eq code "42P01" then ok [] else err (some code)

pub diff_migrations : List String → List String → List String
diff_migrations old current = filter (λ name. not (any (str_eq name) old)) current

pub build_audit_record : Process → List String → MigrationAuditOptions → MigrationAuditRecord
unfolding resolve_release_version resolve_environment
build_audit_record p names options = record {
  release_version = resolve_release_version p options.release_version;
  deployed_at = p.now;
  environment = resolve_environment p options.environment;
  applied_migrations = names;
  note = options.note;
}

-- What fails is only logged, so nothing of it shows in the effects that are tried.
pub write_migration_audit :
    Process → MigrationAuditRecord → MigrationAuditOptions → Bool → List Effect
unfolding resolve_log_file
write_migration_audit p r options has_client =
    let stored = if not options.skip_database && has_client then inserts r ∷ [] else [] in
    logs r
    ∷ (if options.skip_file
        then stored
        else appends (resolve_log_file p options.log_file) r ∷ stored)

abbrev Answer : Type 0
Answer = Result (Option String) (List String)

-- `finish` of a handle, with the migrations that were there when the audit started.
finish_with :
    Process
    → List String
    → MigrationAuditOptions
    → Answer
    → Result (Option String) (List Effect × MigrationAuditRecord)
unfolding build_audit_record
finish_with p old options (err e) = err e
finish_with p old options (ok current) =
    let r = build_audit_record p (diff_migrations old current) options in
    ok (write_migration_audit p r options true, r)

start_with :
    Process
    → MigrationAuditOptions
    → Answer
    → Answer
    → Result (Option String) (List Effect × MigrationAuditRecord)
unfolding finish_with
start_with p options (err e) later = err e
start_with p options (ok old) later = finish_with p old options later

-- `startMigrationAudit`, and `finish` after the run, with what the queries then answer.
pub audited_run :
    Process
    → MigrationAuditOptions
    → Answer
    → Answer
    → Result (Option String) (List Effect × MigrationAuditRecord)
unfolding start_with read_applied_migrations
audited_run p options first later =
    start_with p options (read_applied_migrations first) (read_applied_migrations later)

-- `argv[i + 1]`, and whether it is taken.
named : String → Option String → Arguments → Arguments × Bool
named arg value a =
    if str_eq arg "--release"
    then (record a { options = record a.options { release_version = value } }, true)
    else if str_eq arg "--environment"
    then (record a { options = record a.options { environment = value } }, true)
    else if str_eq arg "--log-file"
    then (record a { options = record a.options { log_file = value } }, true)
    else if str_eq arg "--note"
    then (record a { options = record a.options { note = value } }, true)
    else if str_eq arg "--skip-database"
    then (record a { options = record a.options { skip_database = true } }, false)
    else if str_eq arg "--skip-file"
    then (record a { options = record a.options { skip_file = true } }, false)
    else (a, false)

-- `value.split(",")`, each part trimmed, without the empty ones.
pub split_names : (String → List String) → String → List String
split_names split value = filter (λ s. not (is_blank s)) (map trim (split value))

module _ (split : String → List String) where
  applied_with : Option String → Arguments → Arguments × Bool
  applied_with none a = (record a { mode = applied }, false)
  applied_with (some value) a =
      if is_blank value
      then (record a { mode = applied }, false)
      else (record a { mode = applied; applied = split_names split value }, true)

  -- One round of the `switch`.
  take_argument : String → Option String → Arguments → Arguments × Bool
  unfolding applied_with named
  take_argument arg value a =
      if str_eq arg "--before"
      then (record a { mode = before }, false)
      else if str_eq arg "--after"
      then (record a { mode = after }, false)
      else if str_eq arg "--applied"
      then applied_with value a
      else named arg value a

  parse_from : List String → Arguments → Arguments
  unfolding take_argument
  parse_from [] a = a
  parse_from (arg ∷ []) a = (take_argument arg none a).0
  parse_from (arg ∷ value ∷ rest) a =
      let (b, taken) = take_argument arg (some value) a in
      elim taken [ true ↦ parse_from rest b | false ↦ parse_from (value ∷ rest) b ]

pub parse_args : (String → List String) → List String → Arguments
unfolding parse_from
parse_args split argv =
    parse_from split argv (record { mode = recorded; applied = []; options = no_options })

record_effects : Process → List String → MigrationAuditOptions → List Effect
record_effects p names options =
    write_migration_audit p (build_audit_record p names options) options true

after_read : Process → Mode → MigrationAuditOptions → List String → List String → List Effect
unfolding record_effects
after_read p before options baseline current = logs_baseline current ∷ []
after_read p _ options baseline current =
    record_effects p (diff_migrations baseline current) options

main_read : Process → Arguments → List String → Answer → Result (Option String) (List Effect)
unfolding after_read
main_read p a baseline (err e) = err e
main_read p a baseline (ok current) = ok (after_read p a.mode a.options baseline current)

-- `main`: whether DATABASE_URL is set, the migrations of the baseline file, where there is one that can
-- be read, and what the query answers.
pub main :
    (String → List String)
    → Process
    → Bool
    → Option (List String)
    → Answer
    → List String
    → Result (Option String) (List Effect)
unfolding main_read record_effects
main split p connected baseline answer argv =
    let a = parse_args split argv in
    if not connected then ok [] else elim a.mode [
      | applied ↦ ok (record_effects p a.applied a.options)
      | _ ↦ main_read p a (get_or_else baseline []) (read_applied_migrations answer)
    ]
