-- ===== src/Backend/Migrations/Types.antt =====
-- apps/backend/src/db/migrationAudit.ts: the record, the options, what the process knows, and what is
-- written.
use stellar_true_stub.Common.{ℕ, String, Bool, false, Option, none, List}

pub record MigrationAuditRecord : Type 0 where
  pub release_version : String
  pub deployed_at : ℕ
  pub environment : String
  pub applied_migrations : List String
  pub note : Option String

pub record MigrationAuditOptions : Type 0 where
  pub release_version : Option String
  pub environment : Option String
  pub log_file : Option String
  pub note : Option String
  pub skip_database : Bool
  pub skip_file : Bool

-- What the process knows: RELEASE_VERSION, the versions of release.config.js and of package.json as
-- they are read, NODE_ENV, MIGRATION_AUDIT_LOG_FILE, the default path of the log, and the time.
pub record Process : Type 0 where
  pub release_version : Option String
  pub release_config : Option String
  pub package_json : Option String
  pub node_env : String
  pub log_file : Option String
  pub default_log_file : String
  pub now : ℕ

pub data Effect : Type 0 where
  logs : MigrationAuditRecord → Effect
  -- A line for the record, at the end of the file.
  appends : String → MigrationAuditRecord → Effect
  inserts : MigrationAuditRecord → Effect
  -- The baseline, in the log alone.
  logs_baseline : List String → Effect

pub data Mode : Type 0 where
  before after applied recorded : Mode

pub record Arguments : Type 0 where
  pub mode : Mode
  pub applied : List String
  pub options : MigrationAuditOptions

abbrev pub no_options : MigrationAuditOptions
no_options = record {
  release_version = none;
  environment = none;
  log_file = none;
  note = none;
  skip_database = false;
  skip_file = false;
}
