-- ===== src/Backend/Migrations/CommandLine.antt =====
-- Reading the command line of migrationAudit.ts gives back what was written on it.
use stellar_true_stub.Common.{
  ◌≡◌, ◌∙◌, refl, String, Bool, true, false, Option, none, some, List, [], ◌∷◌, ◌++◌,
}
use stellar_true_stub.Backend.Migrations.{
  MigrationAuditOptions, Mode, before, after, recorded, applied, Arguments, take_argument, named,
  applied_with, parse_from, parse_args,
}

-- A mode as an argument. The names of `applied` are not part of it.
abbrev pub mode_arguments : Mode → List String
mode_arguments before = "--before" ∷ []
mode_arguments after = "--after" ∷ []
mode_arguments applied = "--applied" ∷ []
mode_arguments recorded = []

abbrev named_arguments : String → Option String → List String
named_arguments name none = []
named_arguments name (some value) = name ∷ value ∷ []

abbrev flag_arguments : String → Bool → List String
flag_arguments name false = []
flag_arguments name true = name ∷ []

-- The options as arguments, the mode last.
abbrev pub arguments_of : MigrationAuditOptions → Mode → List String
arguments_of o mode =
    named_arguments "--release" o.release_version
    ++ (named_arguments "--environment" o.environment
        ++ (named_arguments "--log-file" o.log_file
            ++ (named_arguments "--note" o.note
                ++ (flag_arguments "--skip-database" o.skip_database
                    ++ (flag_arguments "--skip-file" o.skip_file ++ mode_arguments mode)))))

-- What has been read, before the mode.
abbrev read_so_far : (r e l n : Option String) → (d f : Bool) → Arguments
read_so_far r e l n d f = record {
  mode = recorded;
  applied = [];
  options = record {
    release_version = r;
    environment = e;
    log_file = l;
    note = n;
    skip_database = d;
    skip_file = f;
  };
}

module _ (split : String → List String) where
  read_release :
      (o : Option String) (rest : List String)
      → parse_from split
          (named_arguments "--release" o ++ rest)
          (read_so_far none none none none false false)
        ≡ parse_from split rest (read_so_far o none none none false false)
  unfolding parse_from take_argument named
  read_release none rest = refl
  read_release (some v) rest = refl

  read_environment :
      (r o : Option String) (rest : List String)
      → parse_from split
          (named_arguments "--environment" o ++ rest)
          (read_so_far r none none none false false)
        ≡ parse_from split rest (read_so_far r o none none false false)
  unfolding parse_from take_argument named
  read_environment r none rest = refl
  read_environment r (some v) rest = refl

  read_log_file :
      (r e o : Option String) (rest : List String)
      → parse_from split
          (named_arguments "--log-file" o ++ rest)
          (read_so_far r e none none false false)
        ≡ parse_from split rest (read_so_far r e o none false false)
  unfolding parse_from take_argument named
  read_log_file r e none rest = refl
  read_log_file r e (some v) rest = refl

  read_note :
      (r e l o : Option String) (rest : List String)
      → parse_from split (named_arguments "--note" o ++ rest) (read_so_far r e l none false false)
        ≡ parse_from split rest (read_so_far r e l o false false)
  unfolding parse_from take_argument named
  read_note r e l none rest = refl
  read_note r e l (some v) rest = refl

  read_skip_database :
      (r e l n : Option String) (d : Bool) (rest : List String)
      → parse_from split
          (flag_arguments "--skip-database" d ++ rest)
          (read_so_far r e l n false false)
        ≡ parse_from split rest (read_so_far r e l n d false)
  unfolding parse_from take_argument named
  read_skip_database r e l n false rest = refl
  read_skip_database r e l n true [] = refl
  read_skip_database r e l n true (x ∷ rest) = refl

  read_skip_file :
      (r e l n : Option String) (d f : Bool) (rest : List String)
      → parse_from split (flag_arguments "--skip-file" f ++ rest) (read_so_far r e l n d false)
        ≡ parse_from split rest (read_so_far r e l n d f)
  unfolding parse_from take_argument named
  read_skip_file r e l n d false rest = refl
  read_skip_file r e l n d true [] = refl
  read_skip_file r e l n d true (x ∷ rest) = refl

  read_mode :
      (r e l n : Option String) (d f : Bool) (mode : Mode)
      → parse_from split (mode_arguments mode) (read_so_far r e l n d f)
        ≡ record (read_so_far r e l n d f) { mode = mode }
  unfolding parse_from take_argument applied_with
  read_mode r e l n d f before = refl
  read_mode r e l n d f after = refl
  read_mode r e l n d f applied = refl
  read_mode r e l n d f recorded = refl

-- Options and a mode that are written on the command line, whatever their values, are read as they are.
-- The names of applied migrations are not written here.
pub parse_args-arguments_of :
    (split : String → List String) (o : MigrationAuditOptions) (mode : Mode)
    → parse_args split (arguments_of o mode) ≡ record { mode = mode; applied = []; options = o }
unfolding parse_args
parse_args-arguments_of split o mode =
    read_release split o.release_version _
    ∙ read_environment split o.release_version o.environment _
    ∙ read_log_file split o.release_version o.environment o.log_file _
    ∙ read_note split o.release_version o.environment o.log_file o.note _
    ∙ read_skip_database split o.release_version o.environment o.log_file o.note o.skip_database _
    ∙ read_skip_file split o.release_version o.environment o.log_file o.note o.skip_database
        o.skip_file _
    ∙ read_mode split o.release_version o.environment o.log_file o.note o.skip_database o.skip_file
        mode
