-- ===== src/Applier/Verify.antt =====
-- VerifyDiff of internal/applier/verifier.go. Parameters: the options of the workspace, and what
-- ExecLogicalSchema makes of a logical schema.
pub mod Checked
use skeema.Prelude.{
  ℕ, Bool, true, false, not, ◌&&◌, ◌||◌, List, [], ◌∷◌, ◌++◌, Option, none, some, Text, txt,
  text_eq, ◌==◌, if◌then◌else◌, is_empty, replace_first,
}
use skeema.Flavor.{Flavor, flavor_mysql, matches}
use skeema.Objects.{ForeignKey, ObjectKey, object_table, Table}
use skeema.Statement.{Statement, StatementType, statement_create, statement_alter}
use skeema.Clause.{StatementModifiers, auto_inc_always, partitioning_permissive}
use skeema.Table.ByName.{find_named}
use skeema.Diff.{
  DiffType, DiffError, forbidden, unsupported, other_error, AlterTable, TableDiff, create_table,
  drop_table, alter_table, new_alter_table,
}
use skeema.Diff.Statement.{alter_statement}
use skeema.Diff.Schema.{SchemaDiff, table_name}
use skeema.Fs.{LogicalSchema, new_logical_schema, add_statement}
use skeema.Applier.Modifiers.{Config}

-- A workspace's schema: its tables, and the texts of the statements' failures.
pub record Workspace : Type 0 where
  pub tables : List Table
  pub failures : List Text
  pub error : Option Text

pub record VerifyEnv : Type 0 where
  pub config : Config
  pub flavor : Flavor
  pub order : List ForeignKey → List ForeignKey
  pub options_error : Option Text
  pub exec_logical_schema : LogicalSchema → Workspace

pub data VerifyError : Type 0 where
  options_failed workspace_failed : Text → VerifyError
  unsupported_table unexpected_error : Text → DiffError → VerifyError
  incomplete : (table statement : Text) → VerifyError
  missing_table_panic : Text → VerifyError

-- FilteredTableDiffs(DiffTypeAlter)
unfoldable pub alters_in : List TableDiff → List AlterTable
alters_in [] = []
alters_in (create_table to ∷ tds) = alters_in tds
alters_in (drop_table from ∷ tds) = alters_in tds
alters_in (alter_table td ∷ tds) = td ∷ alters_in tds

-- The strict modifiers of the first diff.
unfoldable pub verify_modifiers : Flavor → StatementModifiers
unfolding matches
verify_modifiers flavor = record {
  next_auto_inc = auto_inc_always;
  partitioning = partitioning_permissive;
  allow_unsafe = true;
  lock_clause = [];
  algorithm_clause = if matches flavor (flavor_mysql 5 5) then [] else txt "copy";
  strict_index_order = true;
  strict_check_order = true;
  strict_foreign_key_naming = true;
  strict_column_definition = true;
  compare_metadata = false;
  virtual_col_validation = false;
  skip_pre_drop_alters = true;
  flavor = flavor;
}

-- Those of the second.
unfoldable pub recheck_modifiers : Flavor → StatementModifiers
unfolding verify_modifiers
recheck_modifiers flavor = record (verify_modifiers flavor) {
  strict_column_definition = false;
  algorithm_clause = [];
}

abbrev table_statement : StatementType → Table → Text → Statement
table_statement type from text = record {
  file = [];
  line_no = 0;
  char_no = 0;
  text = text;
  default_database = [];
  type = type;
  object_type = object_table;
  object_name = from.name;
  object_qualifier = [];
  delimiter = [];
  compound = false;
  name_clause = [];
}

-- An entry of desiredTables.
pub record Desired : Type 0 where
  pub name : Text
  pub table : Table

unfoldable pub put_desired : Text → Table → List Desired → List Desired
unfolding text_eq
put_desired name t [] = record { name = name; table = t } ∷ []
put_desired name t (d ∷ ds) =
    if name == d.name then record d { table = t } ∷ ds else d ∷ put_desired name t ds

pub record Gathering : Type 0 where
  pub schema : LogicalSchema
  pub desired : List Desired

-- The diff has a statement, and no error.
unfoldable pub generates : Text × Option DiffError → Bool
generates (stmt, none) = not (is_empty stmt)
generates (stmt, some e) = false

-- The errors of AddStatement are ignored.
unfoldable pub gather_alter : StatementModifiers → AlterTable → Gathering → Gathering
unfolding add_statement put_desired generates
gather_alter mods td g =
    let stmt = alter_statement td mods in
    let created =
      (add_statement g.schema
        (table_statement statement_create td.from td.from.create_statement)).0 in
    let altered = (add_statement created (table_statement statement_alter td.from stmt.0)).0 in
    if generates stmt
    then record { schema = altered; desired = put_desired td.from.name td.to g.desired }
    else g

unfoldable pub gather_alters : StatementModifiers → List AlterTable → Gathering → Gathering
unfolding gather_alter
gather_alters mods [] g = g
gather_alters mods (td ∷ tds) g = gather_alters mods tds (gather_alter mods td g)

-- The end of verifyTable. The descriptions of the two sides, which it changes too, are no part of an
-- error here.
unfoldable pub judge_statement : Text → Text × Option DiffError → Option VerifyError
judge_statement name (stmt, some (unsupported key reason expected actual)) = some (
    unsupported_table name (
      unsupported key (replace_first reason (txt "original state") (txt "post-verification state"))
        expected actual))
judge_statement name (stmt, some (forbidden reason text)) =
    some (unexpected_error name (forbidden reason text))
judge_statement name (stmt, some (other_error e)) = some (unexpected_error name (other_error e))
judge_statement name ([], none) = none
judge_statement name (c ∷ stmt, none) = some (incomplete name (c ∷ stmt))

-- TableDiff.Statement on a pointer that may be nil.
unfoldable pub optional_statement : Option AlterTable → StatementModifiers → Text × Option DiffError
optional_statement none mods = ([], none)
optional_statement (some td) mods = alter_statement td mods

-- verifyTable; Table.Diff dereferences the table that may be nil.
unfoldable pub verify_table :
    (List ForeignKey → List ForeignKey)
    → StatementModifiers
    → Option Table
    → Table
    → Option VerifyError
unfolding judge_statement optional_statement new_alter_table
verify_table order mods none desired = some (missing_table_panic desired.name)
verify_table order mods (some actual) desired =
    judge_statement desired.name (optional_statement (new_alter_table order actual desired) mods)

abbrev pub first_error : Option VerifyError → Option VerifyError → Option VerifyError
first_error (some e) rest = some e
first_error none rest = rest

-- The range over desiredTables, in the order of the list.
unfoldable pub verify_tables :
    (List ForeignKey → List ForeignKey)
    → StatementModifiers
    → List Table
    → List Desired
    → Option VerifyError
unfolding verify_table find_named
verify_tables order mods actual [] = none
verify_tables order mods actual (d ∷ ds) =
    first_error (verify_table order mods (find_named table_name d.name actual) d.table)
      (verify_tables order mods actual ds)

abbrev pub check_workspace :
    VerifyEnv → List Desired → Option Text → List Text → List Table → Option VerifyError
check_workspace env desired (some e) failures tables = some (workspace_failed e)
check_workspace env desired none (f ∷ failures) tables = some (workspace_failed f)
check_workspace env desired none [] tables =
    verify_tables env.order (recheck_modifiers env.flavor) tables desired

abbrev pub run_workspace : VerifyEnv → Gathering → Option Text → Option VerifyError
run_workspace env g (some e) = some (options_failed e)
run_workspace env g none =
    let ws = env.exec_logical_schema g.schema in
    check_workspace env g.desired ws.error ws.failures ws.tables

abbrev pub nothing_gathered : VerifyEnv → Gathering
nothing_gathered env = record {
  schema = record new_logical_schema {
    char_set = env.config.get (txt "default-character-set");
    collation = env.config.get (txt "default-collation");
  };
  desired = [];
}

abbrev pub gathered : VerifyEnv → List AlterTable → Gathering
gathered env alters = gather_alters (verify_modifiers env.flavor) alters (nothing_gathered env)

abbrev pub verify_alters : VerifyEnv → List AlterTable → Option VerifyError
verify_alters env [] = none
verify_alters env (td ∷ tds) = run_workspace env (gathered env (td ∷ tds)) env.options_error

-- VerifyDiff
unfoldable pub verify_diff : VerifyEnv → SchemaDiff → Option VerifyError
unfolding alters_in gather_alters verify_modifiers recheck_modifiers verify_tables
verify_diff env diff =
    if env.config.get_bool (txt "verify")
    then verify_alters env (alters_in diff.table_diffs)
    else none

abbrev failure_header : Text → Text
failure_header table = txt "Diff verification failure on table " ++ table

-- The text of an error; ExtendedError and the text of an error of a diff are parameters.
unfoldable pub verify_error_text : (DiffError → Text) → (DiffError → Text) → VerifyError → Text
verify_error_text extended text (options_failed e) = e
verify_error_text extended text (workspace_failed e) = txt "Diff verification failure: " ++ e
verify_error_text extended text (unsupported_table table e) =
    failure_header table
    ++ (txt
          ". This may indicate a Skeema bug.\nRun command again with --skip-verify if this discrepancy is safe to ignore.\nDebug details: "
        ++ extended e)
verify_error_text extended text (unexpected_error table e) =
    failure_header table
    ++ (txt " due to unexpected error: "
        ++ (text e ++ txt ".\nRun command again with --skip-verify if this is safe to ignore."))
verify_error_text extended text (incomplete table stmt) =
    failure_header table
    ++ (txt
          ": the generated ALTER TABLE does not fully bring the table to the desired state.\nRun command again with --skip-verify if this discrepancy is safe to ignore.\nDebug details: secondary verification diff is non-empty, yielding this DDL: "
        ++ stmt)
verify_error_text extended text (missing_table_panic table) = []
