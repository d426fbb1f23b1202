-- ===== src/Applier/Verify/Checked.antt =====
-- What a VerifyDiff without an error has checked.
use skeema.Prelude.{
  ◌&&◌, List, [], ◌∷◌, Option, none, some, Text, text_eq, ◌==◌, if◌then◌else◌, ◌≡◌,
}
use skeema.Objects.{Table}
use skeema.Clause.{StatementModifiers}
use skeema.Table.ByName.{find_named}
use skeema.Diff.{AlterTable, new_alter_table}
use skeema.Diff.Statement.{alter_statement}
use skeema.Diff.Schema.{table_name}
use skeema.Fs.{LogicalSchema}
use skeema.Fs.Adding.{or_else}
use skeema.Applier.Verify.{VerifyEnv, recheck_modifiers, Desired, generates, optional_statement}

-- desiredTables[name]
unfoldable pub find_desired : Text → List Desired → Option Table
unfolding text_eq
find_desired name [] = none
find_desired name (d ∷ ds) = if name == d.name then some d.table else find_desired name ds

-- The desired version of a table: that of the last diff of it that has a statement.
unfoldable pub last_desired : StatementModifiers → Text → List AlterTable → Option Table
unfolding generates text_eq
last_desired mods name [] = none
last_desired mods name (td ∷ tds) =
    or_else (last_desired mods name tds)
      (if generates (alter_statement td mods) && name == td.from.name then some td.to else none)

-- The workspace ran the schema without failures, and the second diff of the table, between its
-- version there and the desired one, has no statement and no error.
pub record Checked (env : VerifyEnv) (schema : LogicalSchema) (name : Text) (to : Table)
    : Type 0 where
  pub ran : (env.exec_logical_schema schema).error ≡ none
  pub no_failures : (env.exec_logical_schema schema).failures ≡ []
  pub actual : Table
  pub found : find_named table_name name (env.exec_logical_schema schema).tables ≡ some actual
  pub same :
      optional_statement (new_alter_table env.order actual to) (recheck_modifiers env.flavor)
      ≡ ([], none)
