-- ===== src/Tests/Verify.antt =====
-- A run of the verification of a diff.
use skeema.Prelude.{true, false, [], ◌∷◌, none, Text, txt}
use skeema.Flavor.{flavor_mysql}
use skeema.Objects.{Table}
use skeema.Clause.{change_comment}
use skeema.Diff.{AlterTable, alter_table}
use skeema.Diff.Schema.{SchemaDiff}
use skeema.Applier.Modifiers.{Config}
use skeema.Applier.Verify.{VerifyEnv}
use skeema.Applier.Verify.Checked.{Checked}

abbrev commented : Text → Text → Table
commented comment create = record {
  name = txt "tags";
  engine = txt "InnoDB";
  char_set = txt "utf8mb4";
  collation = txt "utf8mb4_general_ci";
  collation_is_default = true;
  create_options = [];
  columns = [];
  primary_key = none;
  secondary_indexes = [];
  foreign_keys = [];
  checks = [];
  comment = comment;
  tablespace = [];
  next_auto_increment = 0;
  partitioning = none;
  unsupported_ddl = false;
  create_statement = create;
}

abbrev before : Table
before = commented [] (txt "CREATE TABLE `tags` ()")

abbrev after : Table
after = commented (txt "x") (txt "CREATE TABLE `tags` () COMMENT='x'")

abbrev alteration : AlterTable
alteration = record {
  from = before;
  to = after;
  alter_clauses = change_comment (txt "x") ∷ [];
  supported = true;
}

abbrev diff : SchemaDiff
diff = record {
  from_schema = none;
  to_schema = none;
  table_diffs = alter_table alteration ∷ [];
  routine_diffs = [];
}

abbrev verifying : Config
verifying = record {
  get = λ option. [];
  get_allow_env_var = λ option. [];
  get_bool = λ option. true;
  changed = λ option. true;
  get_bytes = λ option. (0, none);
  get_enum = λ option allowed. ([], none);
}

-- The workspace ends with the altered table.
abbrev env : VerifyEnv
env = record {
  config = verifying;
  flavor = flavor_mysql 8 0;
  order = λ l. l;
  options_error = none;
  exec_logical_schema = λ schema. record { tables = after ∷ []; failures = []; error = none };
}
