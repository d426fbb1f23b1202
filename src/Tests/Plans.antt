-- ===== src/Tests/Plans.antt =====
-- Runs of what is planned, printed and noted for a target.
use skeema.Prelude.{
  Bool, true, false, List, [], ◌∷◌, none, some, Text, txt, text_eq, bool_eq, ◌≡◌, ◌⊎◌, refl,
  if◌then◌else◌, replace_byte, has_prefix, length,
}
use skeema.Escape.{escape_identifier}
use skeema.Flavor.{flavor_mysql}
use skeema.Objects.{Index, IndexPart, index_part_eq, Table, object_type_eq}
use skeema.Objects.Create.{drop_table_statement}
use skeema.Objects.Compare.{index_equivalent, same_part_list}
use skeema.Objects.Redundant.{redundant_to, parts_redundant, part_redundant}
use skeema.Clause.{StatementModifiers}
use skeema.Diff.{TableDiff, drop_table, create_table}
use skeema.Diff.Statement.{table_diff_statement}
use skeema.Diff.Schema.{table_object_diff, SchemaDiff, object_diffs}
use skeema.Applier.Modifiers.{Config, no_modifiers}
use skeema.Applier.Printer.{Planned, new_printer, output, print_all}
use skeema.Applier.Printer.Reading.{
  Run, client, step, take_statement, take_line, after, has_byte, may_begin, is_sql, ends_once,
  readable, all_readable,
}
use skeema.Applier.Printer.Client.{AllFit, print_all_runs_each}
use skeema.Applier.Ddl.{
  Instance, Target, DdlStatement, object_diff_key, object_diff_type, object_diff_statement, key_is,
  need_table_size, get_table_size, size_below, sized_modifiers, get_wrapper, get_connect_params,
  is_compound_statement,
}
use skeema.Applier.Ddl.Plan.{Surroundings, planned, plan_result, plan_statement, new_ddl_statement}
use skeema.Applier.Ddl.Plan.Unsafe.{
  destructive, SafelySmall, new_ddl_statement_plans_unsafe_only_if_allowed,
}
use skeema.Applier.Apply.Counting.{any_fails, planned_of}
use skeema.Applier.ApplyTarget.{Environment, apply_diff}
use skeema.Applier.ApplyTarget.AllOrNothing.{PrefixOf, apply_diff_runs_all_or_nothing}
use skeema.Linter.DupeIndex.{
  redundant_to_key, dupe_index_checker, notes_from, index_notes, first_redundant, notes_of,
}
use skeema.Linter.DupeIndex.Complete.{
  dupe_index_checker_finds_redundant, dupe_index_checker_misses_invisible, redundant_at,
}

abbrev part : Text → IndexPart
part name = record { column_name = name; expression = []; prefix_length = 0; descending = false }

abbrev index : Text → List IndexPart → Bool → Index
index name parts invisible = record {
  name = name;
  parts = parts;
  primary_key = false;
  unique = false;
  invisible = invisible;
  comment = [];
  type = txt "BTREE";
  full_text_parser = [];
}

abbrev small_table : List Index → Table
small_table indexes = record {
  name = txt "tags";
  engine = txt "InnoDB";
  char_set = txt "utf8mb4";
  collation = txt "utf8mb4_general_ci";
  collation_is_default = true;
  create_options = [];
  columns = [];
  primary_key = none;
  secondary_indexes = indexes;
  foreign_keys = [];
  checks = [];
  comment = [];
  tablespace = [];
  next_auto_increment = 0;
  partitioning = none;
  unsupported_ddl = false;
  create_statement = txt "CREATE TABLE `tags` ()";
}

abbrev tags : Table
tags = small_table []

abbrev server : Instance
server = record {
  host = txt "db1";
  port = 3306;
  socket_path = [];
  table_has_rows = λ schema table. (true, none);
  table_size = λ schema table. (100, none);
}

-- Sizes below 1000 are safe.
abbrev options : Config
options = record {
  get = λ option. [];
  get_allow_env_var = λ option. [];
  get_bool = λ option. false;
  changed = λ option. true;
  get_bytes = λ option. (1000, none);
  get_enum = λ option allowed. ([], none);
}

abbrev target : Target
target = record {
  instance_ = server;
  config = options;
  dir_name = txt "blog";
  dir_path = txt "/blog";
  schema_name = txt "blog";
}

abbrev around : Surroundings
around = record { real_connect_options = λ options'. (options', none); wrap = λ s. s }

abbrev mods : StatementModifiers
mods = no_modifiers (flavor_mysql 8 0)

abbrev drop_tags : TableDiff
drop_tags = drop_table tags

abbrev dropped : DdlStatement
dropped = record {
  stmt = txt "DROP TABLE `tags`";
  compound = false;
  shell_out = none;
  instance_ = server;
  schema_name = txt "blog";
  connect_params = txt "readTimeout=0";
}

drop_tags-destructive : destructive drop_tags ≡ true
unfolding destructive
drop_tags-destructive = refl

drop_tags-planned :
    new_ddl_statement around (table_object_diff drop_tags) mods target ≡ planned dropped
unfolding new_ddl_statement sized_modifiers need_table_size get_table_size size_below key_is
    object_diff_key object_diff_type get_wrapper object_diff_statement table_diff_statement
    plan_result plan_statement is_compound_statement get_connect_params drop_table_statement
    escape_identifier replace_byte object_type_eq
drop_tags-planned = refl

new_ddl_statement_plans_unsafe_only_if_allowed_example :
    (mods.allow_unsafe ≡ true) ⊎ SafelySmall (table_object_diff drop_tags) target
new_ddl_statement_plans_unsafe_only_if_allowed_example =
    new_ddl_statement_plans_unsafe_only_if_allowed around drop_tags mods target
      drop_tags-destructive drop_tags-planned

abbrev tags_diff : SchemaDiff
tags_diff = record {
  from_schema = none;
  to_schema = none;
  table_diffs = drop_tags ∷ create_table tags ∷ [];
  routine_diffs = [];
}

abbrev env : Environment
env = record {
  surroundings = around;
  order = record { tables = λ l. l; routines = λ l. l; foreign_keys = λ l. l };
  flavor = flavor_mysql 8 0;
  schema_from_instance = (none, none);
  verify = record {
    config = options;
    flavor = flavor_mysql 8 0;
    order = λ l. l;
    options_error = none;
    exec_logical_schema = λ s. record { tables = []; failures = []; error = none };
  };
  lint_options = none;
  lint_errors = λ keys. 0;
  execute = λ n stmt. none;
}

apply_diff_runs_all_or_nothing_example : PrefixOf (apply_diff env target mods tags_diff none).done (
    if any_fails (λ d. new_ddl_statement around d mods target) (object_diffs tags_diff)
    then []
    else planned_of (λ d. new_ddl_statement around d mods target) (object_diffs tags_diff))
apply_diff_runs_all_or_nothing_example = apply_diff_runs_all_or_nothing env target mods tags_diff

abbrev in_schema : Text → Text → Text → Planned
in_schema schema delimiter statement = record {
  statement = statement;
  client_state = record {
    instance_name = txt "db1:3306";
    schema_name = schema;
    delimiter = delimiter;
  };
}

abbrev three_statements : List Planned
three_statements =
    in_schema (txt "blog") (txt "//") (txt "CREATE PROCEDURE p() BEGIN SELECT 1; END")
    ∷ in_schema (txt "blog") [] (txt "\\! pt-osc --alter 'ADD KEY (a)'")
    ∷ in_schema (txt "a`b") (txt ";") (txt "DROP TABLE `tags`")
    ∷ []

three_statements_readable : all_readable three_statements ≡ true
unfolding all_readable readable has_byte has_prefix is_sql may_begin ends_once
three_statements_readable = refl

print_all_runs_each_example :
    (runs : List Run) × ((client
          (length (output (print_all three_statements new_printer)))
          new_printer
          (output (print_all three_statements new_printer))
        ≡ some runs)
      × AllFit three_statements runs)
print_all_runs_each_example =
    print_all_runs_each three_statements new_printer three_statements_readable

-- A statement with its delimiter inside is not read as one.
split_statement : client 9 new_printer (txt "SELECT ';';\n") ≡ none
unfolding client step take_statement take_line has_prefix after text_eq
split_statement = refl

abbrev on_a : Index
on_a = index (txt "on_a") (part (txt "a") ∷ []) false

abbrev on_b : Index
on_b = index (txt "on_b") (part (txt "b") ∷ []) false

abbrev hidden_a : Index
hidden_a = index (txt "hidden_a") (part (txt "a") ∷ []) true

quiet_pair : dupe_index_checker (small_table (on_a ∷ on_b ∷ [])) ≡ []
unfolding dupe_index_checker notes_from index_notes first_redundant notes_of redundant_to_key
    redundant_to parts_redundant part_redundant text_eq
quiet_pair = refl

dupe_index_checker_finds_redundant_example :
    (redundant_to_key on_a none ≡ false) × (redundant_at 0 on_a 1 (some on_b) ≡ false)
dupe_index_checker_finds_redundant_example =
    dupe_index_checker_finds_redundant (small_table (on_a ∷ on_b ∷ [])) 0 1
      ((refl, refl), ((refl, refl), _)) quiet_pair refl

hidden_a-equivalent : index_equivalent hidden_a on_a ≡ true
unfolding index_equivalent same_part_list index_part_eq text_eq
hidden_a-equivalent = refl

dupe_index_checker_misses_invisible_example :
    (redundant_to hidden_a on_a ≡ true)
    × (dupe_index_checker (small_table (hidden_a ∷ on_a ∷ [])) ≡ [])
dupe_index_checker_misses_invisible_example =
    dupe_index_checker_misses_invisible (small_table (hidden_a ∷ on_a ∷ [])) hidden_a on_a refl refl
      refl hidden_a-equivalent refl refl
