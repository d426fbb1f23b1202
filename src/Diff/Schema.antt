-- ===== src/Diff/Schema.antt =====
-- Schema diffs of internal/tengo/diff.go: compareTables, compareRoutines, ObjectDiffs, and the
-- statements of database diffs. Names are unique in a schema, so a map by name holds
-- every object once; the order in which Go ranges over such a map is an argument.
pub mod Order
pub mod Same
use skeema.Prelude.{
  ℕ, Bool, true, false, not, ◌&&◌, ◌||◌, List, [], ◌∷◌, ◌++◌, map, Option, none, some, Text, txt,
  text_eq, ◌==◌, ◌!=◌, if◌then◌else◌, is_empty, replace_first, ℕ_discrete,
}
use skeema.Escape.{escape_identifier}
use skeema.Flavor.{is_mariadb}
use skeema.Objects.{
  ObjectType, object_nil, object_database, object_table, object_proc, object_func, object_type_eq,
  ObjectKey, ForeignKey, Table, Routine, Schema,
}
use skeema.Objects.Create.{
  caps, routine_key, drop_routine_statement, create_database_statement, drop_database_statement,
  alter_database_statement,
}
use skeema.Clause.{StatementModifiers}
use skeema.Table.ByName.{find_named, has_name}
use skeema.Diff.{
  DiffType, diff_none, diff_create, diff_drop, diff_alter, DiffError, forbidden, other_error,
  AlterTable, TableDiff, create_table, drop_table, alter_table, new_alter_table,
}
use skeema.Diff.Split.{split_add_foreign_keys, split_conflicts, pre_drop_alters}

-- The orders in which Go ranges over maps whose values these are.
pub record MapOrder : Type 0 where
  pub tables : List Table → List Table
  pub routines : List Routine → List Routine
  pub foreign_keys : List ForeignKey → List ForeignKey

abbrev pub table_name : Table → Text
table_name t = t.name

abbrev pub routine_name : Routine → Text
routine_name r = r.name

-- The diffs that one table of `from` gives in place, and the one put off.
pub record TableStep : Type 0 where
  pub now : List TableDiff
  pub later : List TableDiff

abbrev optional_alter : Option AlterTable → List TableDiff
optional_alter none = []
optional_alter (some td) = alter_table td ∷ []

unfoldable pub altered_table : Option AlterTable → TableStep
altered_table none = record { now = []; later = [] }
altered_table (some td) =
    let (other_alter, add_fk_alter) = split_add_foreign_keys td in
    record {
      now = map alter_table (split_conflicts other_alter);
      later = optional_alter add_fk_alter;
    }

-- What `toByName[name]` says decides between a dropped and a compared table.
unfoldable pub dropped_or_altered : MapOrder → Table → Option Table → TableStep
unfolding altered_table
dropped_or_altered order from none = record {
  now = map alter_table (pre_drop_alters from) ++ drop_table from ∷ [];
  later = [];
}
dropped_or_altered order from (some to) = altered_table (new_alter_table order.foreign_keys from to)

-- The body of the loop over the tables of `from`.
unfoldable pub table_step : MapOrder → List Table → Table → TableStep
unfolding find_named dropped_or_altered
table_step order to_tables from =
    dropped_or_altered order from (find_named table_name from.name to_tables)

unfoldable pub table_steps : MapOrder → List Table → List Table → TableStep
unfolding table_step
table_steps order to_tables [] = record { now = []; later = [] }
table_steps order to_tables (from ∷ range) =
    let step = table_step order to_tables from in
    let rest = table_steps order to_tables range in
    record { now = step.now ++ rest.now; later = step.later ++ rest.later }

unfoldable pub new_tables : List Table → List Table → List TableDiff
unfolding has_name
new_tables from_tables [] = []
new_tables from_tables (to ∷ range) =
    let rest = new_tables from_tables range in
    if has_name table_name to.name from_tables then rest else create_table to ∷ rest

-- A nil schema has no tables.
abbrev pub tables_of : Option Schema → List Table
tables_of none = []
tables_of (some s) = s.tables

unfoldable pub compare_tables : MapOrder → Option Schema → Option Schema → List TableDiff
unfolding table_steps new_tables
compare_tables order from to =
    let steps = table_steps order (tables_of to) (order.tables (tables_of from)) in
    steps.now ++ (new_tables (tables_of from) (order.tables (tables_of to)) ++ steps.later)

pub record RoutineDiff : Type 0 where
  pub from : Option Routine
  pub to : Option Routine
  pub for_replace : Bool
  pub for_metadata : Bool

pub Routine-discrete : Discrete Routine
Routine-discrete = hlevel ℕ_discrete

-- Routine.Equals: `*r == *other`
unfoldable pub routine_equals : Routine → Routine → Bool
unfolding Routine-discrete ℕ_discrete
routine_equals r other = elim (Routine-discrete r other) [ yes p ↦ true | no n ↦ false ]

dropped_routine : Routine → Bool → Bool → RoutineDiff
dropped_routine r replace metadata = record {
  from = some r;
  to = none;
  for_replace = replace;
  for_metadata = metadata;
}

created_routine : Routine → Bool → Bool → RoutineDiff
created_routine r replace metadata = record {
  from = none;
  to = some r;
  for_replace = replace;
  for_metadata = metadata;
}

-- What one routine of `from` gives, by what `toByName[name]` says.
unfoldable pub routine_change : Routine → Option Routine → List RoutineDiff
unfolding routine_equals dropped_routine created_routine text_eq
routine_change from none = dropped_routine from false false ∷ []
routine_change from (some to) =
    let metadata_only = from.create_statement == to.create_statement in
    if not (routine_equals from to)
    then dropped_routine from true metadata_only ∷ created_routine to true metadata_only ∷ []
    else []

-- The first loop of the closure `compare`.
unfoldable pub routine_changes : List Routine → List Routine → List RoutineDiff
unfolding find_named routine_change
routine_changes to_routines [] = []
routine_changes to_routines (from ∷ range) =
    routine_change from (find_named routine_name from.name to_routines)
    ++ routine_changes to_routines range

unfoldable pub new_routines : List Routine → List Routine → List RoutineDiff
unfolding has_name created_routine
new_routines from_routines [] = []
new_routines from_routines (to ∷ range) =
    let rest = new_routines from_routines range in
    if has_name routine_name to.name from_routines
    then rest
    else created_routine to false false ∷ rest

-- routinesByNameAndType
unfoldable pub routines_of_type : ObjectType → List Routine → List Routine
unfolding object_type_eq
routines_of_type type [] = []
routines_of_type type (r ∷ rs) =
    let rest = routines_of_type type rs in if r.type == type then r ∷ rest else rest

abbrev pub routines_of : Option Schema → List Routine
routines_of none = []
routines_of (some s) = s.routines

abbrev compare_routine_maps : MapOrder → List Routine → List Routine → List RoutineDiff
compare_routine_maps order from to =
    routine_changes to (order.routines from) ++ new_routines from (order.routines to)

unfoldable pub compare_routines : MapOrder → Option Schema → Option Schema → List RoutineDiff
unfolding routine_changes new_routines routines_of_type
compare_routines order from to =
    compare_routine_maps order (routines_of_type object_proc (routines_of from))
      (routines_of_type object_proc (routines_of to))
    ++ compare_routine_maps order (routines_of_type object_func (routines_of from))
        (routines_of_type object_func (routines_of to))

unfoldable pub database_diff_type : Option Schema → Option Schema → DiffType
unfolding text_eq
database_diff_type none none = diff_none
database_diff_type none (some to) = diff_create
database_diff_type (some from) none = diff_drop
database_diff_type (some from) (some to) =
    if from.char_set != to.char_set || from.collation != to.collation then diff_alter else diff_none

unfoldable pub database_diff_statement : Option Schema → Option Schema → Text × Option DiffError
unfolding database_diff_type
database_diff_statement none none = ([], none)
database_diff_statement none (some to) = (create_database_statement to, none)
database_diff_statement (some from) none =
    let stmt = drop_database_statement from in
    (stmt, some (forbidden (txt "DROP DATABASE never permitted") stmt))
database_diff_statement (some from) (some to) = elim (database_diff_type (some from) (some to)) [
  | diff_alter ↦ (alter_database_statement from to.char_set to.collation, none)
  | _ ↦ ([], none)
]

-- The elements of ObjectDiffs.
pub data ObjectDiff : Type 0 where
  database_diff : (from to : Option Schema) → ObjectDiff
  table_object_diff : TableDiff → ObjectDiff
  routine_object_diff : RoutineDiff → ObjectDiff

pub record SchemaDiff : Type 0 where
  pub from_schema : Option Schema
  pub to_schema : Option Schema
  pub table_diffs : List TableDiff
  pub routine_diffs : List RoutineDiff

unfoldable pub new_schema_diff : MapOrder → Option Schema → Option Schema → SchemaDiff
new_schema_diff order from to = record {
  from_schema = from;
  to_schema = to;
  table_diffs = compare_tables order from to;
  routine_diffs = compare_routines order from to;
}

unfoldable pub database_diffs : Option Schema → Option Schema → List ObjectDiff
unfolding database_diff_type
database_diffs from to = elim (database_diff_type from to) [
  | diff_none ↦ []
  | _ ↦ database_diff from to ∷ []
]

unfoldable pub object_diffs : SchemaDiff → List ObjectDiff
unfolding database_diffs
object_diffs sd =
    database_diffs sd.from_schema sd.to_schema
    ++ (map table_object_diff sd.table_diffs ++ map routine_object_diff sd.routine_diffs)
