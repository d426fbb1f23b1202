-- ===== src/Diff/Schema/Same.antt =====
-- The diff of a schema with itself.
use skeema.Prelude.{
  Bool, true, false, List, [], ◌∷◌, none, some, text_eq, is_empty, ◌≡◌, refl, ap, ◌∙◌, All, ==_refl,
}
use skeema.Objects.{object_proc, object_func, ForeignKey, Table, Routine, Schema}
use skeema.Table.ByName.{find_named, has_name}
use skeema.Table.Compare.{table_diff}
use skeema.Diff.{new_alter_table, alter_of, diff_none}
use skeema.Diff.Schema.{
  MapOrder, TableStep, table_name, routine_name, altered_table, dropped_or_altered, table_step,
  table_steps, new_tables, compare_tables, routine_equals, routine_change, routine_changes,
  new_routines, routines_of_type, compare_routines, Routine-discrete, database_diff_type,
  database_diffs, new_schema_diff, object_diffs,
}

-- A table with the output of SHOW CREATE TABLE, found under its name.
pub record TableIn (tables : List Table) (t : Table) : Type 0 where
  pub found : find_named table_name t.name tables ≡ some t
  pub introspected : is_empty t.create_statement ≡ false

abbrev pub RoutineIn : List Routine → Routine → Type 0
RoutineIn routines r = find_named routine_name r.name routines ≡ some r

-- Ranging over the maps of a schema meets what the maps hold under the names.
pub record Ranges (order : MapOrder) (s : Schema) : Type 0 where
  pub tables : All (TableIn s.tables) (order.tables s.tables)
  pub procs :
      All
        (RoutineIn (routines_of_type object_proc s.routines))
        (order.routines (routines_of_type object_proc s.routines))
  pub funcs :
      All
        (RoutineIn (routines_of_type object_func s.routines))
        (order.routines (routines_of_type object_func s.routines))

table_diff_same :
    (order : List ForeignKey → List ForeignKey) (t : Table)
    → is_empty t.create_statement ≡ false
    → table_diff order t t ≡ ([], true)
unfolding table_diff
table_diff_same order t h = simp (h, ==_refl t.create_statement)

new_alter_table_same :
    (order : List ForeignKey → List ForeignKey) (t : Table)
    → is_empty t.create_statement ≡ false
    → new_alter_table order t t ≡ none
unfolding new_alter_table alter_of
new_alter_table_same order t h = ap (alter_of t t) (table_diff_same order t h)

no_step : TableStep
no_step = record { now = []; later = [] }

table_step_same :
    (order : MapOrder) (tables : List Table) (t : Table)
    → TableIn tables t
    → table_step order tables t ≡ no_step
unfolding table_step dropped_or_altered altered_table no_step
table_step_same order tables t h =
    ap (dropped_or_altered order t) h.found
    ∙ ap altered_table (new_alter_table_same order.foreign_keys t h.introspected)

table_steps_same :
    (order : MapOrder) (tables range : List Table)
    → All (TableIn tables) range
    → table_steps order tables range ≡ no_step
unfolding table_steps no_step
table_steps_same order tables [] h = refl
table_steps_same order tables (t ∷ range) h =
    rw (table_step_same order tables t h.0, table_steps_same order tables range h.1) refl

new_tables_same :
    (tables range : List Table) → All (TableIn tables) range → new_tables tables range ≡ []
unfolding new_tables has_name
new_tables_same tables [] h = refl
new_tables_same tables (t ∷ range) h =
    let known : has_name table_name t.name tables ≡ true = rw (has_name, h.0.found) refl in
    rw known (new_tables_same tables range h.1)

compare_tables_same :
    (order : MapOrder) (s : Schema) → Ranges order s → compare_tables order (some s) (some s) ≡ []
unfolding compare_tables no_step
compare_tables_same order s h =
    rw
      (
        table_steps_same order s.tables (order.tables s.tables) h.tables,
        new_tables_same s.tables (order.tables s.tables) h.tables,
      )
      refl

routine_equals_refl : (r : Routine) → routine_equals r r ≡ true
unfolding routine_equals
routine_equals_refl r =
    elim (Routine-discrete r r)
      as (λ d. elim d as (λ x. Bool) [ yes p ↦ true | no n ↦ false ] ≡ true) [
        | yes p ↦ refl
        | no n ↦ absurd (n refl)
      ]

routine_change_same : (r : Routine) → routine_change r (some r) ≡ []
unfolding routine_change
routine_change_same r = simp (routine_equals_refl r)

routine_changes_same :
    (routines range : List Routine)
    → All (RoutineIn routines) range
    → routine_changes routines range ≡ []
unfolding routine_changes
routine_changes_same routines [] h = refl
routine_changes_same routines (r ∷ range) h =
    rw (h.0, routine_change_same r) (routine_changes_same routines range h.1)

new_routines_same :
    (routines range : List Routine)
    → All (RoutineIn routines) range
    → new_routines routines range ≡ []
unfolding new_routines has_name
new_routines_same routines [] h = refl
new_routines_same routines (r ∷ range) h =
    let known : has_name routine_name r.name routines ≡ true = rw (has_name, h.0) refl in
    rw known (new_routines_same routines range h.1)

compare_routines_same :
    (order : MapOrder) (s : Schema) → Ranges order s → compare_routines order (some s) (some s) ≡ []
unfolding compare_routines
compare_routines_same order s h =
    let procs = routines_of_type object_proc s.routines in
    let funcs = routines_of_type object_func s.routines in
    rw
      (
        routine_changes_same procs (order.routines procs) h.procs,
        new_routines_same procs (order.routines procs) h.procs,
        routine_changes_same funcs (order.routines funcs) h.funcs,
        new_routines_same funcs (order.routines funcs) h.funcs,
      )
      refl

database_diff_type_same : (s : Schema) → database_diff_type (some s) (some s) ≡ diff_none
unfolding database_diff_type
database_diff_type_same s = simp (==_refl s.char_set, ==_refl s.collation)

database_diffs_same : (s : Schema) → database_diffs (some s) (some s) ≡ []
unfolding database_diffs
database_diffs_same s = rw (database_diffs, database_diff_type_same s) refl

-- NewSchemaDiff on a schema and itself: if ranging over the maps of the schema meets objects that
-- the maps hold under their names, and every table has its SHOW CREATE TABLE, there are no diffs.
pub schema_diff_same_empty :
    (order : MapOrder) (s : Schema)
    → Ranges order s
    → object_diffs (new_schema_diff order (some s) (some s)) ≡ []
unfolding object_diffs new_schema_diff
schema_diff_same_empty order s h =
    rw (database_diffs_same s, compare_tables_same order s h, compare_routines_same order s h) refl
