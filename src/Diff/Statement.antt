-- ===== src/Diff/Statement.antt =====
-- TableDiff.Statement, alterStatement and Clauses of internal/tengo/diff.go, and ClusteredIndexKey of
-- table.go.
pub mod Safety
use skeema.Prelude.{
  ℕ, Bool, true, false, not, ◌&&◌, ◌||◌, List, [], ◌∷◌, ◌++◌, Option, none, some, Text, txt,
  text_eq, ◌==◌, ◌!=◌, if◌then◌else◌, is_empty, join, to_upper, replace_first,
}
use skeema.Escape.{escape_identifier}
use skeema.Objects.{Column, Index, IndexPart, Table, TablePartitioning}
use skeema.Objects.Create.{
  alter_table_statement, drop_table_statement, generated_create_statement, has_auto_increment,
  has_auto_increment_in, table_key,
}
use skeema.Clause.{
  TableAlterClause, add_column, modify_column, partition_by, remove_partitioning, modify_partitions,
  StatementModifiers, NextAutoIncMode, auto_inc_ignore, auto_inc_if_increased, auto_inc_if_already,
  auto_inc_always, PartitioningMode, partitioning_permissive, partitioning_remove,
  partitioning_keep,
}
use skeema.Clause.Write.{clause_text}
use skeema.Clause.Unsafe.{clause_unsafe}
use skeema.Table.ByName.{find_named}
use skeema.Table.Columns.{column_name}
use skeema.Diff.{
  AlterTable, TableDiff, create_table, drop_table, alter_table, DiffError, forbidden, unsupported,
}
use skeema.Diff.Parse.{parse_create_auto_inc, unpartitioned_create_statement}

-- Index.Functional
unfoldable pub functional : List IndexPart → Bool
functional [] = false
functional (p ∷ ps) = not (is_empty p.expression) || functional ps

-- The closure `nullable`: a part that is no column of the table, or a nullable one.
unfoldable pub nullable_part : List Column → List IndexPart → Bool
unfolding find_named
nullable_part columns [] = false
nullable_part columns (p ∷ ps) =
    let rest = nullable_part columns ps in
    elim (find_named column_name p.column_name columns) [
      | none ↦ true
      | some col ↦ col.nullable || rest
    ]

-- The first unique index made of non-nullable columns.
unfoldable pub unique_not_null : List Column → List Index → Option Index
unfolding functional nullable_part
unique_not_null columns [] = none
unique_not_null columns (i ∷ is) =
    let rest = unique_not_null columns is in
    if i.unique && not (functional i.parts) && not (nullable_part columns i.parts)
    then some i
    else rest

unfoldable pub clustered_index_key : Table → Option Index
unfolding unique_not_null text_eq
clustered_index_key t = if t.engine != txt "InnoDB" then none else elim t.primary_key [
  | some key ↦ some key
  | none ↦ unique_not_null t.columns t.secondary_indexes
]

-- ClusteredIndexKey() != PrimaryKey, as pointers: a primary key that is there is the one returned.
clusters_elsewhere : Table → Bool
unfolding clustered_index_key
clusters_elsewhere t = elim t.primary_key [
  | some key ↦ false
  | none ↦ elim (clustered_index_key t) [ none ↦ false | some key ↦ true ]
]

-- StrictIndexOrder is forced where the order of indexes picks the clustered one.
unfoldable pub effective_modifiers : Table → StatementModifiers → StatementModifiers
unfolding clusters_elsewhere text_eq
effective_modifiers to mods =
    if not mods.strict_index_order && to.engine == txt "InnoDB" && clusters_elsewhere to
    then record mods { strict_index_order = true }
    else mods

-- The variables of the loop over the clauses.
pub record Gathered : Type 0 where
  pub is_forbidden : Bool
  pub partition_clause : Text
  pub strings : List Text
  pub mods : StatementModifiers

unfoldable pub place_clause : TableAlterClause → Text → Gathered → Gathered
place_clause (partition_by partitioning re_partition) s g = record g { partition_clause = s }
place_clause remove_partitioning s g = record g { partition_clause = s }
place_clause (modify_partitions add drop for_drop_table) s g = record g {
  mods = record (g.mods) { lock_clause = []; algorithm_clause = [] };
  strings = g.strings ++ s ∷ [];
}
place_clause _ s g = record g { strings = g.strings ++ s ∷ [] }

abbrev judge_clause : TableAlterClause → Gathered → Gathered
judge_clause c g =
    if not g.is_forbidden && not (g.mods.allow_unsafe) && clause_unsafe c
    then record g { is_forbidden = true }
    else g

unfoldable pub gather_clause : TableAlterClause → Gathered → Gathered
unfolding place_clause
gather_clause c g =
    let s = clause_text c g.mods in
    let judged = judge_clause c g in if not (is_empty s) then place_clause c s judged else judged

unfoldable pub gather : List TableAlterClause → Gathered → Gathered
unfolding gather_clause
gather [] g = g
gather (c ∷ cs) g = gather cs (gather_clause c g)

unfoldable pub can_validate : List TableAlterClause → Bool
can_validate [] = false
can_validate (add_column table column first after ∷ cs) = column.virtual || can_validate cs
can_validate (modify_column table old new first after ∷ cs) = new.virtual || can_validate cs
can_validate (c ∷ cs) = can_validate cs

prepend_option : Text → Text → List Text → List Text
prepend_option keyword value strings =
    if is_empty value then strings else (keyword ++ to_upper value) ∷ strings

nothing_gathered : List Text → Text → Bool
nothing_gathered [] partition_clause = is_empty partition_clause
nothing_gathered (s ∷ strings) partition_clause = false

join_partition : List Text → Text → Text
join_partition [] partition_clause = partition_clause
join_partition (s ∷ strings) [] = []
join_partition (s ∷ strings) (c ∷ partition_clause) = txt " " ++ (c ∷ partition_clause)

-- The statement that the gathered clauses make.
unfoldable pub assemble : AlterTable → Gathered → Text
unfolding can_validate prepend_option join_partition join
assemble td g =
    let locked = prepend_option (txt "LOCK=") g.mods.lock_clause g.strings in
    let ordered = prepend_option (txt "ALGORITHM=") g.mods.algorithm_clause locked in
    let strings =
      if g.mods.virtual_col_validation && can_validate td.alter_clauses
      then ordered ++ txt "WITH VALIDATION" ∷ []
      else ordered in
    alter_table_statement td.from
    ++ (txt " " ++ (join (txt ", ") strings ++ join_partition strings g.partition_clause))

abbrev pub unsafe_reason : Text
unsafe_reason = txt "Unsafe or potentially destructive ALTER TABLE not permitted"

unsupported_error : AlterTable → StatementModifiers → DiffError
unsupported_error td mods =
    if td.to.unsupported_ddl
    then unsupported (table_key td.from)
        (txt
          "The desired state (\"to\" side of diff) contains unexpected or unsupported clauses in SHOW CREATE TABLE.")
        (generated_create_statement td.to mods.flavor) td.to.create_statement
    else if td.from.unsupported_ddl
    then unsupported (table_key td.from)
        (txt
          "The original state (\"from\" side of diff) contains unexpected or unsupported clauses in SHOW CREATE TABLE.")
        (generated_create_statement td.from mods.flavor) td.from.create_statement
    else unsupported (table_key td.from)
        (txt
          "The two sides of the diff vary in SHOW CREATE TABLE in unexpected ways, perhaps due to a bug in Skeema.")
        td.from.create_statement td.to.create_statement

abbrev pub start_gathering : StatementModifiers → Gathered
start_gathering mods = record {
  is_forbidden = false;
  partition_clause = [];
  strings = [];
  mods = mods;
}

unfoldable pub alter_statement : AlterTable → StatementModifiers → Text × Option DiffError
unfolding gather nothing_gathered unsupported_error
alter_statement td mods =
    let g = gather td.alter_clauses (start_gathering (effective_modifiers td.to mods)) in
    let stmt = assemble td g in
    if not td.supported
    then ([], some (unsupported_error td mods))
    else if nothing_gathered g.strings g.partition_clause
    then ([], none)
    else (stmt, if g.is_forbidden then some (forbidden unsafe_reason stmt) else none)

abbrev omits_auto_inc : NextAutoIncMode → Bool
omits_auto_inc auto_inc_ignore = true
omits_auto_inc auto_inc_if_increased = false
omits_auto_inc auto_inc_if_already = true
omits_auto_inc auto_inc_always = false

abbrev removes_partitioning : PartitioningMode → Bool
removes_partitioning partitioning_permissive = false
removes_partitioning partitioning_remove = true
removes_partitioning partitioning_keep = false

abbrev is_partitioned : Option TablePartitioning → Bool
is_partitioned none = false
is_partitioned (some tp) = true

unfoldable pub create_statement_of : Table → StatementModifiers → Text
unfolding has_auto_increment_in
create_statement_of to mods =
    let stmt =
      if is_partitioned to.partitioning && removes_partitioning mods.partitioning
      then unpartitioned_create_statement to mods.flavor
      else to.create_statement in
    if has_auto_increment to && omits_auto_inc mods.next_auto_inc
    then (parse_create_auto_inc stmt).0
    else stmt

-- TableDiff.Statement
unfoldable pub table_diff_statement : TableDiff → StatementModifiers → Text × Option DiffError
unfolding create_statement_of alter_statement
table_diff_statement (create_table to) mods = (create_statement_of to mods, none)
table_diff_statement (alter_table td) mods = alter_statement td mods
table_diff_statement (drop_table from) mods =
    let stmt = drop_table_statement from in
    (
      stmt,
      if not mods.allow_unsafe
          then some (forbidden (txt "DROP TABLE not permitted") stmt)
          else none,
    )
