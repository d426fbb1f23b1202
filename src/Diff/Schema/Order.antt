-- ===== src/Diff/Schema/Order.antt =====
-- The order of the table diffs of a schema diff: foreign keys are added last.
use mathlib.Core.Path.{subst}
use mathlib.Core.List.{append_assoc}
use skeema.Prelude.{
  Bool, true, false, ◌||◌, List, [], ◌∷◌, ◌++◌, map, ◌≡◌, ◌⊎◌, refl, sym, Option, none, some, arith,
  All, All-append, Bool-cases, inl, inr,
}
use skeema.Objects.{Partition, Table, TablePartitioning, Schema}
use skeema.Clause.{TableAlterClause}
use skeema.Table.ByName.{find_named}
use skeema.Diff.{AlterTable, TableDiff, create_table, drop_table, alter_table, new_alter_table}
use skeema.Diff.Split.{
  is_add_foreign_key, is_add_fulltext, split_add_foreign_keys, split_fulltext, split_conflicts,
  no_clauses, with_clauses, drop_partition, partition_drops, all_but_last, pre_drop_alters,
}
use skeema.Diff.Split.Laws.{
  clauses_of, AddsForeignKey, AddsNoForeignKey, split_add_foreign_keys_separates,
  split_conflicts-split, split_conflicts-whole, split_conflicts-unsupported,
  split_add_foreign_keys-unsupported,
}
use skeema.Diff.Schema.{
  MapOrder, TableStep, table_name, altered_table, optional_alter, dropped_or_altered, table_step,
  table_steps, new_tables, tables_of, compare_tables,
}

-- A diff that is not supported, for which no statement is written, or one that adds no foreign key.
abbrev pub AddsNone : AlterTable → Type 0
AddsNone td = (td.supported ≡ false) ⊎ All AddsNoForeignKey td.alter_clauses

abbrev pub Early : TableDiff → Type 0
Early (create_table to) = Unit
Early (drop_table from) = Unit
Early (alter_table td) = AddsNone td

-- A diff that does nothing but add foreign keys.
abbrev pub Late : TableDiff → Type 0
Late (create_table to) = ⊥
Late (drop_table from) = ⊥
Late (alter_table td) = All AddsForeignKey td.alter_clauses

abbrev NoForeignKeys : List TableAlterClause → Type 0
NoForeignKeys cs = All AddsNoForeignKey cs

split_fulltext-NoForeignKeys :
    (seen : Bool) (cs : List TableAlterClause)
    → NoForeignKeys cs
    → NoForeignKeys (split_fulltext seen cs).0 × NoForeignKeys (split_fulltext seen cs).1
unfolding split_fulltext
split_fulltext-NoForeignKeys seen [] h = (tt, tt)
split_fulltext-NoForeignKeys seen (c ∷ cs) h =
    ground (arith, split_fulltext-NoForeignKeys (seen || is_add_fulltext c) cs h.1)

alone-AddsNone :
    (td : AlterTable) (cs : List TableAlterClause)
    → NoForeignKeys cs
    → All AddsNone (map (λ c. with_clauses td (c ∷ [])) cs)
alone-AddsNone td [] h = tt
alone-AddsNone td (c ∷ cs) h = (inr (h.0, tt), alone-AddsNone td cs h.1)

supported_AddsNone :
    (td : AlterTable) → AddsNone td → td.supported ≡ true → NoForeignKeys td.alter_clauses
supported_AddsNone td (inl u) s = absurd (cc)
supported_AddsNone td (inr h) s = h

split_conflicts-AddsNone :
    (td : AlterTable) → AddsNone td → All AddsNone (split_conflicts (some td))
unfolding split_conflicts
split_conflicts-AddsNone td h = elim (Bool-cases (no_clauses td.alter_clauses)) [
  | inl yes' ↦ subst (All AddsNone) (sym (split_conflicts-whole td yes')) (h, tt)
  | inr no' ↦ elim (Bool-cases td.supported) [
    | inl s ↦
        let parts =
          split_fulltext-NoForeignKeys false td.alter_clauses (supported_AddsNone td h s) in
        subst (All AddsNone) (sym (split_conflicts-split td s no'))
          (inr parts.0, alone-AddsNone td (split_fulltext false td.alter_clauses).1 parts.1)
    | inr u ↦ subst (All AddsNone) (sym (split_conflicts-unsupported td u)) (h, tt)
  ]
]

map-Early : (tds : List AlterTable) → All AddsNone tds → All Early (map alter_table tds)
map-Early [] h = tt
map-Early (td ∷ tds) h = (h.0, map-Early tds h.1)

optional-Early :
    (r : Option AlterTable)
    → NoForeignKeys (clauses_of r)
    → All Early (map alter_table (split_conflicts r))
unfolding split_conflicts
optional-Early none h = tt
optional-Early (some td) h =
    map-Early (split_conflicts (some td)) (split_conflicts-AddsNone td (inr h))

optional-Late :
    (r : Option AlterTable) → All AddsForeignKey (clauses_of r) → All Late (optional_alter r)
optional-Late none h = tt
optional-Late (some td) h = (h, tt)

abbrev OrderedStep : TableStep → Type 0
OrderedStep step = All Early step.now × All Late step.later

altered_table-OrderedStep : (o : Option AlterTable) → OrderedStep (altered_table o)
unfolding altered_table
altered_table-OrderedStep none = (tt, tt)
altered_table-OrderedStep (some td) = elim (Bool-cases td.supported) [
  | inl s ↦
      let h = split_add_foreign_keys_separates td s in
      (
        optional-Early (split_add_foreign_keys td).0 h.0,
        optional-Late (split_add_foreign_keys td).1 h.1,
      )
  | inr u ↦
      subst (λ r. All Early (map alter_table (split_conflicts r.0)) × All Late (optional_alter r.1))
        (sym (split_add_foreign_keys-unsupported td u))
        (map-Early (split_conflicts (some td)) (split_conflicts-AddsNone td (inl u)), tt)
]

drop_partition-AddsNone :
    (t : Table) (ps : List Partition) → All AddsNone (map (drop_partition t) ps)
unfolding is_add_foreign_key
drop_partition-AddsNone t [] = tt
drop_partition-AddsNone t (p ∷ ps) = (inr (refl, tt), drop_partition-AddsNone t ps)

partition_drops-AddsNone :
    (t : Table) (tp : Option TablePartitioning) → All AddsNone (partition_drops t tp)
unfolding partition_drops
partition_drops-AddsNone t none = tt
partition_drops-AddsNone t (some tp) =
    ground (arith, drop_partition-AddsNone t (all_but_last tp.partitions))

dropped_or_altered-OrderedStep :
    (order : MapOrder) (from : Table) (found : Option Table)
    → OrderedStep (dropped_or_altered order from found)
unfolding dropped_or_altered pre_drop_alters
dropped_or_altered-OrderedStep order from none = (
  All-append Early (map alter_table (pre_drop_alters from)) (drop_table from ∷ [])
      (map-Early (pre_drop_alters from) (partition_drops-AddsNone from from.partitioning)) (tt, tt),
  tt,
)
dropped_or_altered-OrderedStep order from (some to) =
    altered_table-OrderedStep (new_alter_table order.foreign_keys from to)

table_steps-OrderedStep :
    (order : MapOrder) (to_tables range : List Table)
    → OrderedStep (table_steps order to_tables range)
unfolding table_steps table_step
table_steps-OrderedStep order to_tables [] = (tt, tt)
table_steps-OrderedStep order to_tables (from ∷ range) =
    let step =
      dropped_or_altered-OrderedStep order from (find_named table_name from.name to_tables) in
    let rest = table_steps-OrderedStep order to_tables range in
    (All-append Early _ _ step.0 rest.0, All-append Late _ _ step.1 rest.1)

new_tables-Early : (from_tables range : List Table) → All Early (new_tables from_tables range)
unfolding new_tables
new_tables-Early from_tables [] = tt
new_tables-Early from_tables (to ∷ range) = ground (arith, new_tables-Early from_tables range)

-- compareTables, in whatever order Go ranges over its maps: the diffs fall into two parts. In the
-- first, no supported ALTER TABLE adds a foreign key, so that every CREATE TABLE and every other
-- change comes before any of them; the second does nothing but add foreign keys to tables.
pub compare_tables_adds_foreign_keys_last :
    (order : MapOrder) (from to : Option Schema)
    → (early : List TableDiff) × (late : List TableDiff) × (compare_tables order from to
        ≡ early ++ late)
      × All Early early
      × All Late late
unfolding compare_tables
compare_tables_adds_foreign_keys_last order from to =
    let steps = table_steps order (tables_of to) (order.tables (tables_of from)) in
    let news = new_tables (tables_of from) (order.tables (tables_of to)) in
    let ordered = table_steps-OrderedStep order (tables_of to) (order.tables (tables_of from)) in
    (
      steps.now ++ news,
      steps.later,
      sym (append_assoc steps.now news steps.later),
      All-append Early steps.now news ordered.0
          (new_tables-Early (tables_of from) (order.tables (tables_of to))),
      ordered.1,
    )
