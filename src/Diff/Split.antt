-- ===== src/Diff/Split.antt =====
-- SplitAddForeignKeys, SplitConflicts and PreDropAlters of internal/tengo/diff.go.
pub mod Laws
use skeema.Prelude.{
  ℕ, Bool, true, false, not, ◌&&◌, ◌||◌, List, [], ◌∷◌, ◌++◌, map, Option, none, some, Text, txt,
  text_eq, ◌==◌, if◌then◌else◌, is_empty, has_prefix,
}
use skeema.Objects.{Index, Partition, TablePartitioning, Table}
use skeema.Clause.{TableAlterClause, add_index, add_foreign_key, modify_partitions}
use skeema.Diff.{AlterTable}

-- clause.(AddForeignKey)
unfoldable pub is_add_foreign_key : TableAlterClause → Bool
is_add_foreign_key (add_foreign_key fk cosmetic_only) = true
is_add_foreign_key _ = false

unfoldable pub keep_if : (TableAlterClause → Bool) → List TableAlterClause → List TableAlterClause
keep_if test [] = []
keep_if test (c ∷ cs) = let rest = keep_if test cs in if test c then c ∷ rest else rest

abbrev pub with_clauses : AlterTable → List TableAlterClause → AlterTable
with_clauses td clauses = record {
  from = td.from;
  to = td.to;
  alter_clauses = clauses;
  supported = true;
}

-- The two slices that the loop fills, and which of the two results is nil.
unfoldable pub split_clauses :
    AlterTable
    → List TableAlterClause
    → List TableAlterClause
    → Option AlterTable × Option AlterTable
split_clauses td others [] = (some td, none)
split_clauses td [] (fk ∷ fks) = (none, some td)
split_clauses td (c ∷ cs) (fk ∷ fks) =
    (some (with_clauses td (c ∷ cs)), some (with_clauses td (fk ∷ fks)))

unfoldable pub split_add_foreign_keys : AlterTable → Option AlterTable × Option AlterTable
unfolding is_add_foreign_key keep_if split_clauses
split_add_foreign_keys td =
    let add_fk_clauses = keep_if is_add_foreign_key td.alter_clauses in
    let other_clauses = keep_if (λ c. not (is_add_foreign_key c)) td.alter_clauses in
    if not td.supported then (some td, none) else split_clauses td other_clauses add_fk_clauses

-- clause.(AddIndex) of a FULLTEXT index
unfoldable pub is_add_fulltext : TableAlterClause → Bool
unfolding text_eq
is_add_fulltext (add_index index reorder_only) = index.type == txt "FULLTEXT"
is_add_fulltext _ = false

-- The loop of SplitConflicts: the clauses kept, and those put apart.
unfoldable pub split_fulltext :
    Bool → List TableAlterClause → List TableAlterClause × List TableAlterClause
unfolding is_add_fulltext
split_fulltext seen [] = ([], [])
split_fulltext seen (c ∷ cs) =
    let rest = split_fulltext (seen || is_add_fulltext c) cs in
    if is_add_fulltext c && seen then (rest.0, c ∷ rest.1) else (c ∷ rest.0, rest.1)

abbrev alone : AlterTable → TableAlterClause → AlterTable
alone td c = with_clauses td (c ∷ [])

unfoldable pub no_clauses : List TableAlterClause → Bool
no_clauses [] = true
no_clauses (c ∷ cs) = false

-- `none` is the nil receiver.
unfoldable pub split_conflicts : Option AlterTable → List AlterTable
unfolding split_fulltext no_clauses
split_conflicts none = []
split_conflicts (some td) =
    let (keep, separate) = split_fulltext false td.alter_clauses in
    if not td.supported || no_clauses td.alter_clauses
    then td ∷ []
    else with_clauses td keep ∷ map (alone td) separate

abbrev unpartitioned : Table → Table
unpartitioned t = record t { partitioning = none }

-- All partitions but the last.
unfoldable pub all_but_last : List Partition → List Partition
all_but_last [] = []
all_but_last (p ∷ []) = []
all_but_last (p ∷ q ∷ ps) = p ∷ all_but_last (q ∷ ps)

abbrev pub drop_partition : Table → Partition → AlterTable
drop_partition t p = record {
  from = t;
  to = unpartitioned t;
  alter_clauses = modify_partitions [] (p ∷ []) true ∷ [];
  supported = true;
}

unfoldable pub partition_drops : Table → Option TablePartitioning → List AlterTable
unfolding has_prefix all_but_last
partition_drops t none = []
partition_drops t (some tp) =
    if not (is_empty tp.sub_method)
    then []
    else if not (has_prefix tp.method (txt "RANGE")) && not (has_prefix tp.method (txt "LIST"))
    then []
    else map (drop_partition t) (all_but_last tp.partitions)

unfoldable pub pre_drop_alters : Table → List AlterTable
unfolding partition_drops
pre_drop_alters t = partition_drops t t.partitioning
