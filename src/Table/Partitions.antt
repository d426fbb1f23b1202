-- ===== src/Table/Partitions.antt =====
-- TablePartitioning.Diff of internal/tengo/partition.go.
use skeema.Prelude.{
  Bool, true, false, not, ◌&&◌, ◌||◌, List, [], ◌∷◌, Option, none, some, Text, txt, text_eq, ◌!=◌,
  if◌then◌else◌, has_prefix,
}
use skeema.Objects.{Partition, partition_eq, TablePartitioning}
use skeema.Clause.{TableAlterClause, partition_by, remove_partitioning, modify_partitions}

-- foundPartitionsDiff: another number of partitions, or a partition that differs
unfoldable pub partitions_differ : List Partition → List Partition → Bool
unfolding partition_eq
partitions_differ [] [] = false
partitions_differ (p ∷ ps) (q ∷ qs) = p != q || partitions_differ ps qs
partitions_differ _ _ = true

abbrev pub ranged : Text → Bool
ranged method = has_prefix method (txt "RANGE") || has_prefix method (txt "LIST")

unfoldable pub repartitions : TablePartitioning → TablePartitioning → Bool
unfolding text_eq
repartitions tp other =
    tp.method != other.method
    || tp.sub_method != other.sub_method
    || tp.expression != other.expression
    || tp.sub_expression != other.sub_expression
    || tp.algo_clause != other.algo_clause

unfoldable pub partitioning_diff :
    Option TablePartitioning → Option TablePartitioning → List TableAlterClause × Bool
unfolding repartitions partitions_differ has_prefix
partitioning_diff none none = ([], true)
partitioning_diff none (some other) = (partition_by other false ∷ [], true)
partitioning_diff (some tp) none = (remove_partitioning ∷ [], true)
partitioning_diff (some tp) (some other) =
    let found = partitions_differ tp.partitions other.partitions in
    if repartitions tp other
    then (partition_by other true ∷ [], true)
    else if found && ranged tp.method
    then (modify_partitions [] [] false ∷ [], true)
    else ([], not found)
