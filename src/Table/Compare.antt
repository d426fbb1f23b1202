-- ===== src/Table/Compare.antt =====
-- Table.Diff of internal/tengo/table.go. It panics on two names that differ; its callers pair tables
-- by name.
use skeema.Prelude.{
  Bool, true, false, not, ◌&&◌, ◌||◌, List, [], ◌∷◌, ◌++◌, text_eq, nat_eq, ◌==◌, ◌!=◌,
  if◌then◌else◌, is_empty,
}
use skeema.Objects.{ForeignKey, Table}
use skeema.Objects.Create.{has_auto_increment, has_auto_increment_in}
use skeema.Clause.{
  TableAlterClause, change_char_set, change_storage_engine, change_auto_increment,
  change_create_options, change_comment, change_tablespace,
}
use skeema.Table.Columns.{column_clauses}
use skeema.Table.Constraints.{foreign_key_clauses, check_clauses}
use skeema.Table.Indexes.{primary_key_clauses, secondary_index_clauses}
use skeema.Table.Partitions.{partitioning_diff}

abbrev one_if : Bool → TableAlterClause → List TableAlterClause
one_if b clause = if b then clause ∷ [] else []

unfoldable pub char_set_clauses : Table → Table → List TableAlterClause
unfolding text_eq
char_set_clauses from to =
    one_if (from.char_set != to.char_set || from.collation != to.collation)
      (change_char_set from.char_set from.collation to.char_set to.collation)

unfoldable pub engine_clauses : Table → Table → List TableAlterClause
unfolding text_eq
engine_clauses from to = one_if (from.engine != to.engine) (change_storage_engine to.engine)

unfoldable pub auto_increment_clauses : Table → Table → List TableAlterClause
unfolding has_auto_increment_in
auto_increment_clauses from to =
    one_if (from.next_auto_increment != to.next_auto_increment && has_auto_increment to)
      (change_auto_increment from.next_auto_increment to.next_auto_increment)

unfoldable pub create_option_clauses : Table → Table → List TableAlterClause
unfolding text_eq
create_option_clauses from to =
    one_if (from.create_options != to.create_options)
      (change_create_options from.create_options to.create_options)

unfoldable pub comment_clauses : Table → Table → List TableAlterClause
unfolding text_eq
comment_clauses from to = one_if (from.comment != to.comment) (change_comment to.comment)

unfoldable pub tablespace_clauses : Table → Table → List TableAlterClause
unfolding text_eq
tablespace_clauses from to =
    one_if (from.tablespace != to.tablespace) (change_tablespace to.tablespace)

-- Every clause but those of partitioning, in the order of the method.
unfoldable pub attribute_clauses :
    (List ForeignKey → List ForeignKey) → Table → Table → List TableAlterClause
unfolding char_set_clauses engine_clauses auto_increment_clauses create_option_clauses
    comment_clauses tablespace_clauses
attribute_clauses order from to =
    char_set_clauses from to
    ++ (column_clauses from to
        ++ (primary_key_clauses from.primary_key to.primary_key
            ++ (secondary_index_clauses from.secondary_indexes to.secondary_indexes
                ++ (foreign_key_clauses order from.foreign_keys to.foreign_keys
                    ++ (check_clauses from.checks to.checks
                        ++ (engine_clauses from to
                            ++ (auto_increment_clauses from to
                                ++ (create_option_clauses from to
                                    ++ (comment_clauses from to
                                        ++ tablespace_clauses from to)))))))))

-- No clause, although both statements are known.
abbrev unexplained : Table → Table → List TableAlterClause → Bool
unexplained from to [] = not (is_empty from.create_statement) && not (is_empty to.create_statement)
unexplained from to (c ∷ cs) = false

finish_diff :
    Table
    → Table
    → List TableAlterClause
    → List TableAlterClause × Bool
    → List TableAlterClause × Bool
finish_diff from to clauses (part_clauses, part_supported) =
    let all_clauses = clauses ++ part_clauses in
    if not part_supported
    then (all_clauses, false)
    else if unexplained from to all_clauses
    then (all_clauses, false)
    else (all_clauses, true)

unfoldable pub table_diff :
    (List ForeignKey → List ForeignKey) → Table → Table → List TableAlterClause × Bool
unfolding text_eq finish_diff
table_diff order from to =
    let compared =
      finish_diff from to (attribute_clauses order from to)
        (partitioning_diff from.partitioning to.partitioning) in
    if not (is_empty from.create_statement) && from.create_statement == to.create_statement
    then ([], true)
    else if from.unsupported_ddl || to.unsupported_ddl
    then ([], false)
    else compared
