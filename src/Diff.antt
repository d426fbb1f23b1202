-- ===== src/Diff.antt =====
-- The diffs of internal/tengo/diff.go: table diffs and how they are split, and the errors that
-- Statement methods return.
pub mod Parse
pub mod Split
pub mod Statement
pub mod Schema
pub mod Routine
use skeema.Prelude.{Bool, true, false, List, [], ◌∷◌, Option, none, some, Text}
use skeema.Objects.{ForeignKey, ObjectKey, object_nil, Table}
use skeema.Objects.Create.{table_key}
use skeema.Clause.{TableAlterClause}
use skeema.Table.Compare.{table_diff}

pub data DiffType : Type 0 where
  diff_none diff_create diff_drop diff_alter : DiffType

-- ForbiddenDiffError, UnsupportedDiffError, and an error of fmt.Errorf.
pub data DiffError : Type 0 where
  forbidden : (reason statement : Text) → DiffError
  unsupported : (key : ObjectKey) (reason expected_create actual_create : Text) → DiffError
  other_error : (message : Text) → DiffError

abbrev pub is_forbidden_diff : Option DiffError → Bool
is_forbidden_diff (some (forbidden reason statement)) = true
is_forbidden_diff (some (unsupported key reason expected actual)) = false
is_forbidden_diff (some (other_error message)) = false
is_forbidden_diff none = false

-- A table diff. The Go struct has one form with two pointers; each constructor holds what the
-- diff type sets.
pub record AlterTable : Type 0 where
  pub from : Table
  pub to : Table
  pub alter_clauses : List TableAlterClause
  pub supported : Bool

pub data TableDiff : Type 0 where
  create_table : Table → TableDiff
  drop_table : Table → TableDiff
  alter_table : AlterTable → TableDiff

abbrev pub table_diff_type : TableDiff → DiffType
table_diff_type (create_table to) = diff_create
table_diff_type (drop_table from) = diff_drop
table_diff_type (alter_table td) = diff_alter

abbrev pub table_diff_key : TableDiff → ObjectKey
table_diff_key (create_table to) = table_key to
table_diff_key (drop_table from) = table_key from
table_diff_key (alter_table td) = table_key td.from

-- What NewAlterTable makes of a comparison: nil for no clauses and a supported diff.
unfoldable pub alter_of : Table → Table → List TableAlterClause × Bool → Option AlterTable
alter_of from to ([], true) = none
alter_of from to (clauses, supported) =
    some (record { from = from; to = to; alter_clauses = clauses; supported = supported })

unfoldable pub new_alter_table :
    (List ForeignKey → List ForeignKey) → Table → Table → Option AlterTable
unfolding alter_of
new_alter_table order from to = alter_of from to (table_diff order from to)
