-- ===== src/Clause.antt =====
-- TableAlterClause of internal/tengo/alterclause.go: one constructor for each struct that Table.Diff
-- builds, and StatementModifiers of diff.go.
pub mod Write
pub mod Types
pub mod Unsafe
use skeema.Prelude.{ℕ, Bool, List, Option, Text, Eq, discrete_eq}
use skeema.Flavor.{Flavor}
use skeema.Objects.{Column, Index, ForeignKey, Check, Partition, TablePartitioning, Table}

pub data TableAlterClause : Type 0 where
  add_column :
      (table : Table) (column : Column) (position_first : Bool) (position_after : Option Column)
      → TableAlterClause
  drop_column : (column : Column) → TableAlterClause
  add_index : (index : Index) (reorder_only : Bool) → TableAlterClause
  drop_index : (index : Index) (reorder_only : Bool) → TableAlterClause
  alter_index : (index : Index) (new_invisible also_reordering : Bool) → TableAlterClause
  add_foreign_key : (fk : ForeignKey) (cosmetic_only : Bool) → TableAlterClause
  drop_foreign_key : (fk : ForeignKey) (cosmetic_only : Bool) → TableAlterClause
  add_check : (check : Check) (reorder_only : Bool) → TableAlterClause
  drop_check : (check : Check) (reorder_only : Bool) → TableAlterClause
  alter_check : (check : Check) (new_enforcement : Bool) → TableAlterClause
  modify_column :
      (table : Table) (old_column new_column : Column) (position_first : Bool)
      (position_after : Option Column)
      → TableAlterClause
  change_auto_increment : (old_next new_next : ℕ) → TableAlterClause
  change_char_set :
      (from_char_set from_collation to_char_set to_collation : Text) → TableAlterClause
  change_create_options : (old_options new_options : Text) → TableAlterClause
  change_comment : (new_comment : Text) → TableAlterClause
  change_tablespace : (new_tablespace : Text) → TableAlterClause
  change_storage_engine : (new_engine : Text) → TableAlterClause
  partition_by : (partitioning : TablePartitioning) (re_partition : Bool) → TableAlterClause
  remove_partitioning : TableAlterClause
  modify_partitions : (add drop : List Partition) (for_drop_table : Bool) → TableAlterClause

pub data NextAutoIncMode : Type 0 where
  auto_inc_ignore auto_inc_if_increased auto_inc_if_already auto_inc_always : NextAutoIncMode

pub data PartitioningMode : Type 0 where
  partitioning_permissive partitioning_remove partitioning_keep : PartitioningMode

pub record StatementModifiers : Type 0 where
  pub next_auto_inc : NextAutoIncMode
  pub partitioning : PartitioningMode
  pub allow_unsafe : Bool
  pub lock_clause : Text
  pub algorithm_clause : Text
  pub strict_index_order : Bool
  pub strict_check_order : Bool
  pub strict_foreign_key_naming : Bool
  pub strict_column_definition : Bool
  pub compare_metadata : Bool
  pub virtual_col_validation : Bool
  pub skip_pre_drop_alters : Bool
  pub flavor : Flavor
