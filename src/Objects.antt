-- ===== src/Objects.antt =====
-- The object model of internal/tengo: columns, indexes, foreign keys, checks, partitionings, tables,
-- routines and schemas. A pointer that may be nil is an Option; the other pointers are values.
pub mod Compare
pub mod Define
pub mod Create
pub mod Keys
pub mod Redundant
use skeema.Prelude.{ℕ, ℕ_discrete, Bool, List, Option, Text, Eq, discrete_eq}

pub data ObjectType : Type 0 where
  object_nil object_database object_table object_proc object_func : ObjectType

pub ObjectType-discrete : Discrete ObjectType
ObjectType-discrete = hlevel

instance unfoldable pub object_type_eq : Eq ObjectType
unfolding ObjectType-discrete
object_type_eq = discrete_eq ObjectType-discrete

pub record ObjectKey : Type 0 where
  pub type : ObjectType
  pub name : Text

pub record Column : Type 0 where
  pub name : Text
  pub type_in_db : Text
  pub nullable : Bool
  pub auto_increment : Bool
  pub default : Text
  pub on_update : Text
  pub generation_expr : Text
  pub virtual : Bool
  pub char_set : Text
  pub collation : Text
  pub collation_is_default : Bool
  pub force_show_char_set : Bool
  pub force_show_collation : Bool
  pub compression : Text
  pub comment : Text
  pub invisible : Bool
  pub check_clause : Text

pub Column-discrete : Discrete Column
Column-discrete = hlevel ℕ_discrete

instance unfoldable pub column_eq : Eq Column
unfolding Column-discrete ℕ_discrete
column_eq = discrete_eq Column-discrete

pub record IndexPart : Type 0 where
  pub column_name : Text
  pub expression : Text
  pub prefix_length : ℕ
  pub descending : Bool

pub IndexPart-discrete : Discrete IndexPart
IndexPart-discrete = hlevel ℕ_discrete

instance unfoldable pub index_part_eq : Eq IndexPart
unfolding IndexPart-discrete ℕ_discrete
index_part_eq = discrete_eq IndexPart-discrete

pub record Index : Type 0 where
  pub name : Text
  pub parts : List IndexPart
  pub primary_key : Bool
  pub unique : Bool
  pub invisible : Bool
  pub comment : Text
  pub type : Text
  pub full_text_parser : Text

pub record ForeignKey : Type 0 where
  pub name : Text
  pub column_names : List Text
  pub referenced_schema_name : Text
  pub referenced_table_name : Text
  pub referenced_column_names : List Text
  pub update_rule : Text
  pub delete_rule : Text

pub record Check : Type 0 where
  pub name : Text
  pub clause : Text
  pub enforced : Bool

pub data PartitionListMode : Type 0 where
  list_default list_explicit list_count list_none : PartitionListMode

pub record Partition : Type 0 where
  pub name : Text
  pub sub_name : Text
  pub values : Text
  pub comment : Text
  pub engine : Text
  pub data_dir : Text

pub Partition-discrete : Discrete Partition
Partition-discrete = hlevel ℕ_discrete

instance unfoldable pub partition_eq : Eq Partition
unfolding Partition-discrete ℕ_discrete
partition_eq = discrete_eq Partition-discrete

pub record TablePartitioning : Type 0 where
  pub method : Text
  pub sub_method : Text
  pub expression : Text
  pub sub_expression : Text
  pub partitions : List Partition
  pub force_partition_list : PartitionListMode
  pub algo_clause : Text

pub record Table : Type 0 where
  pub name : Text
  pub engine : Text
  pub char_set : Text
  pub collation : Text
  pub collation_is_default : Bool
  pub create_options : Text
  pub columns : List Column
  pub primary_key : Option Index
  pub secondary_indexes : List Index
  pub foreign_keys : List ForeignKey
  pub checks : List Check
  pub comment : Text
  pub tablespace : Text
  pub next_auto_increment : ℕ
  pub partitioning : Option TablePartitioning
  pub unsupported_ddl : Bool
  pub create_statement : Text

pub record Routine : Type 0 where
  pub name : Text
  pub type : ObjectType
  pub body : Text
  pub param_string : Text
  pub return_data_type : Text
  pub definer : Text
  pub database_collation : Text
  pub comment : Text
  pub deterministic : Bool
  pub sql_data_access : Text
  pub security_type : Text
  pub sql_mode : Text
  pub create_statement : Text

pub record Schema : Type 0 where
  pub name : Text
  pub char_set : Text
  pub collation : Text
  pub tables : List Table
  pub routines : List Routine
