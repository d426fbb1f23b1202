-- ===== src/Tests.antt =====
-- Runs of the code at concrete inputs, and the theorems applied to them.
pub mod Sql
pub mod Directories
pub mod Commands
pub mod Plans
pub mod Verify
pub mod Lint
pub mod Exits
pub mod Flavors
use mathlib.Core.List.{Perm}
use skeema.Prelude.{
  true, false, not, List, [], ◌∷◌, ◌++◌, none, some, Text, txt, text_eq, ◌≡◌, refl, ◌↔◌, ◌&&◌,
  to_lower, is_empty, length, ◌≤◌, ◌<◌, arith, All,
}
use skeema.Escape.{escape_value_for_create_table}
use skeema.Escape.Laws.{
  escape_value_one_pass, escape_value_injective, escape_identifier_delimits, escape_bytes,
}
use skeema.Flavor.{
  Version, vendor_eq, pack, IsVersion, flavor_mysql, flavor_mariadb, at_least, min_flavor, matches,
  dot,
}
use skeema.Flavor.Capability.{always_show_collate, flavor_eq}
use skeema.Flavor.Order.{LexLe, at_least_iff_lex, min_flavor_trans, matches-min_flavor}
use skeema.Lis.{longest_increasing_subsequence}
use skeema.Lis.Subseq.{Increasing, Subseq, stop, keep, skip}
use skeema.Lis.Longest.{longest_increasing_subsequence_longest}
use skeema.Objects.{
  Column, Index, IndexPart, ForeignKey, Table, Routine, object_proc, object_type_eq, Schema,
}
use skeema.Clause.{
  drop_column, add_index, add_foreign_key, StatementModifiers, auto_inc_ignore,
  partitioning_permissive,
}
use skeema.Clause.Types.{atoi, int_rank}
use skeema.Clause.Unsafe.Integers.{values_fit, integer_change_unsafe_iff_values_lost}
use skeema.Clause.Unsafe.{modify_column_unsafe, unsafe_type_change}
use skeema.Table.ByName.{find_named}
use skeema.Table.Indexes.{secondary_index_clauses}
use skeema.Table.Indexes.Replay.{apply_indexes, Distinct}
use skeema.Table.Indexes.Result.{secondary_index_clauses_replay}
use skeema.Diff.{AlterTable, is_forbidden_diff, TableDiff}
use skeema.Diff.Split.{split_add_foreign_keys, split_conflicts}
use skeema.Diff.Split.Laws.{
  clauses_of, AddsForeignKey, AddsNoForeignKey, OneFulltext, all_clauses,
  split_add_foreign_keys_separates, split_conflicts_separates,
}
use skeema.Diff.Statement.{alter_statement}
use skeema.Diff.Statement.Safety.{any_unsafe, alter_statement_forbidden_iff_unsafe}
use skeema.Diff.Schema.{MapOrder, compare_tables, object_diffs, new_schema_diff, routines_of_type}
use skeema.Diff.Schema.Same.{Ranges, schema_diff_same_empty}
use skeema.Diff.Schema.Order.{Early, Late, compare_tables_adds_foreign_keys_last}

abbrev column : Text → Text → Column
column name typ = record {
  name = name;
  type_in_db = typ;
  nullable = false;
  auto_increment = false;
  default = [];
  on_update = [];
  generation_expr = [];
  virtual = false;
  char_set = [];
  collation = [];
  collation_is_default = false;
  force_show_char_set = false;
  force_show_collation = false;
  compression = [];
  comment = [];
  invisible = false;
  check_clause = [];
}

abbrev part : Text → IndexPart
part name = record { column_name = name; expression = []; prefix_length = 0; descending = false }

abbrev fulltext : Text → Index
fulltext name = record {
  name = name;
  parts = part name ∷ [];
  primary_key = false;
  unique = false;
  invisible = false;
  comment = [];
  type = txt "FULLTEXT";
  full_text_parser = [];
}

abbrev author_key : ForeignKey
author_key = record {
  name = txt "author_fk";
  column_names = txt "author" ∷ [];
  referenced_schema_name = [];
  referenced_table_name = txt "authors";
  referenced_column_names = txt "id" ∷ [];
  update_rule = txt "NO ACTION";
  delete_rule = txt "CASCADE";
}

abbrev posts : Text → List Column → List Index → List ForeignKey → Table
posts create columns indexes fks = record {
  name = txt "posts";
  engine = txt "InnoDB";
  char_set = txt "utf8mb4";
  collation = txt "utf8mb4_general_ci";
  collation_is_default = true;
  create_options = [];
  columns = columns;
  primary_key = none;
  secondary_indexes = indexes;
  foreign_keys = fks;
  checks = [];
  comment = [];
  tablespace = [];
  next_auto_increment = 0;
  partitioning = none;
  unsupported_ddl = false;
  create_statement = create;
}

abbrev author : Column
author = column (txt "author") (txt "int")

abbrev body : Column
body = column (txt "body") (txt "text")

abbrev title : Column
title = column (txt "title") (txt "varchar(20)")

abbrev old_posts : Table
old_posts = posts (txt "old") (author ∷ body ∷ title ∷ []) [] []

abbrev new_posts : Table
new_posts =
    posts (txt "new") (title ∷ author ∷ []) (fulltext (txt "body") ∷ fulltext (txt "title") ∷ [])
      (author_key ∷ [])

abbrev posts_alter : AlterTable
posts_alter = record {
  from = old_posts;
  to = new_posts;
  alter_clauses =
      drop_column body
      ∷ add_index (fulltext (txt "body")) false
      ∷ add_foreign_key author_key false
      ∷ add_index (fulltext (txt "title")) false
      ∷ [];
  supported = true;
}

abbrev modifiers : StatementModifiers
modifiers = record {
  next_auto_inc = auto_inc_ignore;
  partitioning = partitioning_permissive;
  allow_unsafe = false;
  lock_clause = [];
  algorithm_clause = [];
  strict_index_order = false;
  strict_check_order = false;
  strict_foreign_key_naming = false;
  strict_column_definition = false;
  compare_metadata = false;
  virtual_col_validation = false;
  skip_pre_drop_alters = false;
  flavor = flavor_mysql 8 0;
}

abbrev schema_of : Table → Schema
schema_of t = record {
  name = txt "blog";
  char_set = txt "utf8mb4";
  collation = txt "utf8mb4_general_ci";
  tables = t ∷ [];
  routines = [];
}

abbrev same_order : MapOrder
same_order = record { tables = λ ts. ts; routines = λ rs. rs; foreign_keys = λ fks. fks }

abbrev old_indexes : List Index
old_indexes = fulltext (txt "a") ∷ fulltext (txt "b") ∷ fulltext (txt "c") ∷ []

abbrev new_indexes : List Index
new_indexes =
    fulltext (txt "c") ∷ record (fulltext (txt "a")) { invisible = true } ∷ fulltext (txt "d") ∷ []

old_indexes-Distinct : Distinct old_indexes
unfolding text_eq
old_indexes-Distinct = ((refl, (refl, tt)), ((refl, tt), (tt, tt)))

new_indexes-Distinct : Distinct new_indexes
unfolding text_eq
new_indexes-Distinct = ((refl, (refl, tt)), ((refl, tt), (tt, tt)))

secondary_index_clauses_replay_example :
    apply_indexes (secondary_index_clauses old_indexes new_indexes) old_indexes ≡ new_indexes
secondary_index_clauses_replay_example =
    secondary_index_clauses_replay old_indexes new_indexes old_indexes-Distinct new_indexes-Distinct

compare_tables_adds_foreign_keys_last_example :
    (early : List TableDiff) × (late : List TableDiff) × (compare_tables same_order
        (some (schema_of old_posts))
        (some (schema_of new_posts))
      ≡ early ++ late)
    × All Early early
    × All Late late
compare_tables_adds_foreign_keys_last_example =
    compare_tables_adds_foreign_keys_last same_order (some (schema_of old_posts))
      (some (schema_of new_posts))

abbrev prune_posts : Routine
prune_posts = record {
  name = txt "prune";
  type = object_proc;
  body = txt "DELETE FROM posts";
  param_string = [];
  return_data_type = [];
  definer = txt "root@%";
  database_collation = txt "utf8mb4_general_ci";
  comment = [];
  deterministic = false;
  sql_data_access = txt "CONTAINS SQL";
  security_type = txt "DEFINER";
  sql_mode = [];
  create_statement = txt "CREATE PROCEDURE prune() DELETE FROM posts";
}

abbrev blog : Schema
blog = record (schema_of old_posts) { routines = prune_posts ∷ [] }

blog-Ranges : Ranges same_order blog
unfolding find_named routines_of_type object_type_eq text_eq
blog-Ranges = record {
  tables = (record { found = refl; introspected = refl }, tt);
  procs = (refl, tt);
  funcs = tt;
}

schema_diff_same_empty_example :
    object_diffs (new_schema_diff same_order (some blog) (some blog)) ≡ []
schema_diff_same_empty_example = schema_diff_same_empty same_order blog blog-Ranges

alter_statement_forbidden_iff_unsafe_example :
    is_forbidden_diff (alter_statement posts_alter modifiers).1 ≡ (
      not (is_empty (alter_statement posts_alter modifiers).0)
      && (not modifiers.allow_unsafe && any_unsafe posts_alter.alter_clauses))
alter_statement_forbidden_iff_unsafe_example =
    alter_statement_forbidden_iff_unsafe posts_alter modifiers refl

split_add_foreign_keys_separates_example :
    All AddsNoForeignKey (clauses_of (split_add_foreign_keys posts_alter).0)
    × All AddsForeignKey (clauses_of (split_add_foreign_keys posts_alter).1)
    × Perm
        (clauses_of (split_add_foreign_keys posts_alter).0
          ++ clauses_of (split_add_foreign_keys posts_alter).1)
        posts_alter.alter_clauses
split_add_foreign_keys_separates_example = split_add_foreign_keys_separates posts_alter refl

split_conflicts_separates_example :
    All OneFulltext (split_conflicts (some posts_alter))
    × Perm (all_clauses (split_conflicts (some posts_alter))) posts_alter.alter_clauses
split_conflicts_separates_example = split_conflicts_separates posts_alter refl

unsigned_rank : 0 < int_rank (to_lower (txt "int unsigned"))
unfolding int_rank
unsigned_rank = omega arith

bigint_rank : 0 < int_rank (to_lower (txt "BIGINT"))
unfolding int_rank
bigint_rank = omega arith

integer_change_unsafe_iff_values_lost_example :
    modify_column_unsafe (column (txt "id") (txt "int unsigned")) (column (txt "id") (txt "BIGINT"))
    ≡ not (values_fit (to_lower (txt "int unsigned")) (to_lower (txt "BIGINT")))
integer_change_unsafe_iff_values_lost_example =
    integer_change_unsafe_iff_values_lost (column (txt "id") (txt "int unsigned"))
      (column (txt "id") (txt "BIGINT")) refl refl unsigned_rank bigint_rank

longest_increasing_subsequence_longest_example :
    Increasing (longest_increasing_subsequence (2 ∷ 0 ∷ 3 ∷ 1 ∷ []))
    × Subseq (longest_increasing_subsequence (2 ∷ 0 ∷ 3 ∷ 1 ∷ [])) (2 ∷ 0 ∷ 3 ∷ 1 ∷ [])
    × (2 ≤ length (longest_increasing_subsequence (2 ∷ 0 ∷ 3 ∷ 1 ∷ [])))
longest_increasing_subsequence_longest_example =
    longest_increasing_subsequence_longest (2 ∷ 0 ∷ 3 ∷ 1 ∷ []) (2 ∷ 3 ∷ []) (omega arith, tt)
      (keep 2 (skip 0 (keep 3 (skip 1 stop))))

escape_value_one_pass_example :
    escape_value_for_create_table (txt "it's\n\\n") ≡ escape_bytes (txt "it's\n\\n")
escape_value_one_pass_example = escape_value_one_pass (txt "it's\n\\n")

escape_value_injective_example : txt "it's" ≡ txt "it's"
escape_value_injective_example = escape_value_injective (txt "it's") (txt "it's") refl

escape_identifier_delimits_example : (txt "a`b" ≡ txt "a`b") × (txt " int" ≡ txt " int")
escape_identifier_delimits_example =
    escape_identifier_delimits (txt "a`b") (txt "a`b") (txt " int") (txt " int") (ground arith)
      (ground arith) refl

abbrev v8_0_19 : Version
v8_0_19 = record { major = 8; minor = 0; patch = 19 }

abbrev v5_7_44 : Version
v5_7_44 = record { major = 5; minor = 7; patch = 44 }

v8_0_19-IsVersion : IsVersion v8_0_19
v8_0_19-IsVersion = record {
  major_lt = omega arith;
  minor_lt = omega arith;
  patch_lt = omega arith;
}

v5_7_44-IsVersion : IsVersion v5_7_44
v5_7_44-IsVersion = record {
  major_lt = omega arith;
  minor_lt = omega arith;
  patch_lt = omega arith;
}

-- A MariaDB version before the change of November 2022 whose family has no entry in the map.
always_show_collate_10_10 : always_show_collate (flavor_mariadb 10 10) ≡ true
unfolding always_show_collate min_flavor at_least pack dot vendor_eq flavor_eq
always_show_collate_10_10 = refl

-- A TIMESTAMP column may become a TIME column.
timestamp_to_time : unsafe_type_change (txt "timestamp") (txt "time") ≡ false
unfolding unsafe_type_change
timestamp_to_time = refl

-- The text of the last value of an ENUM may be changed.
enum_quote : unsafe_type_change (txt "enum('a')") (txt "enum('a''b')") ≡ false
unfolding unsafe_type_change
enum_quote = refl

-- A DECIMAL column may lose digits in front of the point.
decimal_scale : unsafe_type_change (txt "decimal(5,0)") (txt "decimal(5,4)") ≡ false
unfolding unsafe_type_change atoi
decimal_scale = refl

at_least_iff_lex_example : (at_least v8_0_19 v5_7_44 ≡ true) ↔ LexLe v5_7_44 v8_0_19
at_least_iff_lex_example = at_least_iff_lex v8_0_19 v5_7_44 v8_0_19-IsVersion v5_7_44-IsVersion
