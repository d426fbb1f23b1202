-- ===== src/Clause/Write.antt =====
-- The Clause methods of internal/tengo/alterclause.go. An empty text is a clause that the modifiers
-- suppress. The panics on a column that is both first and after another are left out: no clause
-- that Table.Diff builds has both.
use skeema.Prelude.{
  ℕ, Bool, true, false, not, ◌&&◌, ◌||◌, List, [], ◌∷◌, ◌++◌, map, Option, none, some, Text, txt,
  text_eq, ◌==◌, ◌!=◌, if◌then◌else◌, has_prefix, replace_first, join, itoa, is_empty, leb, nat_beq,
}
use skeema.Escape.{escape_identifier, escape_value_for_create_table}
use skeema.Flavor.{flavor_mysql, flavor_mariadb, min_flavor, is_mariadb}
use skeema.Objects.{Column, Index, ForeignKey, Check, Partition, TablePartitioning, Table}
use skeema.Objects.Compare.{column_equivalent}
use skeema.Objects.Create.{partitioning_definition}
use skeema.Objects.Define.{
  column_definition, index_definition, foreign_key_definition, check_definition,
}
use skeema.Clause.{
  TableAlterClause, add_column, drop_column, add_index, drop_index, alter_index, add_foreign_key,
  drop_foreign_key, add_check, drop_check, alter_check, modify_column, change_auto_increment,
  change_char_set, change_create_options, change_comment, change_tablespace, change_storage_engine,
  partition_by, remove_partitioning, modify_partitions, NextAutoIncMode, auto_inc_ignore,
  auto_inc_if_increased, auto_inc_if_already, auto_inc_always, PartitioningMode,
  partitioning_permissive, partitioning_remove, partitioning_keep, StatementModifiers,
}

-- FIRST, AFTER a column, or nothing
unfoldable pub position_clause : Bool → Option Column → Text
position_clause true after = txt " FIRST"
position_clause false none = []
position_clause false (some c) = txt " AFTER " ++ escape_identifier c.name

unfoldable pub add_column_clause : Table → Column → Bool → Option Column → StatementModifiers → Text
unfolding position_clause
add_column_clause table column first after mods =
    txt "ADD COLUMN "
    ++ (column_definition column mods.flavor (some table) ++ position_clause first after)

unfoldable pub add_index_clause : Index → Bool → StatementModifiers → Text
add_index_clause index reorder_only mods =
    if not mods.strict_index_order && reorder_only
    then []
    else txt "ADD " ++ index_definition index mods.flavor

unfoldable pub drop_index_clause : Index → Bool → StatementModifiers → Text
drop_index_clause index reorder_only mods =
    if not mods.strict_index_order && reorder_only
    then []
    else if index.primary_key
    then txt "DROP PRIMARY KEY"
    else txt "DROP KEY " ++ escape_identifier index.name

unfoldable pub alter_index_clause : Index → Bool → Bool → StatementModifiers → Text
alter_index_clause index new_invisible also_reordering mods =
    let clause = txt "ALTER INDEX " ++ (escape_identifier index.name ++ txt " ") in
    if also_reordering && mods.strict_index_order
    then []
    else if min_flavor mods.flavor (flavor_mysql 8 0)
    then clause ++ (if new_invisible then txt "INVISIBLE" else txt "VISIBLE")
    else if min_flavor mods.flavor (flavor_mariadb 10 6)
    then clause ++ (if new_invisible then txt "IGNORED" else txt "NOT IGNORED")
    else []

unfoldable pub add_foreign_key_clause : ForeignKey → Bool → StatementModifiers → Text
add_foreign_key_clause fk cosmetic_only mods =
    if not mods.strict_foreign_key_naming && cosmetic_only
    then []
    else txt "ADD " ++ foreign_key_definition fk mods.flavor

unfoldable pub drop_foreign_key_clause : ForeignKey → Bool → StatementModifiers → Text
drop_foreign_key_clause fk cosmetic_only mods =
    if not mods.strict_foreign_key_naming && cosmetic_only
    then []
    else txt "DROP FOREIGN KEY " ++ escape_identifier fk.name

unfoldable pub add_check_clause : Check → Bool → StatementModifiers → Text
add_check_clause check reorder_only mods =
    if reorder_only && not (mods.strict_check_order && is_mariadb mods.flavor)
    then []
    else txt "ADD " ++ check_definition check

unfoldable pub drop_check_clause : Check → Bool → StatementModifiers → Text
drop_check_clause check reorder_only mods =
    if reorder_only && not (mods.strict_check_order && is_mariadb mods.flavor)
    then []
    else txt "DROP "
      ++ ((if is_mariadb mods.flavor then txt "CONSTRAINT" else txt "CHECK")
          ++ (txt " " ++ escape_identifier check.name))

unfoldable pub alter_check_clause : Check → Bool → Text
alter_check_clause check new_enforcement =
    txt "ALTER CHECK "
    ++ (escape_identifier check.name
        ++ (txt " " ++ (if new_enforcement then txt "ENFORCED" else txt "NOT ENFORCED")))

unfoldable pub modify_column_clause :
    Table → Column → Column → Bool → Option Column → StatementModifiers → Text
unfolding position_clause
modify_column_clause table old_column new_column first after mods =
    let position = position_clause first after in
    if not mods.strict_column_definition
      && is_empty position
      && column_equivalent old_column new_column
    then []
    else txt "MODIFY COLUMN " ++ (column_definition new_column mods.flavor (some table) ++ position)

unfoldable pub change_auto_increment_clause : ℕ → ℕ → NextAutoIncMode → Text
change_auto_increment_clause old new auto_inc_ignore = []
change_auto_increment_clause old new auto_inc_if_increased =
    if leb new old then [] else txt "AUTO_INCREMENT = " ++ itoa new
change_auto_increment_clause old new auto_inc_if_already =
    if leb old 1 then [] else txt "AUTO_INCREMENT = " ++ itoa new
change_auto_increment_clause old new auto_inc_always = txt "AUTO_INCREMENT = " ++ itoa new

unfoldable pub change_char_set_clause : Text → Text → Text → Text → Text
unfolding text_eq has_prefix replace_first
change_char_set_clause from_char_set from_collation to_char_set to_collation =
    let from_normalized = replace_first from_collation (txt "utf8_") (txt "utf8mb3_") in
    let to_normalized = replace_first to_collation (txt "utf8_") (txt "utf8mb3_") in
    let renamed =
      (has_prefix from_collation (txt "utf8mb3_") || has_prefix to_collation (txt "utf8mb3_"))
      && from_normalized == to_normalized in
    if from_collation == to_collation
    then []
    else if renamed
    then []
    else txt "DEFAULT CHARACTER SET = " ++ (to_char_set ++ (txt " COLLATE = " ++ to_collation))

-- strings.Split at one byte: always at least one piece
unfoldable pub split_byte : Text → ℕ → List Text
split_byte [] b = [] ∷ []
split_byte (c ∷ s) b = elim (split_byte s b) [
  | [] ↦ []
  | piece ∷ pieces ↦ if nat_beq c b then [] ∷ piece ∷ pieces else (c ∷ piece) ∷ pieces
]

abbrev pub Options : Type 0
Options = List (Text × Text)

unfoldable pub put_option : Options → Text → Text → Options
unfolding text_eq
put_option [] k v = (k, v) ∷ []
put_option ((j, w) ∷ opts) k v = if j == k then (k, v) ∷ opts else (j, w) ∷ put_option opts k v

unfoldable pub get_option : Options → Text → Option Text
unfolding text_eq
get_option [] k = none
get_option ((j, w) ∷ opts) k = if j == k then some w else get_option opts k

add_tokens : Options → List Text → Options
unfolding put_option
add_tokens opts (k ∷ v ∷ []) = put_option opts k v
add_tokens opts _ = opts

split_opts_onto : Options → List Text → Options
unfolding add_tokens split_byte
split_opts_onto opts [] = opts
split_opts_onto opts (kv ∷ kvs) = split_opts_onto (add_tokens opts (split_byte kv b'=')) kvs

-- The map that splitOpts builds, in the order of first insertion.
unfoldable pub split_opts : Text → Options
unfolding split_opts_onto split_byte
split_opts full = split_opts_onto [] (split_byte full b' ')

abbrev pub known_defaults : Options
known_defaults =
    (txt "MIN_ROWS", txt "0")
    ∷ (txt "MAX_ROWS", txt "0")
    ∷ (txt "AVG_ROW_LENGTH", txt "0")
    ∷ (txt "PACK_KEYS", txt "DEFAULT")
    ∷ (txt "STATS_PERSISTENT", txt "DEFAULT")
    ∷ (txt "STATS_AUTO_RECALC", txt "DEFAULT")
    ∷ (txt "STATS_SAMPLE_PAGES", txt "DEFAULT")
    ∷ (txt "CHECKSUM", txt "0")
    ∷ (txt "DELAY_KEY_WRITE", txt "0")
    ∷ (txt "ROW_FORMAT", txt "DEFAULT")
    ∷ (txt "KEY_BLOCK_SIZE", txt "0")
    ∷ (txt "COMPRESSION", txt "''")
    ∷ []

abbrev setting : Text → Text → Text
setting k v = k ++ (txt "=" ++ v)

default_of : Text → Text
unfolding get_option
default_of k = elim (get_option known_defaults k) [ none ↦ txt "DEFAULT" | some def ↦ def ]

-- The first loop: options that changed or went away.
changed_options : Options → Options → List Text
unfolding get_option text_eq default_of
changed_options new [] = []
changed_options new ((k, v) ∷ old) =
    let rest = changed_options new old in
    elim (get_option new k) [
      | some w ↦ if w != v then setting k w ∷ rest else rest
      | none ↦ setting k (default_of k) ∷ rest
    ]

-- The second loop: options that were not there before.
added_options : Options → Options → List Text
unfolding get_option
added_options old [] = []
added_options old ((k, v) ∷ new) =
    let rest = added_options old new in
    elim (get_option old k) [ some w ↦ rest | none ↦ setting k v ∷ rest ]

-- Go ranges over both maps in an unspecified order; here it is the order of insertion.
unfoldable pub change_create_options_clause : Text → Text → Text
unfolding split_opts changed_options added_options
change_create_options_clause old_options new_options =
    let old = split_opts old_options in
    let new = split_opts new_options in
    join (txt " ") (changed_options new old ++ added_options old new)

abbrev is_space : ℕ → Bool
is_space c = nat_beq c b' ' || nat_beq c b'\n'

-- strings.TrimSpace on a text that begins with a line break and ends in none: PartitionBy's use of it
trim_left : Text → Text
trim_left [] = []
trim_left (c ∷ s) = if is_space c then trim_left s else c ∷ s

unfoldable pub partition_by_clause : TablePartitioning → Bool → StatementModifiers → Text
unfolding trim_left
partition_by_clause partitioning re_partition mods =
    let definition = trim_left (partitioning_definition (some partitioning) mods.flavor) in
    elim mods.partitioning [
      | partitioning_remove ↦ []
      | partitioning_keep ↦ if re_partition then [] else definition
      | partitioning_permissive ↦ definition
    ]

unfoldable pub remove_partitioning_clause : PartitioningMode → Text
remove_partitioning_clause partitioning_keep = []
remove_partitioning_clause partitioning_remove = txt "REMOVE PARTITIONING"
remove_partitioning_clause partitioning_permissive = txt "REMOVE PARTITIONING"

unfoldable pub modify_partitions_clause : List Partition → Bool → StatementModifiers → Text
modify_partitions_clause [] for_drop_table mods = []
modify_partitions_clause (p ∷ ps) for_drop_table mods =
    if not for_drop_table
    then []
    else if mods.skip_pre_drop_alters
    then []
    else txt "DROP PARTITION " ++ join (txt ", ") (map (λ (q : Partition). q.name) (p ∷ ps))

unfoldable pub clause_text : TableAlterClause → StatementModifiers → Text
clause_text (add_column table column first after) mods =
    add_column_clause table column first after mods
clause_text (drop_column column) mods = txt "DROP COLUMN " ++ escape_identifier column.name
clause_text (add_index index reorder_only) mods = add_index_clause index reorder_only mods
clause_text (drop_index index reorder_only) mods = drop_index_clause index reorder_only mods
clause_text (alter_index index invisible reordering) mods =
    alter_index_clause index invisible reordering mods
clause_text (add_foreign_key fk cosmetic_only) mods = add_foreign_key_clause fk cosmetic_only mods
clause_text (drop_foreign_key fk cosmetic_only) mods = drop_foreign_key_clause fk cosmetic_only mods
clause_text (add_check check reorder_only) mods = add_check_clause check reorder_only mods
clause_text (drop_check check reorder_only) mods = drop_check_clause check reorder_only mods
clause_text (alter_check check enforced) mods = alter_check_clause check enforced
clause_text (modify_column table old_column new_column first after) mods =
    modify_column_clause table old_column new_column first after mods
clause_text (change_auto_increment old new) mods =
    change_auto_increment_clause old new mods.next_auto_inc
clause_text (change_char_set from_char_set from_collation to_char_set to_collation) mods =
    change_char_set_clause from_char_set from_collation to_char_set to_collation
clause_text (change_create_options old new) mods = change_create_options_clause old new
clause_text (change_comment comment) mods =
    txt "COMMENT '" ++ (escape_value_for_create_table comment ++ txt "'")
clause_text (change_tablespace tablespace) mods =
    if is_empty tablespace then [] else txt "TABLESPACE " ++ escape_identifier tablespace
clause_text (change_storage_engine engine) mods = txt "ENGINE=" ++ engine
clause_text (partition_by partitioning re_partition) mods =
    partition_by_clause partitioning re_partition mods
clause_text remove_partitioning mods = remove_partitioning_clause mods.partitioning
clause_text (modify_partitions add drop for_drop_table) mods =
    modify_partitions_clause drop for_drop_table mods
