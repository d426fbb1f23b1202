-- ===== src/Objects/Create.antt =====
-- Partition clauses of internal/tengo/partition.go, the statements of table.go, routine.go and
-- schema.go, and ObjectKey of each object.
use skeema.Prelude.{
  ℕ, ◌+◌, Bool, false, not, ◌&&◌, ◌||◌, List, [], ◌∷◌, ◌++◌, map, Option, none, some, Text, txt,
  text_eq, ◌==◌, ◌!=◌, if◌then◌else◌, has_suffix, contains, replace_byte, join, itoa, length,
  is_empty, ltb,
}
use skeema.Escape.{escape_identifier, escape_value_for_create_table}
use skeema.Flavor.{Flavor, flavor_mysql, flavor_mariadb, min_flavor, dot}
use skeema.Flavor.Capability.{always_show_collate}
use skeema.Objects.{
  Column, Index, Partition, PartitionListMode, list_default, list_explicit, list_count, list_none,
  TablePartitioning, Table, Routine, Schema, ObjectKey, ObjectType, object_nil, object_database,
  object_table, object_proc, object_func,
}
use skeema.Objects.Define.{
  when, column_definition, index_definition, foreign_key_definition, check_definition,
}

unfoldable pub partition_definition : Partition → Flavor → Text → Text
unfolding text_eq contains
partition_definition p flavor method =
    let name =
      if min_flavor flavor (flavor_mariadb 10 2) then escape_identifier p.name else p.name in
    let values =
      if method == txt "RANGE" && p.values == txt "MAXVALUE"
      then txt "VALUES LESS THAN MAXVALUE "
      else if contains method (txt "RANGE")
      then txt "VALUES LESS THAN (" ++ (p.values ++ txt ") ")
      else when (contains method (txt "LIST")) (txt "VALUES IN (" ++ (p.values ++ txt ") ")) in
    let data_dir =
      when (not (is_empty p.data_dir)) (txt "DATA DIRECTORY = '" ++ (p.data_dir ++ txt "' ")) in
    let comment =
      when (not (is_empty p.comment))
        (txt "COMMENT = '" ++ (escape_value_for_create_table p.comment ++ txt "' ")) in
    txt "PARTITION "
    ++ (name ++ (txt " " ++ (values ++ (data_dir ++ (comment ++ (txt "ENGINE = " ++ p.engine))))))

-- The loop that looks for a partition whose name, values, comment or directory must be listed.
unfoldable pub needs_list : ℕ → List Partition → Bool
unfolding text_eq
needs_list n [] = false
needs_list n (p ∷ ps) =
    (not (is_empty p.values)
      || not (is_empty p.comment)
      || not (is_empty p.data_dir)
      || p.name != txt "p" ++ itoa n)
    || needs_list (n + 1) ps

unfoldable pub list_mode : TablePartitioning → PartitionListMode
unfolding needs_list
list_mode tp = elim tp.force_partition_list [
  | list_default ↦ if needs_list 0 tp.partitions then list_explicit else list_count
  | list_explicit ↦ list_explicit
  | list_count ↦ list_count
  | list_none ↦ list_none
]

unfoldable pub partition_by : TablePartitioning → Flavor → Text
unfolding text_eq has_suffix replace_byte
partition_by tp flavor =
    let method =
      if tp.method == txt "RANGE COLUMNS"
      then txt "RANGE  COLUMNS"
      else if tp.method == txt "LIST COLUMNS"
      then txt "LIST  COLUMNS"
      else tp.method ++ txt " " in
    let expr =
      if (has_suffix tp.method (txt "COLUMNS") || has_suffix tp.method (txt "KEY"))
        && not (min_flavor flavor (flavor_mariadb 10 2))
      then replace_byte tp.expression b'`' []
      else tp.expression in
    method ++ (tp.algo_clause ++ (txt "(" ++ (expr ++ txt ")")))

partitions_clause : TablePartitioning → Flavor → PartitionListMode → Text
unfolding partition_definition
partitions_clause tp flavor list_explicit =
    txt "\n("
    ++ (join (txt ",\n ") (map (λ p. partition_definition p flavor tp.method) tp.partitions)
        ++ txt ")")
partitions_clause tp flavor list_count = txt "\nPARTITIONS " ++ itoa (length tp.partitions)
partitions_clause tp flavor list_default = []
partitions_clause tp flavor list_none = []

-- `none` is the nil receiver of an unpartitioned table.
unfoldable pub partitioning_definition : Option TablePartitioning → Flavor → Text
unfolding partitions_clause list_mode partition_by has_suffix
partitioning_definition none flavor = []
partitioning_definition (some tp) flavor =
    let clause = partitions_clause tp flavor (list_mode tp) in
    let plain = min_flavor flavor (flavor_mariadb 10 2) in
    let opener =
      if plain
      then []
      else if has_suffix tp.method (txt "COLUMNS")
      then txt "/*!50500"
      else txt "/*!50100" in
    let closer = if plain then [] else txt " */" in
    txt "\n" ++ (opener ++ (txt " PARTITION BY " ++ (partition_by tp flavor ++ (clause ++ closer))))

primary_key_definition : Option Index → Flavor → List Text
primary_key_definition none flavor = []
primary_key_definition (some idx) flavor = index_definition idx flavor ∷ []

unfoldable pub generated_create_statement : Table → Flavor → Text
unfolding primary_key_definition text_eq
generated_create_statement t flavor =
    let defs =
      map (λ c. column_definition c flavor (some t)) t.columns
      ++ (primary_key_definition t.primary_key flavor
          ++ (map (λ idx. index_definition idx flavor) t.secondary_indexes
              ++ (map (λ fk. foreign_key_definition fk flavor) t.foreign_keys
                  ++ map check_definition t.checks))) in
    let tablespace =
      when (not (is_empty t.tablespace))
        (txt " /*!50100 TABLESPACE " ++ (escape_identifier t.tablespace ++ txt " */")) in
    let auto_inc =
      when (ltb 1 t.next_auto_increment) (txt " AUTO_INCREMENT=" ++ itoa t.next_auto_increment) in
    let char_set =
      if t.char_set == txt "utf8" && min_flavor flavor (dot (flavor_mysql 8 0) 24)
      then txt "utf8mb3"
      else t.char_set in
    let collate =
      when
        (not t.collation_is_default
          || (t.char_set == txt "utf8mb4" && min_flavor flavor (flavor_mysql 8 0))
          || always_show_collate flavor)
        (txt " COLLATE=" ++ t.collation) in
    let create_options = when (not (is_empty t.create_options)) (txt " " ++ t.create_options) in
    let comment =
      when (not (is_empty t.comment))
        (txt " COMMENT='" ++ (escape_value_for_create_table t.comment ++ txt "'")) in
    txt "CREATE TABLE "
    ++ (escape_identifier t.name
        ++ (txt " (\n  "
            ++ (join (txt ",\n  ") defs
                ++ (txt "\n)"
                    ++ (tablespace
                        ++ (txt " ENGINE="
                            ++ (t.engine
                                ++ (auto_inc
                                    ++ (txt " DEFAULT CHARSET="
                                        ++ (char_set
                                            ++ (collate
                                                ++ (create_options
                                                    ++ (comment
                                                        ++ partitioning_definition t.partitioning
                                                            flavor)))))))))))))

unfoldable pub alter_table_statement : Table → Text
alter_table_statement t = txt "ALTER TABLE " ++ escape_identifier t.name

unfoldable pub drop_table_statement : Table → Text
drop_table_statement t = txt "DROP TABLE " ++ escape_identifier t.name

unfoldable pub has_auto_increment_in : List Column → Bool
has_auto_increment_in [] = false
has_auto_increment_in (c ∷ cs) = c.auto_increment || has_auto_increment_in cs

abbrev pub has_auto_increment : Table → Bool
has_auto_increment t = has_auto_increment_in t.columns

abbrev pub table_key : Table → ObjectKey
table_key t = record { type = object_table; name = t.name }

-- ObjectType.Caps
unfoldable pub caps : ObjectType → Text
caps object_nil = []
caps object_database = txt "DATABASE"
caps object_table = txt "TABLE"
caps object_proc = txt "PROCEDURE"
caps object_func = txt "FUNCTION"

unfoldable pub drop_routine_statement : Routine → Text
unfolding caps
drop_routine_statement r = txt "DROP " ++ (caps r.type ++ (txt " " ++ escape_identifier r.name))

abbrev pub routine_key : Routine → ObjectKey
routine_key r = record { type = r.type; name = r.name }

unfoldable pub drop_database_statement : Schema → Text
drop_database_statement s = txt "DROP DATABASE " ++ escape_identifier s.name

unfoldable pub create_database_statement : Schema → Text
create_database_statement s =
    txt "CREATE DATABASE "
    ++ (escape_identifier s.name
        ++ (when (not (is_empty s.char_set)) (txt " CHARACTER SET " ++ s.char_set)
            ++ when (not (is_empty s.collation)) (txt " COLLATE " ++ s.collation)))

unfoldable pub alter_database_statement : Schema → Text → Text → Text
unfolding text_eq
alter_database_statement s char_set collation =
    let char_set_clause =
      when (s.char_set != char_set && not (is_empty char_set))
        (txt " CHARACTER SET " ++ char_set) in
    let collate_clause =
      when (s.collation != collation && not (is_empty collation)) (txt " COLLATE " ++ collation) in
    if is_empty char_set_clause && is_empty collate_clause
    then []
    else txt "ALTER DATABASE " ++ (escape_identifier s.name ++ (char_set_clause ++ collate_clause))

abbrev pub schema_key : Schema → ObjectKey
schema_key s = record { type = object_database; name = s.name }
