-- ===== src/Objects/Define.antt =====
-- The Definition methods of internal/tengo, which write a column, index, foreign key, check or
-- partitioning as a clause of a DDL statement.
use skeema.Prelude.{
  Bool, true, not, ◌&&◌, ◌||◌, List, [], ◌∷◌, ◌++◌, map, Option, none, some, Text, txt, text_eq,
  ◌==◌, ◌!=◌, if◌then◌else◌, has_prefix, join, itoa, is_empty, ltb, bool_eq,
}
use skeema.Escape.{escape_identifier, escape_value_for_create_table}
use skeema.Flavor.{Flavor, flavor_mysql, min_flavor, is_mariadb, has_variant, variant_percona}
use skeema.Flavor.Capability.{always_show_collate}
use skeema.Objects.{Column, Index, IndexPart, ForeignKey, Check, Table}

-- A piece that is written only if the test holds.
abbrev pub when : Bool → Text → Text
when b s = if b then s else []

abbrev concat_text : List Text → Text
concat_text [] = []
concat_text (s ∷ ss) = s ++ concat_text ss

-- The CHARACTER SET clause of a column; `table` may be nil.
column_char_set : Column → Option Table → Text
unfolding text_eq
column_char_set c table =
    let differs : Bool = elim table [ none ↦ true | some t ↦ c.collation != t.collation ] in
    when (not (is_empty c.char_set) && (differs || c.force_show_char_set))
      (txt " CHARACTER SET " ++ c.char_set)

column_collation : Column → Flavor → Text → Text
column_collation c flavor char_set =
    let show_collate =
      if always_show_collate flavor
      then not (is_empty char_set)
      else not c.collation_is_default || c.force_show_collation in
    when (not (is_empty c.collation) && show_collate) (txt " COLLATE " ++ c.collation)

unfoldable pub column_definition : Column → Flavor → Option Table → Text
unfolding column_char_set column_collation has_prefix
column_definition c flavor table =
    let compression =
      when (not (is_empty c.compression) && is_mariadb flavor)
        (txt " /*!100301 " ++ (c.compression ++ txt "*/")) in
    let char_set = column_char_set c table in
    let collation = column_collation c flavor char_set in
    let generated = when (not (is_empty c.generation_expr)) (
      txt " GENERATED ALWAYS AS ("
      ++ (c.generation_expr
          ++ (txt ") " ++ (if c.virtual then txt "VIRTUAL" else txt "STORED")))) in
    let nullability =
      if not c.nullable
      then txt " NOT NULL"
      else when (has_prefix c.type_in_db (txt "timestamp")) (txt " NULL") in
    let visibility =
      when c.invisible
        (if is_mariadb flavor then txt " INVISIBLE" else txt " /*!80023 INVISIBLE */") in
    let auto_increment = when c.auto_increment (txt " AUTO_INCREMENT") in
    let default_value = when (not (is_empty c.default)) (txt " DEFAULT " ++ c.default) in
    let on_update = when (not (is_empty c.on_update)) (txt " ON UPDATE " ++ c.on_update) in
    let col_format =
      when (not (is_empty c.compression) && has_variant flavor variant_percona)
        (txt " /*!50633 COLUMN_FORMAT " ++ (c.compression ++ txt " */")) in
    let comment =
      when (not (is_empty c.comment))
        (txt " COMMENT '" ++ (escape_value_for_create_table c.comment ++ txt "'")) in
    let check =
      when (not (is_empty c.check_clause)) (txt " CHECK (" ++ (c.check_clause ++ txt ")")) in
    let clauses =
      escape_identifier c.name
      ∷ txt " "
      ∷ c.type_in_db
      ∷ compression
      ∷ char_set
      ∷ collation
      ∷ generated
      ∷ nullability
      ∷ [] in
    concat_text (
      clauses
      ++ (if is_mariadb flavor
          then visibility ∷ auto_increment ∷ default_value ∷ on_update ∷ col_format ∷ comment
            ∷ check ∷ []
          else auto_increment ∷ default_value ∷ on_update ∷ visibility ∷ col_format ∷ comment ∷ []))

unfoldable pub index_part_definition : IndexPart → Text
index_part_definition part =
    let base =
      if not (is_empty part.column_name)
      then escape_identifier part.column_name
      else txt "(" ++ (part.expression ++ txt ")") in
    let prefix =
      when (ltb 0 part.prefix_length) (txt "(" ++ (itoa part.prefix_length ++ txt ")")) in
    base ++ (prefix ++ when part.descending (txt " DESC"))

-- The panic on a primary key that is not unique is left out: the text of such a key is not read.
index_type_and_name : Index → Text
unfolding text_eq
index_type_and_name idx =
    if idx.primary_key
    then txt "PRIMARY KEY"
    else if idx.unique
    then txt "UNIQUE KEY " ++ escape_identifier idx.name
    else if idx.type != txt "BTREE" && not (is_empty idx.type)
    then idx.type ++ (txt " KEY " ++ escape_identifier idx.name)
    else txt "KEY " ++ escape_identifier idx.name

unfoldable pub index_definition : Index → Flavor → Text
unfolding index_type_and_name index_part_definition text_eq
index_definition idx flavor =
    let parts = map index_part_definition idx.parts in
    let comment =
      when (not (is_empty idx.comment))
        (txt " COMMENT '" ++ (escape_value_for_create_table idx.comment ++ txt "'")) in
    let invis =
      when idx.invisible
        (if is_mariadb flavor then txt " IGNORED" else txt " /*!80000 INVISIBLE */") in
    let parser =
      when (idx.type == txt "FULLTEXT" && not (is_empty idx.full_text_parser))
        (txt " /*!50100 WITH PARSER `" ++ (idx.full_text_parser ++ txt "` */ ")) in
    index_type_and_name idx
    ++ (txt " (" ++ (join (txt ",") parts ++ (txt ")" ++ (comment ++ (invis ++ parser)))))

unfoldable pub foreign_key_definition : ForeignKey → Flavor → Text
unfolding text_eq
foreign_key_definition fk flavor =
    let child_cols = join (txt ", ") (map escape_identifier fk.column_names) in
    let table = escape_identifier fk.referenced_table_name in
    let referenced_table =
      if not (is_empty fk.referenced_schema_name)
      then escape_identifier fk.referenced_schema_name ++ (txt "." ++ table)
      else table in
    let parent_cols = join (txt ", ") (map escape_identifier fk.referenced_column_names) in
    let hidden_rule =
      if min_flavor flavor (flavor_mysql 8 0) then txt "NO ACTION" else txt "RESTRICT" in
    let delete_rule = when (fk.delete_rule != hidden_rule) (txt " ON DELETE " ++ fk.delete_rule) in
    let update_rule = when (fk.update_rule != hidden_rule) (txt " ON UPDATE " ++ fk.update_rule) in
    txt "CONSTRAINT "
    ++ (escape_identifier fk.name
        ++ (txt " FOREIGN KEY ("
            ++ (child_cols
                ++ (txt ") REFERENCES "
                    ++ (referenced_table
                        ++ (txt " ("
                            ++ (parent_cols ++ (txt ")" ++ (delete_rule ++ update_rule)))))))))

unfoldable pub check_definition : Check → Text
check_definition cc =
    txt "CONSTRAINT "
    ++ (escape_identifier cc.name
        ++ (txt " CHECK ("
            ++ (cc.clause
                ++ (txt ")" ++ when (not cc.enforced) (txt " /*!80016 NOT ENFORCED */")))))
