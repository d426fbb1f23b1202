-- ===== src/Objects/Compare.antt =====
-- Equals and Equivalent of internal/tengo: column.go, index.go, foreignkey.go, and StripDisplayWidth
-- of util.go.
use skeema.Prelude.{
  Bool, true, false, not, ◌&&◌, ◌||◌, List, [], ◌∷◌, ◌++◌, Option, none, some, Text, txt, text_eq,
  bool_eq, ◌==◌, ◌!=◌, if◌then◌else◌, contains, has_prefix, has_suffix, to_lower, index_byte, take,
  replace_first,
}
use skeema.Objects.{Column, column_eq, Index, IndexPart, index_part_eq, ForeignKey}

-- The type without its display width, and whether a width was there.
unfoldable pub strip_display_width : Text → Text × Bool
unfolding text_eq contains has_suffix index_byte
strip_display_width col_type =
    let input = to_lower col_type in
    let modifier = if has_suffix input (txt " unsigned") then txt " unsigned" else [] in
    if not (contains input (txt "int(")) && input != txt "year(4)"
    then (col_type, false)
    else if input == txt "tinyint(1)" || has_suffix input (txt "zerofill")
    then (col_type, false)
    else elim (index_byte col_type b'(') [
      | none ↦ (col_type, false)
      | some open_paren ↦ (take open_paren col_type ++ modifier, true)
    ]

-- Column.Equals on two columns that are there: `*c == *other`
abbrev pub column_equals : Column → Column → Bool
column_equals c other = c == other

-- The copy of `c` whose cosmetic fields are made equal to those of `other`.
unfoldable pub cosmetic_copy : Column → Column → Column
unfolding text_eq has_prefix replace_first
cosmetic_copy c other = record c {
  type_in_db = other.type_in_db;
  force_show_char_set = other.force_show_char_set;
  force_show_collation = other.force_show_collation;
  char_set =
      if (other.char_set == txt "utf8mb3" && c.char_set == txt "utf8")
        || (other.char_set == txt "utf8" && c.char_set == txt "utf8mb3")
      then other.char_set
      else c.char_set;
  collation =
      if has_prefix other.collation (txt "utf8mb3_")
      then replace_first c.collation (txt "utf8_") (txt "utf8mb3_")
      else if has_prefix other.collation (txt "utf8_")
      then replace_first c.collation (txt "utf8mb3_") (txt "utf8_")
      else c.collation;
}

unfoldable pub column_equivalent : Column → Column → Bool
unfolding column_eq
column_equivalent c other =
    let (self_stripped, self_had) = strip_display_width c.type_in_db in
    let (other_stripped, other_had) = strip_display_width other.type_in_db in
    if column_equals c other
    then true
    else if self_stripped != other_stripped
        || (c.type_in_db != other.type_in_db && self_had && other_had)
    then false
    else cosmetic_copy c other == other

unfoldable pub same_part_list : List IndexPart → List IndexPart → Bool
unfolding index_part_eq
same_part_list [] [] = true
same_part_list (p ∷ ps) (q ∷ qs) = p == q && same_part_list ps qs
same_part_list _ _ = false

-- sameParts: equal lengths, and equal parts at every place
abbrev pub same_parts : Index → Index → Bool
same_parts idx other = same_part_list idx.parts other.parts

unfoldable pub index_equivalent : Index → Index → Bool
unfolding same_part_list
index_equivalent idx other =
    if idx.primary_key != other.primary_key
      || idx.unique != other.unique
      || idx.type != other.type
      || idx.full_text_parser != other.full_text_parser
    then false
    else same_parts idx other

unfoldable pub index_equals_ignoring_visibility : Index → Index → Bool
unfolding index_equivalent
index_equals_ignoring_visibility idx other =
    idx.name == other.name && idx.comment == other.comment && index_equivalent idx other

unfoldable pub index_equals : Index → Index → Bool
unfolding index_equals_ignoring_visibility
index_equals idx other =
    idx.invisible == other.invisible && index_equals_ignoring_visibility idx other

-- Index.Equals on pointers
unfoldable pub index_pointer_equals : Option Index → Option Index → Bool
unfolding index_equals
index_pointer_equals none none = true
index_pointer_equals (some idx) (some other) = index_equals idx other
index_pointer_equals _ _ = false

abbrev normalized_rule : Text → Text
normalized_rule rule = if rule == txt "RESTRICT" || rule == txt "NO ACTION" then [] else rule

abbrev pub normalized_update_rule : ForeignKey → Text
normalized_update_rule fk = normalized_rule fk.update_rule

abbrev pub normalized_delete_rule : ForeignKey → Text
normalized_delete_rule fk = normalized_rule fk.delete_rule

-- The loop over the column names; the referenced names have the same number.
unfoldable pub same_columns : List Text → List Text → List Text → List Text → Bool
unfolding text_eq
same_columns (c ∷ cs) (r ∷ rs) (d ∷ ds) (s ∷ ss) = c == d && r == s && same_columns cs rs ds ss
same_columns [] rs [] ss = true
same_columns _ _ _ _ = false

unfoldable pub foreign_key_equivalent : ForeignKey → ForeignKey → Bool
unfolding same_columns text_eq
foreign_key_equivalent fk other =
    if fk.referenced_schema_name != other.referenced_schema_name
      || fk.referenced_table_name != other.referenced_table_name
    then false
    else if normalized_update_rule fk != normalized_update_rule other
        || normalized_delete_rule fk != normalized_delete_rule other
    then false
    else same_columns fk.column_names fk.referenced_column_names other.column_names
        other.referenced_column_names

unfoldable pub foreign_key_equals : ForeignKey → ForeignKey → Bool
unfolding foreign_key_equivalent
foreign_key_equals fk other =
    fk.name == other.name
    && fk.update_rule == other.update_rule
    && fk.delete_rule == other.delete_rule
    && foreign_key_equivalent fk other
