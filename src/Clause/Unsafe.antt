-- ===== src/Clause/Unsafe.antt =====
-- The Unsafe methods of internal/tengo/alterclause.go. ModifyColumn.Unsafe is one long chain of
-- early returns; each block of it is a function that answers or passes on.
pub mod Integers
use skeema.Prelude.{
  ◌-◌, Bool, true, false, not, ◌&&◌, ◌||◌, List, [], ◌∷◌, Option, some, Text, txt, text_eq, ◌==◌,
  ◌!=◌, if◌then◌else◌, has_prefix, contains, take, length, ltb, leb, to_lower, nat_eq,
}
use skeema.Objects.{Column}
use skeema.Clause.{
  TableAlterClause, drop_column, modify_column, change_storage_engine, modify_partitions,
}
use skeema.Clause.Types.{
  atoi, match_one, match_two, match_float_or_double, match_fsp, is_string_type, is_var_bin_type,
  int_rank, is_conversion_between,
}

-- bothSamePrefix
unfoldable pub both_same_prefix : Text → Text → List Text → Bool
unfolding has_prefix
both_same_prefix old_type new_type [] = false
both_same_prefix old_type new_type (candidate ∷ prefixes) =
    (has_prefix old_type candidate && has_prefix new_type candidate)
    || both_same_prefix old_type new_type prefixes

abbrev has_paren : Text → Bool
has_paren typ = contains typ (txt "(")

narrower_pair : Option (Text × Text) → Option (Text × Text) → Bool
narrower_pair (some (p, s)) (some (q, t)) = ltb (atoi q) (atoi p) || ltb (atoi t) (atoi s)
narrower_pair _ _ = true

narrower : Option Text → Option Text → Bool
narrower (some p) (some q) = ltb (atoi q) (atoi p)
narrower _ _ = true

-- decimal(a,b) → decimal(x,y)
unfoldable pub unsafe_decimal : Text → Text → Bool
unfolding match_two narrower_pair
unsafe_decimal old_type new_type =
    narrower_pair (match_two (txt "decimal(") old_type) (match_two (txt "decimal(") new_type)

-- bit(x) → bit(y)
unfoldable pub unsafe_bit : Text → Text → Bool
unfolding match_one narrower
unsafe_bit old_type new_type =
    narrower (match_one (txt "bit(") (txt ")") old_type) (match_one (txt "bit(") (txt ")") new_type)

-- time, timestamp, datetime
unfoldable pub unsafe_time : Text → Text → Bool
unfolding contains match_fsp narrower
unsafe_time old_type new_type =
    if not (has_paren old_type)
    then false
    else if not (has_paren new_type)
    then true
    else narrower (match_fsp old_type) (match_fsp new_type)

-- float and double
unfoldable pub unsafe_float : Text → Text → Bool
unfolding contains match_float_or_double narrower_pair
unsafe_float old_type new_type =
    if not (has_paren new_type)
    then false
    else if not (has_paren old_type)
    then true
    else narrower_pair (match_float_or_double old_type) (match_float_or_double new_type)

-- integers, where both types are integers
unfoldable pub unsafe_int : Text → Text → Bool
unfolding contains int_rank
unsafe_int old_type new_type =
    if contains old_type (txt "unsigned") && not (contains new_type (txt "unsigned"))
    then leb (int_rank new_type) (int_rank old_type)
    else ltb (int_rank new_type) (int_rank old_type)

-- The blocks behind the integers: strings, MariaDB's convenience types, binary strings.
unfoldable pub unsafe_sized : Text → Text → Bool
unfolding is_string_type is_var_bin_type is_conversion_between
unsafe_sized old_type new_type =
    let (old_string, old_string_size) = is_string_type old_type in
    let (new_string, new_string_size) = is_string_type new_type in
    let (old_var_bin, old_var_bin_size) = is_var_bin_type old_type in
    let (new_var_bin, new_var_bin_size) = is_var_bin_type new_type in
    if old_string && new_string
    then ltb new_string_size old_string_size
    else if is_conversion_between old_type new_type (txt "inet6")
        (txt "binary(16)" ∷ txt "char(39)" ∷ txt "varchar(39)" ∷ [])
    then false
    else if is_conversion_between old_type new_type (txt "inet4")
        (txt "binary(4)" ∷ txt "char(15)" ∷ txt "varchar(15)" ∷ [])
    then false
    else if is_conversion_between old_type new_type (txt "uuid") (
        txt "binary(16)"
        ∷ txt "char(32)"
        ∷ txt "varchar(32)"
        ∷ txt "char(36)"
        ∷ txt "varchar(36)"
        ∷ [])
    then false
    else if old_var_bin && new_var_bin
    then ltb new_var_bin_size old_var_bin_size
    else true

-- The chain behind the checks on the columns, for two types that differ.
unfoldable pub unsafe_type_change : Text → Text → Bool
unfolding contains both_same_prefix has_prefix unsafe_decimal unsafe_bit unsafe_time unsafe_float
    unsafe_int unsafe_sized int_rank
unsafe_type_change old_type new_type =
    if not (contains old_type (txt "unsigned")) && contains new_type (txt "unsigned")
    then true
    else if both_same_prefix old_type new_type (txt "enum" ∷ txt "set" ∷ [])
    then not (has_prefix new_type (take (length old_type - 1) old_type))
    else if both_same_prefix old_type new_type (txt "decimal" ∷ [])
    then unsafe_decimal old_type new_type
    else if both_same_prefix old_type new_type (txt "bit" ∷ [])
    then unsafe_bit old_type new_type
    else if both_same_prefix old_type new_type (txt "time" ∷ txt "timestamp" ∷ txt "datetime" ∷ [])
    then unsafe_time old_type new_type
    else if both_same_prefix old_type new_type (txt "float" ∷ txt "double" ∷ [])
        || (has_prefix old_type (txt "float") && has_prefix new_type (txt "double"))
    then unsafe_float old_type new_type
    else if ltb 0 (int_rank old_type) && ltb 0 (int_rank new_type)
    then unsafe_int old_type new_type
    else unsafe_sized old_type new_type

-- ModifyColumn.Unsafe
unfoldable pub modify_column_unsafe : Column → Column → Bool
unfolding text_eq unsafe_type_change
modify_column_unsafe old_column new_column =
    let old_type = to_lower old_column.type_in_db in
    let new_type = to_lower new_column.type_in_db in
    if old_column.virtual
    then false
    else if old_column.char_set != new_column.char_set
    then true
    else if old_type == new_type
    then false
    else unsafe_type_change old_type new_type

-- Whether a clause is an Unsafer that says so.
unfoldable pub clause_unsafe : TableAlterClause → Bool
unfolding modify_column_unsafe
clause_unsafe (drop_column column) = not column.virtual
clause_unsafe (modify_column table old_column new_column first after) =
    modify_column_unsafe old_column new_column
clause_unsafe (change_storage_engine engine) = true
clause_unsafe (modify_partitions add [] for_drop_table) = false
clause_unsafe (modify_partitions add (p ∷ drop) for_drop_table) = true
clause_unsafe _ = false
