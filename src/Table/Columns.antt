-- ===== src/Table/Columns.antt =====
-- compareColumnExistence and the methods of columnsComparison of internal/tengo/table.go.
use skeema.Prelude.{
  ℕ, ◌+◌, Bool, true, false, not, ◌&&◌, ◌||◌, List, [], ◌∷◌, ◌++◌, map, Option, none, some, Text,
  text_eq, ◌!=◌, if◌then◌else◌, nat_beq, ltb,
}
use skeema.Lis.{longest_increasing_subsequence}
use skeema.Objects.{Column, column_eq, Table}
use skeema.Objects.Compare.{column_equals}
use skeema.Clause.{TableAlterClause, add_column, drop_column, modify_column}
use skeema.Table.ByName.{find_named, has_name, position_from}

abbrev pub column_name : Column → Text
column_name c = c.name

-- The columns that the other table has too, in their own order.
unfoldable pub common_columns : List Column → List Column → List Column
unfolding has_name
common_columns others [] = []
common_columns others (c ∷ cs) =
    let rest = common_columns others cs in
    if has_name column_name c.name others then c ∷ rest else rest

-- commonColumnsMoved: the two orders of the common columns differ somewhere.
unfoldable pub columns_moved : List Column → List Column → Bool
unfolding text_eq
columns_moved [] from_common = false
columns_moved (t ∷ ts) [] = true
columns_moved (t ∷ ts) (f ∷ fs) = t.name != f.name || columns_moved ts fs

unfoldable pub column_drops : List Column → List Column → List TableAlterClause
unfolding has_name
column_drops to_columns [] = []
column_drops to_columns (c ∷ cs) =
    let rest = column_drops to_columns cs in
    if has_name column_name c.name to_columns then rest else drop_column c ∷ rest

-- existingColsAfter
unfoldable pub any_existed : List Column → List Column → Bool
unfolding has_name
any_existed from_columns [] = false
any_existed from_columns (c ∷ cs) =
    has_name column_name c.name from_columns || any_existed from_columns cs

-- The loop of columnAdds; `before` is the column of `to` in front of the current one.
unfoldable pub column_adds_from :
    Table → List Column → Option Column → List Column → List TableAlterClause
unfolding has_name any_existed
column_adds_from to from_columns before [] = []
column_adds_from to from_columns before (c ∷ cs) =
    let rest = column_adds_from to from_columns (some c) cs in
    if has_name column_name c.name from_columns
    then rest
    else if any_existed from_columns cs
    then (elim before [
      | none ↦ add_column to c true none
      | some b ↦ add_column to c false (some b)
    ])
      ∷ rest
    else add_column to c false none ∷ rest

abbrev pub column_adds : Table → Table → List TableAlterClause
column_adds from to = column_adds_from to from.columns none to.columns

-- The branch for common columns that all kept their place.
unfoldable pub modify_in_place : Table → List Column → List Column → List TableAlterClause
unfolding column_eq
modify_in_place to (t ∷ ts) (f ∷ fs) =
    let rest = modify_in_place to ts fs in
    if not (column_equals f t) then modify_column to f t false none ∷ rest else rest
modify_in_place to _ _ = []

-- stayPut[toPos]
unfoldable pub stays : ℕ → List ℕ → Bool
stays pos [] = false
stays pos (p ∷ ps) = nat_beq p pos || stays pos ps

-- The last loop of columnModifications; `before` is toOrderCommonCols[toPos-1].
unfoldable pub modify_moved :
    Table → List Column → List ℕ → ℕ → Option Column → List Column → List TableAlterClause
unfolding find_named column_eq stays
modify_moved to from_columns stay_put to_pos before [] = []
modify_moved to from_columns stay_put to_pos before (t ∷ ts) =
    let rest = modify_moved to from_columns stay_put (to_pos + 1) (some t) ts in
    elim (find_named column_name t.name from_columns) [
      | none ↦ rest
      | some f ↦
          let moved = not (stays to_pos stay_put) in
          if moved || not (column_equals f t)
          then modify_column to f t (moved && nat_beq to_pos 0)
              (if moved && ltb 0 to_pos then before else none)
            ∷ rest
          else rest
    ]

-- toColPos: a column that the map lacks would read as position 0
unfoldable pub to_position : List Column → Column → ℕ
unfolding position_from
to_position to_common c = elim (position_from column_name 0 c.name to_common) [
  | none ↦ 0
  | some p ↦ p
]

unfoldable pub column_modifications : Table → Table → List TableAlterClause
unfolding common_columns columns_moved modify_in_place modify_moved to_position
column_modifications from to =
    let from_common = common_columns to.columns from.columns in
    let to_common = common_columns from.columns to.columns in
    let stay_put = longest_increasing_subsequence (map (to_position to_common) from_common) in
    if not (columns_moved to_common from_common)
    then modify_in_place to to_common from_common
    else modify_moved to from.columns stay_put 0 none to_common

unfoldable pub column_clauses : Table → Table → List TableAlterClause
unfolding column_drops column_modifications column_adds_from
column_clauses from to =
    column_drops to.columns from.columns ++ (column_modifications from to ++ column_adds from to)
