-- ===== src/Table/Constraints.antt =====
-- The comparison of foreign keys and of check constraints in Table.Diff of internal/tengo/table.go.
use skeema.Prelude.{
  Bool, true, false, not, ◌||◌, List, [], ◌∷◌, ◌++◌, none, some, Text, text_eq, bool_eq, ◌!=◌,
  if◌then◌else◌,
}
use skeema.Objects.{ForeignKey, Check}
use skeema.Objects.Compare.{foreign_key_equals, foreign_key_equivalent}
use skeema.Clause.{
  TableAlterClause, add_foreign_key, drop_foreign_key, add_check, drop_check, alter_check,
}
use skeema.Table.ByName.{find_named, has_name}
use skeema.Table.Indexes.{tail_of}

abbrev pub foreign_key_name : ForeignKey → Text
foreign_key_name fk = fk.name

-- fkChangeCosmeticOnly
unfoldable pub fk_change_cosmetic_only : ForeignKey → List ForeignKey → Bool
fk_change_cosmetic_only fk [] = false
fk_change_cosmetic_only fk (other ∷ others) =
    foreign_key_equivalent fk other || fk_change_cosmetic_only fk others

-- The loop over the map of `to`; the last argument is the order in which Go ranges over it.
unfoldable pub foreign_key_adds : List ForeignKey → List ForeignKey → List TableAlterClause
unfolding has_name fk_change_cosmetic_only
foreign_key_adds from_fks [] = []
foreign_key_adds from_fks (to ∷ range) =
    let rest = foreign_key_adds from_fks range in
    if has_name foreign_key_name to.name from_fks
    then rest
    else add_foreign_key to (fk_change_cosmetic_only to from_fks) ∷ rest

-- The loop over the map of `from`.
unfoldable pub foreign_key_changes : List ForeignKey → List ForeignKey → List TableAlterClause
unfolding find_named fk_change_cosmetic_only
foreign_key_changes to_fks [] = []
foreign_key_changes to_fks (from ∷ range) =
    let rest = foreign_key_changes to_fks range in
    elim (find_named foreign_key_name from.name to_fks) [
      | none ↦ drop_foreign_key from (fk_change_cosmetic_only from to_fks) ∷ rest
      | some to ↦
          let cosmetic = foreign_key_equivalent from to in
          if not (foreign_key_equals from to)
          then drop_foreign_key from cosmetic ∷ add_foreign_key to cosmetic ∷ rest
          else rest
    ]

-- `order` gives the order in which Go ranges over a map with these values.
unfoldable pub foreign_key_clauses :
    (List ForeignKey → List ForeignKey) → List ForeignKey → List ForeignKey → List TableAlterClause
unfolding foreign_key_adds foreign_key_changes
foreign_key_clauses order from_fks to_fks =
    foreign_key_adds from_fks (order to_fks) ++ foreign_key_changes to_fks (order from_fks)

abbrev pub check_name : Check → Text
check_name c = c.name

unfoldable pub checks_still_exist : List Check → List Check → List Check
unfolding has_name
checks_still_exist to_checks [] = []
checks_still_exist to_checks (c ∷ cs) =
    let rest = checks_still_exist to_checks cs in
    if has_name check_name c.name to_checks then c ∷ rest else rest

unfoldable pub check_drops : List Check → List Check → List TableAlterClause
unfolding has_name
check_drops to_checks [] = []
check_drops to_checks (c ∷ cs) =
    let rest = check_drops to_checks cs in
    if has_name check_name c.name to_checks then rest else drop_check c false ∷ rest

unfoldable pub check_out_of_place : Check → List Check → Bool
unfolding text_eq
check_out_of_place to [] = true
check_out_of_place to (from ∷ rest) = from.name != to.name

-- The loop over the checks of `to`; `still` is fromCheckStillExist[n:].
unfoldable pub check_loop : List Check → List Check → Bool → List Check → List TableAlterClause
unfolding find_named check_out_of_place text_eq
check_loop from_checks still reorder [] = []
check_loop from_checks still reorder (to ∷ tos) =
    let reordered = check_loop from_checks (tail_of still) true tos in
    let same = check_loop from_checks (tail_of still) reorder tos in
    elim (find_named check_name to.name from_checks) [
      | none ↦ add_check to false ∷ reordered
      | some from ↦
          if from.clause != to.clause
          then drop_check from false ∷ add_check to false ∷ reordered
          else if from.enforced != to.enforced
          then alter_check from to.enforced ∷ same
          else if reorder
          then drop_check from true ∷ add_check to true ∷ same
          else if check_out_of_place to still
          then reordered
          else same
    ]

unfoldable pub check_clauses : List Check → List Check → List TableAlterClause
unfolding check_drops check_loop checks_still_exist
check_clauses from_checks to_checks =
    check_drops to_checks from_checks
    ++ check_loop from_checks (checks_still_exist to_checks from_checks) false to_checks
