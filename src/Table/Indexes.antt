-- ===== src/Table/Indexes.antt =====
-- The comparison of primary keys and secondary indexes in Table.Diff of internal/tengo/table.go.
pub mod Replay
pub mod Reordered
pub mod Placing
pub mod InPlace
pub mod Result
use skeema.Prelude.{
  Bool, true, false, not, ◌||◌, List, [], ◌∷◌, ◌++◌, Option, none, some, Text, text_eq, bool_eq,
  ◌!=◌, if◌then◌else◌,
}
use skeema.Objects.{Index}
use skeema.Objects.Compare.{index_pointer_equals, index_equals_ignoring_visibility}
use skeema.Clause.{TableAlterClause, add_index, drop_index, alter_index}
use skeema.Table.ByName.{find_named, has_name}

abbrev pub index_name : Index → Text
index_name i = i.name

unfoldable pub replace_primary_key : Option Index → Option Index → List TableAlterClause
replace_primary_key none none = []
replace_primary_key none (some to) = add_index to false ∷ []
replace_primary_key (some from) none = drop_index from false ∷ []
replace_primary_key (some from) (some to) = drop_index from false ∷ add_index to false ∷ []

unfoldable pub primary_key_clauses : Option Index → Option Index → List TableAlterClause
unfolding replace_primary_key
primary_key_clauses from to =
    if not (index_pointer_equals from to) then replace_primary_key from to else []

-- fromIndexStillExist
unfoldable pub still_exist : List Index → List Index → List Index
unfolding has_name
still_exist to_indexes [] = []
still_exist to_indexes (i ∷ is) =
    let rest = still_exist to_indexes is in
    if has_name index_name i.name to_indexes then i ∷ rest else rest

unfoldable pub index_drops : List Index → List Index → List TableAlterClause
unfolding has_name
index_drops to_indexes [] = []
index_drops to_indexes (i ∷ is) =
    let rest = index_drops to_indexes is in
    if has_name index_name i.name to_indexes then rest else drop_index i false ∷ rest

-- An index that existed before and is the same but for its visibility.
unfoldable pub kept_index : Index → Index → Bool → List TableAlterClause
kept_index from to reorder =
    (if from.invisible != to.invisible then alter_index from to.invisible reorder ∷ [] else [])
    ++ (if reorder then drop_index from true ∷ add_index to true ∷ [] else [])

-- The head of fromIndexStillExist[n:] has another name; past its end the code would panic.
unfoldable pub out_of_place : Index → List Index → Bool
unfolding text_eq
out_of_place to [] = true
out_of_place to (from ∷ rest) = from.name != to.name

abbrev pub tail_of {ℓ} : {A : Type ℓ} → List A → List A
tail_of [] = []
tail_of (x ∷ xs) = xs

-- The body of the loop, given what fromIndexes has under the name, and the clauses of the rest of
-- the loop with reorderIndexes set and with what it is otherwise.
unfoldable pub index_step :
    Option Index
    → Index
    → Bool
    → List TableAlterClause
    → List TableAlterClause
    → List TableAlterClause
unfolding index_equals_ignoring_visibility kept_index
index_step none to reorder changed same = add_index to false ∷ changed
index_step (some from) to reorder changed same =
    if not (index_equals_ignoring_visibility from to)
    then drop_index from false ∷ add_index to false ∷ changed
    else kept_index from to reorder ++ same

-- The loop over the indexes of `to`; `still` is fromIndexStillExist[n:].
unfoldable pub index_loop : List Index → List Index → Bool → List Index → List TableAlterClause
unfolding find_named index_step out_of_place
index_loop from_indexes still reorder [] = []
index_loop from_indexes still reorder (to ∷ tos) =
    let changed = index_loop from_indexes (tail_of still) true tos in
    let same = index_loop from_indexes (tail_of still) (reorder || out_of_place to still) tos in
    index_step (find_named index_name to.name from_indexes) to reorder changed same

unfoldable pub secondary_index_clauses : List Index → List Index → List TableAlterClause
unfolding index_drops index_loop still_exist
secondary_index_clauses from_indexes to_indexes =
    index_drops to_indexes from_indexes
    ++ index_loop from_indexes (still_exist to_indexes from_indexes) false to_indexes
