-- ===== src/Linter/DupeIndex.antt =====
-- dupeIndexChecker of internal/linter/check_dupe_index.go; a note is the pair of names and the flag
-- that its message is made from.
pub mod Complete
use skeema.Prelude.{
  ℕ, ◌+◌, Bool, true, false, not, ◌&&◌, ◌||◌, List, [], ◌∷◌, ◌++◌, Option, none, some, Text, txt,
  if◌then◌else◌, ltb, nat_beq,
}
use skeema.Objects.{Index, Table}
use skeema.Objects.Compare.{index_equivalent}
use skeema.Objects.Redundant.{redundant_to}

pub record DupeNote : Type 0 where
  pub dupe_index_name : Text
  pub better_index_name : Text
  pub equivalent : Bool

-- The reason in a note's message.
unfoldable pub note_reason : Text → DupeNote → Text
note_reason table n =
    if n.equivalent
    then txt "Indexes "
      ++ (n.dupe_index_name
          ++ (txt " and "
              ++ (n.better_index_name
                  ++ (txt " of table "
                      ++ (table
                          ++ txt " are functionally identical.\nOne of them should be dropped.")))))
    else txt "Index "
      ++ (n.dupe_index_name
          ++ (txt " of table "
              ++ (table
                  ++ (txt " is redundant to larger index "
                      ++ (n.better_index_name
                          ++ (txt ".\nConsider dropping index "
                              ++ (n.dupe_index_name ++ txt ".")))))))

-- The inner loop: the first other index, at `j` or later, that the index at `i` is redundant to.
unfoldable pub first_redundant : ℕ → Index → ℕ → List Index → Option (ℕ × Index)
unfolding redundant_to
first_redundant i idx j [] = none
first_redundant i idx j (other ∷ others) =
    if not (nat_beq i j) && redundant_to idx other
    then some (j, other)
    else first_redundant i idx (j + 1) others

-- One of an equivalent pair is noted, the later one.
unfoldable pub notes_of : ℕ → Index → Option (ℕ × Index) → List DupeNote
unfolding index_equivalent
notes_of i idx none = []
notes_of i idx (some (j, other)) =
    let equivalent = index_equivalent idx other in
    if not equivalent || ltb j i
    then record {
      dupe_index_name = idx.name;
      better_index_name = other.name;
      equivalent = equivalent;
    }
      ∷ []
    else []

unfoldable pub redundant_to_key : Index → Option Index → Bool
unfolding redundant_to
redundant_to_key idx none = false
redundant_to_key idx (some key) = redundant_to idx key

-- The body of the outer loop.
unfoldable pub index_notes : Option Index → List Index → ℕ → Index → List DupeNote
unfolding redundant_to_key first_redundant notes_of
index_notes key all i idx =
    if redundant_to_key idx key
    then record {
      dupe_index_name = idx.name;
      better_index_name = txt "PRIMARY";
      equivalent = false;
    }
      ∷ []
    else notes_of i idx (first_redundant i idx 0 all)

unfoldable pub notes_from : Option Index → List Index → ℕ → List Index → List DupeNote
unfolding index_notes
notes_from key all i [] = []
notes_from key all i (idx ∷ rest) = index_notes key all i idx ++ notes_from key all (i + 1) rest

unfoldable pub dupe_index_checker : Table → List DupeNote
unfolding notes_from
dupe_index_checker t = notes_from t.primary_key t.secondary_indexes 0 t.secondary_indexes
