-- ===== src/Table/ByName.antt =====
-- The maps that ColumnsByName, SecondaryIndexesByName, foreignKeysByName, checksByName of
-- internal/tengo/table.go and TablesByName, routinesByNameAndType of schema.go build: under a name
-- stands the last object that has it.
use skeema.Prelude.{
  ℕ, ◌+◌, Bool, true, false, List, [], ◌∷◌, Option, none, some, Text, text_eq, ◌==◌, if◌then◌else◌,
}

module _ {ℓ} {A : Type ℓ} (name : A → Text) where
  unfoldable pub find_named : Text → List A → Option A
  unfolding text_eq
  find_named key [] = none
  find_named key (x ∷ xs) = elim (find_named key xs) [
    | some y ↦ some y
    | none ↦ if name x == key then some x else none
  ]

  -- Whether the map has the key.
  unfoldable pub has_name : Text → List A → Bool
  unfolding find_named
  has_name key xs = elim (find_named key xs) [ none ↦ false | some y ↦ true ]

  -- A map from a name to its position in a list.
  unfoldable pub position_from : ℕ → Text → List A → Option ℕ
  unfolding text_eq
  position_from n key [] = none
  position_from n key (x ∷ xs) = elim (position_from (n + 1) key xs) [
    | some p ↦ some p
    | none ↦ if name x == key then some n else none
  ]
