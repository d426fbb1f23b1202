-- ===== src/Diff/Routine.antt =====
-- RoutineDiff.DiffType and RoutineDiff.Statement of internal/tengo/diff.go.
use skeema.Prelude.{
  Bool, not, ◌&&◌, [], ◌++◌, Option, none, some, Text, txt, text_eq, if◌then◌else◌, replace_first,
}
use skeema.Flavor.{is_mariadb}
use skeema.Objects.{object_type_eq, Routine}
use skeema.Objects.Create.{caps, routine_key, drop_routine_statement}
use skeema.Objects.Keys.{key_text}
use skeema.Clause.{StatementModifiers}
use skeema.Diff.{
  DiffType, diff_none, diff_create, diff_drop, diff_alter, DiffError, forbidden, other_error,
}
use skeema.Diff.Schema.{RoutineDiff}

unfoldable pub routine_diff_type : RoutineDiff → DiffType
routine_diff_type rd = elim rd.to [
  | none ↦ elim rd.from [ none ↦ diff_none | some r ↦ diff_drop ]
  | some r ↦ elim rd.from [ none ↦ diff_create | some s ↦ diff_alter ]
]

create_routine_text : Routine → Bool → Bool → Text
unfolding key_text replace_first
create_routine_text to maria_replace metadata =
    let comment =
      if maria_replace && metadata
      then txt "# Replacing " ++ (key_text (routine_key to) ++ txt " to update metadata\n")
      else [] in
    let stmt =
      if maria_replace
      then replace_first to.create_statement (txt "CREATE ") (txt "CREATE OR REPLACE ")
      else to.create_statement in
    comment ++ stmt

drop_routine_text : Routine → Bool → Text
unfolding key_text
drop_routine_text from metadata =
    (if metadata
      then txt "# Dropping and re-creating "
        ++ (key_text (routine_key from) ++ txt " to update metadata\n")
      else [])
    ++ drop_routine_statement from

create_routine_statement : Routine → Bool → Bool → Text × Option DiffError
unfolding create_routine_text
create_routine_statement to maria_replace metadata =
    (create_routine_text to maria_replace metadata, none)

drop_routine_diff : Routine → Bool → Bool → Bool → Text × Option DiffError
unfolding drop_routine_text
drop_routine_diff from maria_replace metadata allow_unsafe =
    let stmt = drop_routine_text from metadata in
    let reason = txt "DROP " ++ (caps from.type ++ txt " not permitted") in
    if maria_replace
    then ([], none)
    else (stmt, if not allow_unsafe then some (forbidden reason stmt) else none)

-- The switch on the diff type.
routine_statement : Option Routine → Option Routine → Bool → Bool → Bool → Text × Option DiffError
unfolding create_routine_statement drop_routine_diff
routine_statement none (some to) maria_replace metadata allow_unsafe =
    create_routine_statement to maria_replace metadata
routine_statement (some from) none maria_replace metadata allow_unsafe =
    drop_routine_diff from maria_replace metadata allow_unsafe
routine_statement none none maria_replace metadata allow_unsafe =
    ([], some (other_error (txt "Unsupported diff type 0")))
routine_statement (some from) (some to) maria_replace metadata allow_unsafe =
    ([], some (other_error (txt "Unsupported diff type 3")))

-- RoutineDiff.Statement
unfoldable pub routine_diff_statement : RoutineDiff → StatementModifiers → Text × Option DiffError
unfolding routine_statement
routine_diff_statement rd mods =
    if rd.for_metadata && not mods.compare_metadata
    then ([], none)
    else routine_statement rd.from rd.to (rd.for_replace && is_mariadb mods.flavor) rd.for_metadata
        mods.allow_unsafe
