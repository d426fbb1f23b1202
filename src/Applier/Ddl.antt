-- ===== src/Applier/Ddl.antt =====
-- DDLStatement of internal/applier/ddlstatement.go. Parameters: the instance's answers about sizes,
-- RealConnectOptions of internal/util/config.go, and the word wrap of the terminal.
pub mod Plan
use skeema.Prelude.{
  ℕ, Bool, true, false, not, ◌&&◌, ◌||◌, List, [], ◌∷◌, ◌++◌, Option, none, some, Text, txt,
  text_eq, ◌==◌, if◌then◌else◌, is_empty, to_upper, contains, ltb, nat_beq, replace_first, itoa,
}
use skeema.Objects.{
  Table, Routine, ObjectType, object_type_eq, object_database, object_table, ObjectKey,
}
use skeema.Objects.Create.{alter_table_statement, caps, routine_key, schema_key}
use skeema.Escape.{escape_identifier}
use skeema.Clause.{StatementModifiers}
use skeema.Diff.{
  DiffType, diff_none, diff_create, diff_drop, diff_alter, DiffError, forbidden, is_forbidden_diff,
  AlterTable, TableDiff, create_table, drop_table, alter_table, table_diff_type, table_diff_key,
}
use skeema.Diff.Split.{split_add_foreign_keys}
use skeema.Diff.Statement.{table_diff_statement}
use skeema.Diff.Routine.{routine_diff_type, routine_diff_statement}
use skeema.Diff.Schema.{
  RoutineDiff, ObjectDiff, database_diff, table_object_diff, routine_object_diff,
  database_diff_type, database_diff_statement,
}
use skeema.Parser.Statements.{parse_statement_in_string}
use skeema.Objects.{Schema, object_nil}
use skeema.Shell.{ShellOut, shell_out_text, new_interpolated_shell_out, Interpolated}
use skeema.Applier.Modifiers.{Config, unless_error}
use skeema.Applier.Printer.{ClientState}

-- An instance: its address, and its answers to TableHasRows and TableSize.
pub record Instance : Type 0 where
  pub host : Text
  pub port : ℕ
  pub socket_path : Text
  pub table_has_rows : Text → Text → Bool × Option Text
  pub table_size : Text → Text → ℕ × Option Text

-- Instance.String of internal/tengo/instance.go
unfoldable pub instance_text : Instance → Text
instance_text i =
    if not (is_empty i.socket_path)
    then i.host ++ (txt ":" ++ i.socket_path)
    else if nat_beq i.port 0
    then i.host
    else i.host ++ (txt ":" ++ itoa i.port)

pub record Target : Type 0 where
  pub instance_ : Instance
  pub config : Config
  pub dir_name : Text
  pub dir_path : Text
  pub schema_name : Text

pub record DdlStatement : Type 0 where
  pub stmt : Text
  pub compound : Bool
  pub shell_out : Option ShellOut
  pub instance_ : Instance
  pub schema_name : Text
  pub connect_params : Text

-- An error of a diff as it is, a message, and a ConfigError.
pub data DdlError : Type 0 where
  diff_error : DiffError → DdlError
  message : Text → DdlError
  config_error : Text → DdlError

key_of_schemas : Option Schema → Option Schema → ObjectKey
key_of_schemas none none = record { type = object_nil; name = [] }
key_of_schemas none (some to) = schema_key to
key_of_schemas (some from) to = schema_key from

key_of_routines : Option Routine → Option Routine → ObjectKey
key_of_routines none none = record { type = object_nil; name = [] }
key_of_routines (some from) to = routine_key from
key_of_routines none (some to) = routine_key to

unfoldable pub object_diff_key : ObjectDiff → ObjectKey
unfolding key_of_schemas key_of_routines
object_diff_key (database_diff from to) = key_of_schemas from to
object_diff_key (table_object_diff td) = table_diff_key td
object_diff_key (routine_object_diff rd) = key_of_routines rd.from rd.to

unfoldable pub object_diff_type : ObjectDiff → DiffType
unfolding database_diff_type routine_diff_type
object_diff_type (database_diff from to) = database_diff_type from to
object_diff_type (table_object_diff td) = table_diff_type td
object_diff_type (routine_object_diff rd) = routine_diff_type rd

unfoldable pub object_diff_statement : ObjectDiff → StatementModifiers → Text × Option DiffError
unfolding database_diff_statement table_diff_statement routine_diff_statement
object_diff_statement (database_diff from to) mods = database_diff_statement from to
object_diff_statement (table_object_diff td) mods = table_diff_statement td mods
object_diff_statement (routine_object_diff rd) mods = routine_diff_statement rd mods

compound_routine : Option Routine → Bool
compound_routine none = false
compound_routine (some to) = (parse_statement_in_string to.create_statement).compound

-- RoutineDiff.IsCompoundStatement; no other diff is a Compounder.
unfoldable pub is_compound_statement : ObjectDiff → Bool
unfolding compound_routine
is_compound_statement (routine_object_diff rd) = compound_routine rd.to
is_compound_statement (table_object_diff td) = false
is_compound_statement (database_diff from to) = false

is_create_diff : DiffType → Bool
is_create_diff diff_create = true
is_create_diff _ = false

is_alter_diff : DiffType → Bool
is_alter_diff diff_alter = true
is_alter_diff _ = false

-- `==` of an object's type and a constant
unfoldable pub key_is : ObjectDiff → ObjectType → Bool
unfolding object_type_eq object_diff_key
key_is diff type = (object_diff_key diff).type == type

abbrev asks_size : Config → Text → Bool
asks_size config option = contains (to_upper (config.get option)) (txt "{SIZE}")

unfoldable pub need_table_size : ObjectDiff → Config → Bool
unfolding key_is object_diff_type is_create_diff contains
need_table_size diff config =
    (key_is diff object_table && not (is_create_diff (object_diff_type diff)))
    && ((config.changed (txt "safe-below-size") || config.changed (txt "alter-wrapper-min-size"))
        || (asks_size config (txt "alter-wrapper") || asks_size config (txt "ddl-wrapper")))

unfoldable pub get_table_size : Target → Text → ℕ × Option Text
get_table_size target table =
    let rows = target.instance_.table_has_rows target.schema_name table in
    let size = target.instance_.table_size target.schema_name table in
    unless_error rows.1 (if not rows.0 then (0, none) else size) (0, rows.1)

-- size < int64(bytes), where `bytes` is a uint64: from 2 ^ 63 on the conversion gives a negative
-- number, and a size is not negative.
unfoldable pub size_below : ℕ → ℕ → Bool
size_below size bytes = ltb bytes 9223372036854775808 && ltb size bytes

abbrev pub or_message :
    Option Text
    → StatementModifiers
    → (ℕ × StatementModifiers) × Option DdlError
    → (ℕ × StatementModifiers) × Option DdlError
or_message none mods next = next
or_message (some e) mods next = ((0, mods), some (message e))

-- The size, and the modifiers that --safe-below-size leaves.
unfoldable pub sized_modifiers :
    ObjectDiff → StatementModifiers → Target → (ℕ × StatementModifiers) × Option DdlError
unfolding need_table_size get_table_size size_below
sized_modifiers diff mods target =
    let size = get_table_size target (object_diff_key diff).name in
    let below = target.config.get_bytes (txt "safe-below-size") in
    let allowed = if size_below size.0 below.0 then record mods { allow_unsafe = true } else mods in
    if need_table_size diff target.config
    then or_message size.1 mods (or_message below.1 mods ((size.0, allowed), none))
    else ((0, mods), none)

abbrev pub or_config_error :
    Option Text
    → StatementModifiers
    → (Text × StatementModifiers) × Option DdlError
    → (Text × StatementModifiers) × Option DdlError
or_config_error none mods next = next
or_config_error (some e) mods next = (([], mods), some (config_error e))

-- getWrapper: the command, and the modifiers that it changes.
unfoldable pub get_wrapper :
    Config → ObjectDiff → ℕ → StatementModifiers → (Text × StatementModifiers) × Option DdlError
unfolding key_is object_diff_type is_alter_diff size_below
get_wrapper config diff size mods =
    let min_size = config.get_bytes (txt "alter-wrapper-min-size") in
    let unlocked =
      if ltb 0 min_size.0 then record mods { algorithm_clause = []; lock_clause = [] } else mods in
    if (key_is diff object_table && is_alter_diff (object_diff_type diff))
      && config.changed (txt "alter-wrapper")
    then or_config_error min_size.1 mods (
        if not (size_below size min_size.0)
        then ((config.get (txt "alter-wrapper"), unlocked), none)
        else ((config.get (txt "ddl-wrapper"), mods), none))
    else ((config.get (txt "ddl-wrapper"), mods), none)

is_some_alter : Option AlterTable → Bool
is_some_alter none = false
is_some_alter (some td) = true

unfoldable pub get_connect_params : ObjectDiff → Config → Text
unfolding is_some_alter
get_connect_params (table_object_diff (alter_table td)) config =
    if config.get_bool (txt "foreign-key-checks") && is_some_alter (split_add_foreign_keys td).1
    then txt "readTimeout=0&foreign_key_checks=1"
    else txt "readTimeout=0"
get_connect_params (table_object_diff (drop_table from)) config = txt "readTimeout=0"
get_connect_params (table_object_diff (create_table to)) config = []
get_connect_params (routine_object_diff rd) config = []
get_connect_params (database_diff from to) config = []

without_prefix : TableDiff → Text → Text
unfolding replace_first
without_prefix (create_table to) stmt =
    replace_first stmt (txt "CREATE TABLE " ++ (escape_identifier to.name ++ txt " ")) []
without_prefix (alter_table td) stmt =
    replace_first stmt (alter_table_statement td.from ++ txt " ") []
without_prefix (drop_table from) stmt = []

-- TableDiff.Clauses
unfoldable pub table_diff_clauses : TableDiff → StatementModifiers → Text × Option DiffError
unfolding without_prefix table_diff_statement
table_diff_clauses td mods =
    let stmt = table_diff_statement td mods in
    if is_empty stmt.0 then stmt else (without_prefix td stmt.0, stmt.1)

-- DiffType.String
unfoldable pub diff_type_text : DiffType → Text
diff_type_text diff_none = []
diff_type_text diff_create = txt "CREATE"
diff_type_text diff_alter = txt "ALTER"
diff_type_text diff_drop = txt "DROP"

table_variables : ObjectDiff → StatementModifiers → Text → Text × Text
unfolding table_diff_clauses
table_variables (table_object_diff td) mods name = ((table_diff_clauses td mods).0, name)
table_variables (routine_object_diff rd) mods name = ([], [])
table_variables (database_diff from to) mods name = ([], [])

-- The variables of a wrapper command.
unfoldable pub wrapper_variables :
    Target → ObjectDiff → StatementModifiers → Text → Text → ℕ → Text → List (Text × Text)
unfolding object_diff_key object_diff_type diff_type_text table_variables
wrapper_variables target diff mods schema_name stmt size conn_opts =
    let i = target.instance_ in
    let key = object_diff_key diff in
    let no_socket = is_empty i.socket_path in
    let table = table_variables diff mods key.name in
    (txt "HOST", i.host)
    ∷ (txt "PORT", if no_socket then itoa i.port else [])
    ∷ (txt "SOCKET", i.socket_path)
    ∷ (txt "SCHEMA", schema_name)
    ∷ (txt "USER", target.config.get_allow_env_var (txt "user"))
    ∷ (txt "PASSWORD", target.config.get_allow_env_var (txt "password"))
    ∷ (txt "ENVIRONMENT", target.config.get (txt "environment"))
    ∷ (txt "DDL", stmt)
    ∷ (txt "CLAUSES", table.0)
    ∷ (txt "NAME", key.name)
    ∷ (txt "TABLE", table.1)
    ∷ (txt "SIZE", itoa size)
    ∷ (txt "TYPE", diff_type_text (object_diff_type diff))
    ∷ (txt "CLASS", caps key.type)
    ∷ (txt "CONNOPTS", conn_opts)
    ∷ (txt "DIRNAME", target.dir_name)
    ∷ (txt "DIRPATH", target.dir_path)
    ∷ []
