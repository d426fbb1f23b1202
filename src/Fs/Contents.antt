-- ===== src/Fs/Contents.antt =====
-- parseContents of internal/fs/dir.go, from the parsed *.sql files on: which logical schemas a
-- directory has. The range over logicalSchemasByName is in the order of its list of entries.
pub mod Found
pub mod Finding
pub mod Duplicates
use skeema.Prelude.{
  ℕ, Bool, true, false, not, ◌&&◌, ◌||◌, List, [], ◌∷◌, ◌++◌, Option, none, some, Text, txt,
  text_eq, ◌==◌, if◌then◌else◌, is_empty, length, take, ltb, to_lower,
}
use skeema.Statement.{
  Statement, StatementType, statement_unknown, statement_noop, statement_command, statement_create,
  statement_alter, statement_schema,
}
use skeema.Fs.{
  LogicalSchema, DuplicateDefinitionError, new_logical_schema, add_statement, is_empty_schema,
}

-- A *.sql file: what ParseStatementsInFile returns for it.
pub record SqlFile : Type 0 where
  pub file_path : Text
  pub statements : List Statement
  pub failure : Option Text

pub data ParseError : Type 0 where
  file_failure : Text → ParseError
  duplicate : DuplicateDefinitionError → ParseError

-- An entry of logicalSchemasByName.
pub record Named : Type 0 where
  pub name : Text
  pub schema : LogicalSchema

-- The variables and fields that the loop over the files writes.
pub record Contents : Type 0 where
  pub schemas : List Named
  pub sql_files : List Text
  pub unparsed_statements : List Statement
  pub named_schema_statements : List Statement
  pub parse_error : Option ParseError

abbrev pub no_contents : Contents
no_contents = record {
  schemas = [];
  sql_files = [];
  unparsed_statements = [];
  named_schema_statements = [];
  parse_error = none;
}

-- logicalSchemasByName[name], a new one where there is none
unfoldable pub schema_named : Text → List Named → LogicalSchema
unfolding text_eq
schema_named name [] = new_logical_schema
schema_named name (n ∷ ns) = if name == n.name then n.schema else schema_named name ns

unfoldable pub put_schema : Text → LogicalSchema → List Named → List Named
unfolding text_eq
put_schema name s [] = record { name = name; schema = s } ∷ []
put_schema name s (n ∷ ns) =
    if name == n.name then record n { schema = s } ∷ ns else n ∷ put_schema name s ns

unfoldable pub names_schema : Statement → Bool
unfolding text_eq
names_schema stmt =
    not (is_empty stmt.object_qualifier)
    || (elim stmt.type [ statement_command ↦ true | _ ↦ false ]
        && (ltb 4 (length stmt.text) && to_lower (take 3 stmt.text) == txt "use"))

abbrev is_unknown : StatementType → Bool
is_unknown statement_unknown = true
is_unknown _ = false

unfoldable pub note_statement : Statement → Contents → Contents
unfolding names_schema
note_statement stmt c =
    if is_unknown stmt.type
    then record c { unparsed_statements = c.unparsed_statements ++ stmt ∷ [] }
    else if names_schema stmt
    then record c { named_schema_statements = c.named_schema_statements ++ stmt ∷ [] }
    else c

unfoldable pub add_error : Statement → Option DuplicateDefinitionError → Contents → Contents
unfolding note_statement
add_error stmt none c = note_statement stmt c
add_error stmt (some e) c = record c { parse_error = some (duplicate e) }

-- A statement that is not ignored.
unfoldable pub place_statement : Statement → Contents → Contents
unfolding add_error add_statement put_schema schema_named
place_statement stmt c =
    let name = statement_schema stmt in
    let added = add_statement (schema_named name c.schemas) stmt in
    add_error stmt added.1 (record c { schemas = put_schema name added.0 c.schemas })

-- Nothing more is done after an error.
abbrev pub unless_failed : Option ParseError → Contents → Contents → Contents
unless_failed none next c = next
unless_failed (some e) next c = c

-- The dir's ShouldIgnore is the first argument.
module _ (should_ignore : Statement → Bool) where
  abbrev pub contents_step : Statement → Contents → Contents
  contents_step stmt c = if should_ignore stmt then c else place_statement stmt c

  -- The loop over the statements of a file; it stops at an error.
  unfoldable pub place_statements : List Statement → Contents → Contents
  unfolding place_statement
  place_statements [] c = c
  place_statements (stmt ∷ stmts) c =
      unless_failed c.parse_error (place_statements stmts (contents_step stmt c)) c

  abbrev pub file_done : Text → Contents → Contents
  file_done path c =
      unless_failed c.parse_error (record c { sql_files = c.sql_files ++ path ∷ [] }) c

  abbrev pub read_parsed : Option Text → SqlFile → Contents → Contents
  read_parsed (some e) f c = record c { parse_error = some (file_failure e) }
  read_parsed none f c = file_done f.file_path (place_statements f.statements c)

  abbrev pub read_file : SqlFile → Contents → Contents
  read_file f c = read_parsed f.failure f c

  -- The loop over the files.
  unfoldable pub read_files : List SqlFile → Contents → Contents
  unfolding place_statements
  read_files [] c = c
  read_files (f ∷ fs) c = unless_failed c.parse_error (read_files fs (read_file f c)) c

-- The range that deletes the empty schemas.
unfoldable pub prune : List Named → List Named
unfolding is_empty_schema
prune [] = []
prune (n ∷ ns) = if is_empty_schema n.schema then prune ns else n ∷ prune ns

unfoldable pub with_default : Bool → List Named → List Named
with_default has_schema [] =
    if has_schema then record { name = []; schema = new_logical_schema } ∷ [] else []
with_default has_schema (n ∷ ns) = n ∷ ns

-- The blank-named schema, and the others with their names written into them.
unfoldable pub nameless : Text → Text → List Named → List LogicalSchema
nameless char_set collation [] = []
nameless char_set collation (n ∷ ns) =
    if is_empty n.name
    then record (n.schema) { char_set = char_set; collation = collation } ∷ []
    else nameless char_set collation ns

unfoldable pub named_ones : List Named → List LogicalSchema
named_ones [] = []
named_ones (n ∷ ns) =
    if is_empty n.name then named_ones ns else record (n.schema) { name = n.name } ∷ named_ones ns

-- dir.LogicalSchemas, from HasSchema, the two options and logicalSchemasByName
unfoldable pub logical_schemas : Bool → Text → Text → List Named → List LogicalSchema
unfolding prune with_default nameless named_ones
logical_schemas has_schema char_set collation schemas =
    let kept = with_default has_schema (prune schemas) in
    nameless char_set collation kept ++ named_ones kept
