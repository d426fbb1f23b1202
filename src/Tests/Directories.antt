-- ===== src/Tests/Directories.antt =====
-- Runs of the logical schemas of a directory.
use skeema.Prelude.{ℕ, Bool, false, List, [], ◌∷◌, none, Text, txt, text_eq, ◌≡◌, refl, ◌||◌, map}
use skeema.Objects.{object_table, object_type_eq}
use skeema.Objects.Keys.{same_key}
use skeema.Statement.{
  Statement, StatementType, statement_create, statement_alter, statement_schema, statement_key,
}
use skeema.Fs.{
  LogicalSchema, new_logical_schema, add_statement, add_of_type, find_create, put_create,
  duplicate_of, lower_case_names, lower_creates, lower_create, is_table, name_case_lower,
  name_case_insensitive,
}
use skeema.Fs.Adding.{is_some, first_create, alters_of}
use skeema.Fs.WellKeyed.{WellKeyed}
use skeema.Fs.LowerCase.{same_lower, lower_case_names_fails_iff_same_lower}
use skeema.Fs.LowerCase.Result.{lower_case_names_lowers_each_table}
use skeema.Fs.Contents.{
  SqlFile, no_contents, schema_named, put_schema, place_statement, place_statements, read_files,
  add_error, note_statement, names_schema,
}
use skeema.Fs.Contents.Found.{of_schema}
use skeema.Fs.Contents.Finding.{kept, all_statements, read_files_finds_first_creates}
use skeema.Fs.Contents.Duplicates.{any_clash, has_duplicate, place_statements_fails_on_duplicates}

abbrev statement : StatementType → ℕ → Text → Statement
statement type line name = record {
  file = txt "t.sql";
  line_no = line;
  char_no = 1;
  text = [];
  default_database = [];
  type = type;
  object_type = object_table;
  object_name = name;
  object_qualifier = [];
  delimiter = txt ";";
  compound = false;
  name_clause = name;
}

abbrev users : Statement
users = statement statement_create 1 (txt "Users")

abbrev posts : Statement
posts = statement statement_create 7 (txt "posts")

abbrev more_users : Statement
more_users = statement statement_alter 9 (txt "Users")

abbrev lower_users : Statement
lower_users = statement statement_create 12 (txt "users")

abbrev two_tables : LogicalSchema
two_tables = record new_logical_schema {
  creates =
      record { key = statement_key users; stmt = users }
      ∷ record { key = statement_key posts; stmt = posts }
      ∷ [];
}

abbrev one_file : List SqlFile
one_file =
    record { file_path = txt "t.sql"; statements = users ∷ posts ∷ more_users ∷ []; failure = none }
    ∷ []

abbrev ignores_none : Statement → Bool
ignores_none s = false

two_tables-WellKeyed : WellKeyed two_tables.creates
unfolding find_create same_key text_eq object_type_eq
two_tables-WellKeyed = record { distinct = (refl, (refl, _)); keys = (refl, (refl, _)) }

lower_case_names_fails_iff_same_lower_example :
    (is_some (lower_case_names (add_statement two_tables lower_users).0 name_case_lower).1
      ≡ same_lower (add_statement two_tables lower_users).0.creates)
    × (is_some (lower_case_names (add_statement two_tables lower_users).0 name_case_insensitive).1
        ≡ same_lower (add_statement two_tables lower_users).0.creates)
lower_case_names_fails_iff_same_lower_example =
    lower_case_names_fails_iff_same_lower (add_statement two_tables lower_users).0

two_tables-lowered : (lower_case_names two_tables name_case_lower).1 ≡ none
unfolding lower_case_names lower_creates lower_create is_table find_create put_create duplicate_of
    same_key text_eq object_type_eq
two_tables-lowered = refl

lower_case_names_lowers_each_table_example :
    ((lower_case_names two_tables name_case_lower).0.creates ≡ map lower_create two_tables.creates)
    × WellKeyed (lower_case_names two_tables name_case_lower).0.creates
lower_case_names_lowers_each_table_example =
    lower_case_names_lowers_each_table two_tables two_tables-WellKeyed two_tables-lowered

one_file-read : (read_files ignores_none one_file no_contents).parse_error ≡ none
unfolding read_files place_statements place_statement add_statement add_of_type find_create
    put_create duplicate_of schema_named put_schema add_error note_statement names_schema
    statement_schema same_key text_eq object_type_eq
one_file-read = refl

read_files_finds_first_creates_example :
    (find_create
        (statement_key users)
        (schema_named [] (read_files ignores_none one_file no_contents).schemas).creates
      ≡ first_create
          (statement_key users)
          (of_schema [] (kept ignores_none (all_statements one_file))))
    × ((schema_named [] (read_files ignores_none one_file no_contents).schemas).alters
        ≡ alters_of (of_schema [] (kept ignores_none (all_statements one_file))))
read_files_finds_first_creates_example =
    read_files_finds_first_creates ignores_none one_file one_file-read [] (statement_key users)

place_statements_fails_on_duplicates_example :
    is_some (place_statements ignores_none (users ∷ posts ∷ users ∷ []) no_contents).parse_error ≡ (
      any_clash no_contents (kept ignores_none (users ∷ posts ∷ users ∷ []))
      || has_duplicate (kept ignores_none (users ∷ posts ∷ users ∷ [])))
place_statements_fails_on_duplicates_example =
    place_statements_fails_on_duplicates ignores_none (users ∷ posts ∷ users ∷ []) no_contents refl
