-- ===== src/Tests/Lint.antt =====
-- A run of CheckSchema.
use skeema.Prelude.{true, false, List, [], ◌∷◌, some, Text, txt, ◌≡◌, refl}
use skeema.Objects.{ObjectKey, object_table}
use skeema.Statement.{statement_create}
use skeema.Fs.{Create}
use skeema.Linter.Results.{
  severity_error, severity_warning, severity_ignore, annotate, annotate_notes, count_severity,
  RuleSeverity, LintOptions, Checking, check_rules, check_creates, check_schema,
}
use skeema.Linter.Results.Counting.{Counted, schema_annotations, check_schema_annotates_each}

abbrev table_key : Text → ObjectKey
table_key name = record { type = object_table; name = name }

abbrev create_of : Text → Create
create_of name = record {
  key = table_key name;
  stmt = record {
    file = txt "a.sql";
    line_no = 3;
    char_no = 1;
    text = txt "CREATE TABLE a (id int)";
    default_database = [];
    type = statement_create;
    object_type = object_table;
    object_name = name;
    object_qualifier = [];
    delimiter = txt ";";
    compound = false;
    name_clause = name;
  };
}

-- Each rule has one note, of the name that the object is.
abbrev one_note : Checking Text
one_note = record {
  objects = λ key. some key.name;
  check =
      λ rule object text. record { line_offset = 1; summary = rule; message = txt "no\nkey" } ∷ [];
}

abbrev rule : Text → RuleSeverity
rule name = record { rule_name = name; severity = severity_error }

abbrev options : LintOptions
options = record {
  should_ignore = λ key. false;
  rule_severity =
      rule (txt "pk")
      ∷ record { rule_name = txt "dupe-index"; severity = severity_warning }
      ∷ record { rule_name = txt "has-fk"; severity = severity_ignore }
      ∷ [];
  strip_annotation_newlines = true;
}

abbrev creates : List Create
creates = create_of (txt "a") ∷ create_of (txt "b") ∷ []

two_errors : (check_schema one_note options creates).error_count ≡ 2
unfolding check_schema check_creates check_rules annotate_notes annotate count_severity
two_errors = refl

check_schema_annotates_each_example :
    ((check_schema one_note options creates).annotations
      ≡ schema_annotations one_note options creates)
    × Counted (check_schema one_note options creates)
check_schema_annotates_each_example = check_schema_annotates_each one_note options creates
