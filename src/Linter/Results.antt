-- ===== src/Linter/Results.antt =====
-- internal/linter/result.go without its order of annotations, the annotations' texts, and CheckSchema
-- of linter.go. Parameters: the objects of the workspace, and the notes of each rule's checker.
pub mod Counting
use skeema.Prelude.{
  ℕ, ◌+◌, Bool, true, false, not, ◌&&◌, ◌||◌, List, [], ◌∷◌, ◌++◌, Option, none, some, Text, txt,
  if◌then◌else◌, is_empty, nat_beq, itoa, replace_byte, ◌-◌, ltb, contains, replace_first,
}
use skeema.Objects.{ObjectKey}
use skeema.Objects.Keys.{key_text}
use skeema.Statement.{Statement, statement_key, location}
use skeema.Fs.{Create}

pub data Severity : Type 0 where
  severity_error severity_warning severity_ignore : Severity

pub record Note : Type 0 where
  pub line_offset : ℕ
  pub summary : Text
  pub message : Text

-- The embedded Note is a field.
pub record Annotation : Type 0 where
  pub rule_name : Text
  pub statement : Statement
  pub severity : Severity
  pub note : Note

unfoldable pub line_no : Annotation → ℕ
line_no a = a.statement.line_no + a.note.line_offset

unfoldable pub annotation_location : Annotation → Text
unfolding location line_no
annotation_location a =
    if nat_beq a.note.line_offset 0 || is_empty a.statement.file
    then location a.statement
    else a.statement.file ++ (txt ":" ++ itoa (line_no a))

unfoldable pub message_with_location : Annotation → Text
unfolding annotation_location
message_with_location a =
    if is_empty a.statement.file || nat_beq a.statement.line_no 0
    then a.note.message ++ (txt " [Full SQL: " ++ (a.statement.text ++ txt "]"))
    else annotation_location a ++ (txt ": " ++ a.note.message)

pub record LintResult : Type 0 where
  pub annotations : List Annotation
  pub debug_logs : List Text
  pub exceptions : List Text
  pub error_count : ℕ
  pub warning_count : ℕ
  pub reformat_count : ℕ

abbrev pub empty_result : LintResult
empty_result = record {
  annotations = [];
  debug_logs = [];
  exceptions = [];
  error_count = 0;
  warning_count = 0;
  reformat_count = 0;
}

unfoldable pub count_severity : Severity → LintResult → LintResult
count_severity severity_error r = record r { error_count = r.error_count + 1 }
count_severity severity_warning r = record r { warning_count = r.warning_count + 1 }
count_severity severity_ignore r = r

abbrev pub new_annotation : Statement → Severity → Text → Note → Annotation
new_annotation stmt severity rule note = record {
  rule_name = rule;
  statement = stmt;
  severity = severity;
  note = note;
}

-- Annotate
unfoldable pub annotate : LintResult → Statement → Severity → Text → Note → LintResult
unfolding count_severity
annotate r stmt severity rule note =
    let counted = count_severity severity r in
    record counted {
      annotations = counted.annotations ++ new_annotation stmt severity rule note ∷ [];
    }

-- Merge, of two results that are not nil.
unfoldable pub merge : LintResult → LintResult → LintResult
merge r other = record {
  annotations = r.annotations ++ other.annotations;
  debug_logs = r.debug_logs ++ other.debug_logs;
  exceptions = r.exceptions ++ other.exceptions;
  error_count = r.error_count + other.error_count;
  warning_count = r.warning_count + other.warning_count;
  reformat_count = r.reformat_count + other.reformat_count;
}

-- Debug
unfoldable pub debug : LintResult → Text → LintResult
debug r message = record r { debug_logs = r.debug_logs ++ message ∷ [] }

-- Fatal
unfoldable pub fatal : LintResult → Text → LintResult
fatal r err = record r { exceptions = r.exceptions ++ err ∷ [] }

-- A statement, the text of its error and the server's number of it, 0 for none.
pub record StatementError : Type 0 where
  pub statement : Statement
  pub error : Text
  pub error_number : ℕ

-- The line that reSyntaxErrorLine finds in a message is a parameter, 0 where it finds none.
unfoldable pub error_note : (Text → ℕ) → Text → Note
error_note syntax_line error =
    let message = replace_first error (txt "Error executing DDL in workspace: ") [] in
    record {
      line_offset = syntax_line message - 1;
      summary = txt "SQL statement returned an error";
      message = message;
    }

unfoldable pub error_rule : Text → ℕ → Text
error_rule message error_number =
    if contains message (txt "syntax")
    then txt "sql-syntax"
    else if ltb 0 error_number
    then txt "sql-" ++ itoa error_number
    else []

-- The body of the loop of AnnotateStatementErrors.
unfoldable pub annotate_statement_error :
    (Text → ℕ) → (ObjectKey → Bool) → StatementError → LintResult → LintResult
unfolding annotate debug error_note error_rule
annotate_statement_error syntax_line should_ignore e r =
    let note = error_note syntax_line e.error in
    let key = statement_key e.statement in
    if should_ignore key
    then debug r (txt "Skipping " ++ (key_text key ++ txt " due to ignore options"))
    else annotate r e.statement severity_error (error_rule note.message e.error_number) note

-- AnnotateStatementErrors
unfoldable pub annotate_statement_errors :
    (Text → ℕ) → (ObjectKey → Bool) → List StatementError → LintResult → LintResult
unfolding annotate_statement_error
annotate_statement_errors syntax_line should_ignore [] r = r
annotate_statement_errors syntax_line should_ignore (e ∷ es) r =
    annotate_statement_errors syntax_line should_ignore es
      (annotate_statement_error syntax_line should_ignore e r)

-- An entry of Options.RuleSeverity.
pub record RuleSeverity : Type 0 where
  pub rule_name : Text
  pub severity : Severity

pub record LintOptions : Type 0 where
  pub should_ignore : ObjectKey → Bool
  pub rule_severity : List RuleSeverity
  pub strip_annotation_newlines : Bool

abbrev pub shown_note : Bool → Note → Note
shown_note strip note =
    if strip then record note { message = replace_byte note.message b'\n' (txt " ") } else note

-- The loop over the notes of a rule.
unfoldable pub annotate_notes :
    Bool → Statement → Severity → Text → List Note → LintResult → LintResult
unfolding annotate
annotate_notes strip stmt severity rule [] r = r
annotate_notes strip stmt severity rule (note ∷ notes) r =
    annotate_notes strip stmt severity rule notes
      (annotate r stmt severity rule (shown_note strip note))

abbrev pub is_ignore : Severity → Bool
is_ignore severity_error = false
is_ignore severity_warning = false
is_ignore severity_ignore = true

-- The objects of the workspace, and what the checker of a registered rule notes of an object and the
-- text of its statement.
pub record Checking (O : Type 0) : Type 0 where
  pub objects : ObjectKey → Option O
  pub check : Text → O → Text → List Note

module _ {O : Type 0} (env : Checking O) where
  -- The range over opts.RuleSeverity, for an object.
  unfoldable pub check_rules : Bool → Statement → O → List RuleSeverity → LintResult → LintResult
  unfolding annotate_notes
  check_rules strip stmt object [] r = r
  check_rules strip stmt object (rule ∷ rules) r =
      let found = env.check rule.rule_name object stmt.text in
      let r' =
        if is_ignore rule.severity
        then r
        else annotate_notes strip stmt rule.severity rule.rule_name found r in
      check_rules strip stmt object rules r'

  abbrev pub check_found : LintOptions → ObjectKey → Statement → Option O → LintResult → LintResult
  check_found opts key stmt none r = r
  check_found opts key stmt (some object) r =
      if opts.should_ignore key
      then r
      else check_rules opts.strip_annotation_newlines stmt object opts.rule_severity r

  -- The range over Creates.
  unfoldable pub check_creates : LintOptions → List Create → LintResult → LintResult
  unfolding check_rules
  check_creates opts [] r = r
  check_creates opts (c ∷ cs) r =
      check_creates opts cs (check_found opts c.key c.stmt (env.objects c.key) r)

  -- CheckSchema
  unfoldable pub check_schema : LintOptions → List Create → LintResult
  unfolding check_creates
  check_schema opts creates = check_creates opts creates empty_result
