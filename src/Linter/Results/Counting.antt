-- ===== src/Linter/Results/Counting.antt =====
-- What CheckSchema annotates, and that a result's counts are those of its annotations.
use mathlib.Core.List.{append_assoc, append-nil}
use skeema.Prelude.{
  ℕ, ◌+◌, Bool, true, false, List, [], ◌∷◌, ◌++◌, Option, none, some, Text, if◌then◌else◌, ◌≡◌,
  refl, ap, sym, ◌∙◌, arith, Bool-cases, inl, inr,
}
use skeema.Objects.{ObjectKey}
use skeema.Statement.{Statement, statement_key}
use skeema.Fs.{Create}
use skeema.Linter.Results.{
  Severity, severity_error, severity_warning, severity_ignore, Note, Annotation, new_annotation,
  LintResult, empty_result, count_severity, annotate, merge, RuleSeverity, LintOptions, shown_note,
  annotate_notes, is_ignore, StatementError, error_note, error_rule, debug,
  annotate_statement_error, annotate_statement_errors, Checking, check_rules, check_found,
  check_creates, check_schema,
}

abbrev as_error : Severity → ℕ
as_error severity_error = 1
as_error severity_warning = 0
as_error severity_ignore = 0

abbrev as_warning : Severity → ℕ
as_warning severity_error = 0
as_warning severity_warning = 1
as_warning severity_ignore = 0

unfoldable pub errors_in : List Annotation → ℕ
errors_in [] = 0
errors_in (a ∷ ls) = as_error a.severity + errors_in ls

unfoldable pub warnings_in : List Annotation → ℕ
warnings_in [] = 0
warnings_in (a ∷ ls) = as_warning a.severity + warnings_in ls

-- The counts are those of the annotations.
pub record Counted (r : LintResult) : Type 0 where
  pub errors : r.error_count ≡ errors_in r.annotations
  pub warnings : r.warning_count ≡ warnings_in r.annotations

-- A run that adds annotations, and counts them.
record Adds (ls : List Annotation) (r r' : LintResult) : Type 0 where
  annotations : r'.annotations ≡ r.annotations ++ ls
  errors : r'.error_count ≡ r.error_count + errors_in ls
  warnings : r'.warning_count ≡ r.warning_count + warnings_in ls

-- The annotations of the notes of a rule.
unfoldable pub note_annotations : Bool → Statement → Severity → Text → List Note → List Annotation
note_annotations strip stmt severity rule [] = []
note_annotations strip stmt severity rule (note ∷ notes) =
    new_annotation stmt severity rule (shown_note strip note)
    ∷ note_annotations strip stmt severity rule notes

module _ {O : Type 0} (env : Checking O) where
  -- Those of the rules, without the rules whose severity is to ignore them.
  unfoldable pub rule_annotations : Bool → Statement → O → List RuleSeverity → List Annotation
  unfolding note_annotations
  rule_annotations strip stmt object [] = []
  rule_annotations strip stmt object (rule ∷ rules) =
      (if is_ignore rule.severity
        then []
        else note_annotations strip stmt rule.severity rule.rule_name
            (env.check rule.rule_name object stmt.text))
      ++ rule_annotations strip stmt object rules

  abbrev pub object_annotations : LintOptions → Create → Option O → List Annotation
  object_annotations opts c none = []
  object_annotations opts c (some object) =
      if opts.should_ignore c.key
      then []
      else rule_annotations opts.strip_annotation_newlines c.stmt object opts.rule_severity

  -- Those of the objects that are there and not ignored.
  unfoldable pub schema_annotations : LintOptions → List Create → List Annotation
  unfolding rule_annotations
  schema_annotations opts [] = []
  schema_annotations opts (c ∷ cs) =
      object_annotations opts c (env.objects c.key) ++ schema_annotations opts cs

errors_in-append : (ls bs : List Annotation) → errors_in (ls ++ bs) ≡ errors_in ls + errors_in bs
unfolding errors_in
errors_in-append [] bs = omega arith
errors_in-append (a ∷ ls) bs = grind (arith, errors_in-append ls bs)

warnings_in-append :
    (ls bs : List Annotation) → warnings_in (ls ++ bs) ≡ warnings_in ls + warnings_in bs
unfolding warnings_in
warnings_in-append [] bs = omega arith
warnings_in-append (a ∷ ls) bs = grind (arith, warnings_in-append ls bs)

Adds-nothing : (r : LintResult) → Adds [] r r
unfolding errors_in warnings_in
Adds-nothing r = record {
  annotations = sym (append-nil r.annotations);
  errors = omega arith;
  warnings = omega arith;
}

Adds-both :
    {ls bs : List Annotation} {r s t : LintResult} → Adds ls r s → Adds bs s t → Adds (ls ++ bs) r t
Adds-both {ls} {bs} {r} {s} {t} f g = record {
  annotations =
      g.annotations ∙ (ap (λ l. l ++ bs) f.annotations ∙ append_assoc r.annotations ls bs);
  errors = let e = errors_in-append ls bs in let p = f.errors in let q = g.errors in omega arith;
  warnings =
      let e = warnings_in-append ls bs in let p = f.warnings in let q = g.warnings in omega arith;
}

annotate-Adds :
    (r : LintResult) (stmt : Statement) (severity : Severity) (rule : Text) (note : Note)
    → Adds (new_annotation stmt severity rule note ∷ []) r (annotate r stmt severity rule note)
unfolding annotate count_severity errors_in warnings_in
annotate-Adds r stmt severity_error rule note = record {
  annotations = refl;
  errors = omega arith;
  warnings = omega arith;
}
annotate-Adds r stmt severity_warning rule note = record {
  annotations = refl;
  errors = omega arith;
  warnings = omega arith;
}
annotate-Adds r stmt severity_ignore rule note = record {
  annotations = refl;
  errors = omega arith;
  warnings = omega arith;
}

annotate_notes-Adds :
    (strip : Bool) (stmt : Statement) (severity : Severity) (rule : Text) (notes : List Note)
    (r : LintResult)
    → Adds
        (note_annotations strip stmt severity rule notes)
        r
        (annotate_notes strip stmt severity rule notes r)
unfolding annotate_notes note_annotations
annotate_notes-Adds strip stmt severity rule [] r = Adds-nothing r
annotate_notes-Adds strip stmt severity rule (note ∷ notes) r =
    Adds-both (annotate-Adds r stmt severity rule (shown_note strip note)) (
      annotate_notes-Adds strip stmt severity rule notes
        (annotate r stmt severity rule (shown_note strip note)))

Adds-unless :
    (b : Bool) {ls : List Annotation} {r s : LintResult}
    → Adds ls r s
    → Adds (if b then [] else ls) r (if b then r else s)
Adds-unless true {ls} {r} {s} f = Adds-nothing r
Adds-unless false f = f

module _ {O : Type 0} (env : Checking O) where
  check_rules-Adds :
      (strip : Bool) (stmt : Statement) (object : O) (rules : List RuleSeverity) (r : LintResult)
      → Adds
          (rule_annotations env strip stmt object rules)
          r
          (check_rules env strip stmt object rules r)
  unfolding check_rules rule_annotations
  check_rules-Adds strip stmt object [] r = Adds-nothing r
  check_rules-Adds strip stmt object (rule ∷ rules) r =
      let found = env.check rule.rule_name object stmt.text in
      Adds-both
        (Adds-unless (is_ignore rule.severity)
          (annotate_notes-Adds strip stmt rule.severity rule.rule_name found r))
        (check_rules-Adds strip stmt object rules (
          if is_ignore rule.severity
          then r
          else annotate_notes strip stmt rule.severity rule.rule_name found r))

  check_found-Adds :
      (opts : LintOptions) (c : Create) (found : Option O) (r : LintResult)
      → Adds (object_annotations env opts c found) r (check_found env opts c.key c.stmt found r)
  check_found-Adds opts c none r = Adds-nothing r
  check_found-Adds opts c (some object) r =
      Adds-unless (opts.should_ignore c.key)
        (check_rules-Adds opts.strip_annotation_newlines c.stmt object opts.rule_severity r)

  check_creates-Adds :
      (opts : LintOptions) (cs : List Create) (r : LintResult)
      → Adds (schema_annotations env opts cs) r (check_creates env opts cs r)
  unfolding check_creates schema_annotations
  check_creates-Adds opts [] r = Adds-nothing r
  check_creates-Adds opts (c ∷ cs) r =
      Adds-both (check_found-Adds opts c (env.objects c.key) r)
        (check_creates-Adds opts cs (check_found env opts c.key c.stmt (env.objects c.key) r))

Adds-Counted : {ls : List Annotation} {r : LintResult} → Adds ls empty_result r → Counted r
Adds-Counted {ls} {r} f = record {
  errors = let p = f.errors in let e = ap errors_in f.annotations in omega arith;
  warnings = let p = f.warnings in let e = ap warnings_in f.annotations in omega arith;
}

-- CheckSchema annotates each note that a rule with a severity other than ignore finds in an object
-- that is in the workspace and not to be ignored, on its CREATE, with the rule's name and severity, in
-- the order of the ranges, and nothing else; the counts of errors and of warnings in its result are
-- the numbers of annotations with these severities.
pub check_schema_annotates_each :
    {O : Type 0} (env : Checking O) (opts : LintOptions) (creates : List Create)
    → ((check_schema env opts creates).annotations ≡ schema_annotations env opts creates)
      × Counted (check_schema env opts creates)
unfolding check_schema
check_schema_annotates_each env opts creates =
    let f = check_creates-Adds env opts creates empty_result in (f.annotations, Adds-Counted f)

-- Merge of two results whose counts are those of their annotations gives such a result again.
pub merge-Counted : (r other : LintResult) → Counted r → Counted other → Counted (merge r other)
unfolding merge
merge-Counted r other cr co = record {
  errors =
      let e = errors_in-append r.annotations other.annotations in
      let p = cr.errors in let q = co.errors in omega arith;
  warnings =
      let e = warnings_in-append r.annotations other.annotations in
      let p = cr.warnings in let q = co.warnings in omega arith;
}

Adds-keeps_Counted : {ls : List Annotation} {r s : LintResult} → Adds ls r s → Counted r → Counted s
Adds-keeps_Counted {ls} {r} {s} f c = record {
  errors =
      let e = ap errors_in f.annotations in
      let a = errors_in-append r.annotations ls in
      let p = f.errors in let q = c.errors in omega arith;
  warnings =
      let e = ap warnings_in f.annotations in
      let a = warnings_in-append r.annotations ls in
      let p = f.warnings in let q = c.warnings in omega arith;
}

annotate_statement_error-Counted :
    (syntax_line : Text → ℕ) (should_ignore : ObjectKey → Bool) (e : StatementError)
    (r : LintResult)
    → Counted r
    → Counted (annotate_statement_error syntax_line should_ignore e r)
unfolding annotate_statement_error debug
annotate_statement_error-Counted syntax_line should_ignore e r c =
    elim (Bool-cases (should_ignore (statement_key e.statement))) [
      | inl ignored ↦ rw ignored record { errors = c.errors; warnings = c.warnings }
      | inr kept ↦
          let note = error_note syntax_line e.error in
          rw kept (
            Adds-keeps_Counted
              (annotate-Adds r e.statement severity_error (error_rule note.message e.error_number)
                note)
              c)
    ]

-- AnnotateStatementErrors keeps the counts of errors and of warnings those of the annotations.
pub annotate_statement_errors-Counted :
    (syntax_line : Text → ℕ) (should_ignore : ObjectKey → Bool) (es : List StatementError)
    (r : LintResult)
    → Counted r
    → Counted (annotate_statement_errors syntax_line should_ignore es r)
unfolding annotate_statement_errors
annotate_statement_errors-Counted syntax_line should_ignore [] r c = c
annotate_statement_errors-Counted syntax_line should_ignore (e ∷ es) r c =
    annotate_statement_errors-Counted syntax_line should_ignore es
      (annotate_statement_error syntax_line should_ignore e r)
      (annotate_statement_error-Counted syntax_line should_ignore e r c)
