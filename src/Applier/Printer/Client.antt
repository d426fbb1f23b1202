-- ===== src/Applier/Printer/Client.antt =====
-- What a client runs that reads the text of the standard printer.
use mathlib.Core.List.{append_assoc, append-nil}
use skeema.Prelude.{
  ℕ, zero, suc, ◌≤◌, Bool, true, false, not, ◌&&◌, ◌||◌, List, [], ◌∷◌, ◌++◌, some, Text, txt,
  text_eq, ◌==◌, ◌!=◌, if◌then◌else◌, is_empty, ◌≡◌, refl, ap, sym, ◌∙◌, arith, Bool-cases, inl,
  inr, ◌⊎◌, eq_of_==, ==_refl, both_true, length, length-append, has_prefix,
}
use skeema.Applier.Printer.{
  ClientState, Planned, StandardPrinter, Line, delimiter_line, instance_line, use_line,
  statement_line, line_text, output, print, print_all, restore_delimiter, switch_instance,
  switch_schema, switch_delimiter,
}
use skeema.Applier.Printer.Reading.{
  Run, run_in, Step, step, with_runs, client, has_byte, ends_once, is_sql, readable, all_readable,
}
use skeema.Applier.Printer.Reading.Steps.{
  eq_false, step-delimiter_line, step-instance_line, step-use_line, step-command,
  step-statement_line,
}

-- A run is what a planned statement asks for.
pub record Fits (stmt : Planned) (run : Run) : Type 0 where
  pub same_statement : run.statement ≡ stmt.statement
  pub same_instance : run.instance_name ≡ stmt.client_state.instance_name
  pub same_schema :
      (is_empty stmt.client_state.schema_name ≡ true)
      ⊎ (run.schema_name ≡ stmt.client_state.schema_name)

abbrev pub AllFit : List Planned → List Run → Type 0
AllFit [] [] = Unit
AllFit [] (r ∷ rs) = ⊥
AllFit (s ∷ ss) [] = ⊥
AllFit (s ∷ ss) (r ∷ rs) = Fits s r × AllFit ss rs

-- The client in this state, on as many rounds as the text has bytes or more, runs these.
abbrev Reads : StandardPrinter → Text → List Run → Type 0
Reads p text runs = (n : ℕ) → length text ≤ n → client n p text ≡ some runs

semicolon : has_byte b'\n' (txt ";") ≡ false
unfolding has_byte
semicolon = refl

Reads-step :
    (p : StandardPrinter) (text : Text) {st : Step} {runs : List Run}
    → step p text ≡ some st
    → suc (length st.rest) ≤ length text
    → Reads st.state st.rest runs
    → Reads p text (st.ran ++ runs)
unfolding client
Reads-step p [] e short more n h = absurd (omega arith)
Reads-step p (c ∷ s) e short more zero h = absurd (omega arith)
Reads-step p (c ∷ s) {st} e short more (suc n) h =
    rw (client, e) (ap (with_runs st.ran) (more n (omega arith)))

-- A line is not empty, it ends in a newline.
length-line_text : (line : Line) → 1 ≤ length (line_text line)
unfolding line_text
length-line_text (delimiter_line d) = omega arith
length-line_text (instance_line name) = omega arith
length-line_text (use_line schema) = omega arith
length-line_text (statement_line s d) =
    let whole = length-append s (d ++ txt "\n") in
    let tail = length-append d (txt "\n") in omega arith

-- A line of the printer is one step.
Reads-output :
    (p : StandardPrinter) (line : Line) {st : Step} {runs : List Run}
    → step p (line_text line ++ st.rest) ≡ some st
    → Reads st.state st.rest runs
    → Reads p (output (line ∷ []) ++ st.rest) (st.ran ++ runs)
unfolding output
Reads-output p line {st} {runs} e more =
    let whole = length-append (line_text line) st.rest in
    let long = length-line_text line in
    rw (append-nil (line_text line)) (Reads-step p (line_text line ++ st.rest) e (omega arith) more)

restore_delimiter-Reads :
    (cs : ClientState) (p : StandardPrinter) (rest : Text) (runs : List Run)
    → Reads (restore_delimiter cs p).0 rest runs
    → Reads p (output (restore_delimiter cs p).1 ++ rest) runs
restore_delimiter-Reads cs p rest runs =
    elim (Bool-cases (
      p.last_delimiter != txt ";"
      && (cs.instance_name != p.last_instance || cs.schema_name != p.last_schema))) [
        | inl odd ↦ simp (odd) (λ more.
            Reads-output p (delimiter_line (txt ";"))
              (step-delimiter_line p (txt ";") rest semicolon) more)
        | inr fine ↦ simp (fine) (unfold output in λ more. more)
      ]

switch_instance-Reads :
    (cs : ClientState) (p : StandardPrinter) (rest : Text) (runs : List Run)
    → has_byte b'\n' cs.instance_name ≡ false
    → Reads (switch_instance cs p).0 rest runs
    → Reads p (output (switch_instance cs p).1 ++ rest) runs
switch_instance-Reads cs p rest runs one_line =
    elim (Bool-cases (cs.instance_name != p.last_instance)) [
      | inl other ↦ simp (other) (λ more.
          Reads-output p (instance_line cs.instance_name)
            (step-instance_line p cs.instance_name rest one_line) more)
      | inr same ↦ simp (same) (unfold output in λ more. more)
    ]

switch_schema-Reads :
    (cs : ClientState) (p : StandardPrinter) (rest : Text) (runs : List Run)
    → ((cs.schema_name != p.last_schema) ≡ true → (p.last_delimiter == txt ";") ≡ true)
    → Reads (switch_schema cs p).0 rest runs
    → Reads p (output (switch_schema cs p).1 ++ rest) runs
switch_schema-Reads cs p rest runs plain =
    elim (Bool-cases (cs.schema_name != p.last_schema && not (is_empty cs.schema_name))) [
      | inl moved ↦
          let delimiter =
            plain
              (both_true (cs.schema_name != p.last_schema) (not (is_empty cs.schema_name))
                moved).0 in
          simp (moved) (λ more.
            Reads-output p (use_line cs.schema_name) (step-use_line p cs.schema_name rest delimiter)
              more)
      | inr stays ↦ simp (stays) (unfold output in λ more. more)
    ]

switch_delimiter-Reads :
    (cs : ClientState) (p : StandardPrinter) (rest : Text) (runs : List Run)
    → has_byte b'\n' cs.delimiter ≡ false
    → Reads (switch_delimiter cs p).0 rest runs
    → Reads p (output (switch_delimiter cs p).1 ++ rest) runs
switch_delimiter-Reads cs p rest runs one_line =
    elim (Bool-cases (cs.delimiter != p.last_delimiter && not (is_empty cs.delimiter))) [
      | inl odd ↦ simp (odd) (λ more.
          Reads-output p (delimiter_line cs.delimiter)
            (step-delimiter_line p cs.delimiter rest one_line) more)
      | inr fine ↦ simp (fine) (unfold output in λ more. more)
    ]

eq_of_not_ne : (b : Bool) → not b ≡ false → b ≡ true
eq_of_not_ne true h = refl
eq_of_not_ne false h = cc

-- After the first two steps a schema that has to be switched finds the standard delimiter.
ready_to_switch :
    (cs : ClientState) (p : StandardPrinter)
    → (cs.schema_name != (switch_instance cs (restore_delimiter cs p).0).0.last_schema) ≡ true
    → ((switch_instance cs (restore_delimiter cs p).0).0.last_delimiter == txt ";") ≡ true
ready_to_switch cs p = elim (Bool-cases (p.last_delimiter != txt ";")) [
  | inr plain ↦ elim (Bool-cases (cs.instance_name != p.last_instance)) [
    | inl other ↦ simp (plain, other) (λ h. eq_of_not_ne (p.last_delimiter == txt ";") plain)
    | inr same ↦ simp (plain, same) (λ h. eq_of_not_ne (p.last_delimiter == txt ";") plain)
  ]
  | inl odd ↦ elim (Bool-cases (cs.instance_name != p.last_instance)) [
    | inl other ↦ simp (odd, other) (λ h. ==_refl (txt ";"))
    | inr same ↦ elim (Bool-cases (cs.schema_name != p.last_schema)) [
      | inl moved ↦ simp (odd, same, moved) (λ h. ==_refl (txt ";"))
      | inr stays ↦ simp (odd, same, stays) (λ h. cc)
    ]
  ]
]

eq_of_ne_false : (a b : Text) → (a != b) ≡ false → b ≡ a
eq_of_ne_false a b h = sym (eq_of_== a b (eq_of_not_ne (a == b) h))

switch_instance-last :
    (cs : ClientState) (p : StandardPrinter)
    → (switch_instance cs p).0.last_instance ≡ cs.instance_name
switch_instance-last cs p = elim (Bool-cases (cs.instance_name != p.last_instance)) [
  | inl other ↦ simp other
  | inr same ↦ simp (same) (eq_of_ne_false cs.instance_name p.last_instance same)
]

switch_schema-last :
    (cs : ClientState) (p : StandardPrinter)
    → ((switch_schema cs p).0.last_instance ≡ p.last_instance)
      × (is_empty cs.schema_name ≡ false → (switch_schema cs p).0.last_schema ≡ cs.schema_name)
switch_schema-last cs p = elim (Bool-cases (cs.schema_name != p.last_schema)) [
  | inr same ↦ (simp same, λ named. simp (same) (eq_of_ne_false cs.schema_name p.last_schema same))
  | inl other ↦ elim (Bool-cases (is_empty cs.schema_name)) [
    | inl empty ↦ (simp (other, empty), λ named. cc)
    | inr long ↦ (simp (other, long), λ named. simp (other, long))
  ]
]

switch_delimiter-last :
    (cs : ClientState) (p : StandardPrinter)
    → ((switch_delimiter cs p).0.last_instance ≡ p.last_instance)
      × (((switch_delimiter cs p).0.last_schema ≡ p.last_schema)
          × (is_empty cs.delimiter ≡ false
              → (switch_delimiter cs p).0.last_delimiter ≡ cs.delimiter))
switch_delimiter-last cs p = elim (Bool-cases (cs.delimiter != p.last_delimiter)) [
  | inr same ↦ (
    simp same,
    (simp same, λ named. simp (same) (eq_of_ne_false cs.delimiter p.last_delimiter same)),
  )
  | inl other ↦ elim (Bool-cases (is_empty cs.delimiter)) [
    | inl empty ↦ (simp (other, empty), (simp (other, empty), λ named. cc))
    | inr long ↦ (simp (other, long), (simp (other, long), λ named. simp (other, long)))
  ]
]

unless_empty : (s t : Text) → (is_empty s ≡ false → t ≡ s) → (is_empty s ≡ true) ⊎ (t ≡ s)
unless_empty [] t h = inl refl
unless_empty (c ∷ s) t h = inr (h refl)

output-append : (a b : List Line) → output (a ++ b) ≡ output a ++ output b
unfolding output
output-append [] b = refl
output-append (line ∷ a) b =
    ap (◌++◌ (line_text line)) (output-append a b)
    ∙ sym (append_assoc (line_text line) (output a) (output b))

parts_append :
    (a b : List Line) (rest : Text) → output (a ++ b) ++ rest ≡ output a ++ (output b ++ rest)
parts_append a b rest =
    ap (λ t. t ++ rest) (output-append a b) ∙ append_assoc (output a) (output b) rest

five_parts :
    (a b c d e : List Line) (rest : Text)
    → output (a ++ (b ++ (c ++ (d ++ e)))) ++ rest
      ≡ output a ++ (output b ++ (output c ++ (output d ++ (output e ++ rest))))
five_parts a b c d e rest =
    parts_append a (b ++ (c ++ (d ++ e))) rest
    ∙ ap (◌++◌ (output a)) (
        parts_append b (c ++ (d ++ e)) rest
        ∙ ap (◌++◌ (output b))
            (parts_append c (d ++ e) rest ∙ ap (◌++◌ (output c)) (parts_append d e rest)))

-- What readable says of a statement.
record Readable (stmt : Planned) : Type 0 where
  instance_on_line : has_byte b'\n' stmt.client_state.instance_name ≡ false
  delimiter_on_line : has_byte b'\n' stmt.client_state.delimiter ≡ false
  ends :
      (if is_empty stmt.client_state.delimiter
        then has_prefix stmt.statement (txt "\\! ") && not (has_byte b'\n' stmt.statement)
        else is_sql stmt.statement && ends_once stmt.client_state.delimiter stmt.statement)
      ≡ true

readable-Readable : (stmt : Planned) → readable stmt ≡ true → Readable stmt
unfolding readable
readable-Readable stmt h =
    let a = both_true (not (has_byte b'\n' stmt.client_state.instance_name)) _ h in
    let b = both_true (not (has_byte b'\n' stmt.client_state.delimiter)) _ a.1 in
    record {
      instance_on_line = eq_false (has_byte b'\n' stmt.client_state.instance_name) a.0;
      delimiter_on_line = eq_false (has_byte b'\n' stmt.client_state.delimiter) b.0;
      ends = b.1;
    }

statement_line-Reads :
    (s d : Text) (p : StandardPrinter) (rest : Text) (runs : List Run)
    → (if is_empty d
        then has_prefix s (txt "\\! ") && not (has_byte b'\n' s)
        else is_sql s && ends_once d s)
      ≡ true
    → (is_empty d ≡ false → p.last_delimiter ≡ d)
    → Reads p rest runs
    → Reads p (output (statement_line s d ∷ []) ++ rest) (run_in p s ∷ runs)
statement_line-Reads s [] p rest runs ends same more =
    let parts = both_true (has_prefix s (txt "\\! ")) (not (has_byte b'\n' s)) ends in
    Reads-output p (statement_line s [])
      (step-command p s rest parts.0 (eq_false (has_byte b'\n' s) parts.1)) more
statement_line-Reads s (c ∷ d) p rest runs ends same more =
    let parts = both_true (is_sql s) (ends_once (c ∷ d) s) ends in
    Reads-output p (statement_line s (c ∷ d))
      (step-statement_line p s (c ∷ d) rest parts.0 refl parts.1 (same refl)) more

print-Reads :
    (stmt : Planned) (p : StandardPrinter) (rest : Text) (runs : List Run)
    → Readable stmt
    → Reads (print stmt p).0 rest runs
    → Reads p (output (print stmt p).1 ++ rest) (run_in (print stmt p).0 stmt.statement ∷ runs)
unfolding print
print-Reads stmt p rest runs fine more =
    let cs = stmt.client_state in
    let restored = restore_delimiter cs p in
    let moved = switch_instance cs restored.0 in
    let used = switch_schema cs moved.0 in
    let ready = switch_delimiter cs used.0 in
    let last = statement_line stmt.statement cs.delimiter ∷ [] in
    let all = run_in ready.0 stmt.statement ∷ runs in
    let after_ready = output last ++ rest in
    let after_used = output ready.1 ++ after_ready in
    let after_moved = output used.1 ++ after_used in
    let after_restored = output moved.1 ++ after_moved in
    rw (five_parts restored.1 moved.1 used.1 ready.1 last rest) (
      restore_delimiter-Reads cs p after_restored all (
        switch_instance-Reads cs restored.0 after_moved all fine.instance_on_line (
          switch_schema-Reads cs moved.0 after_used all (ready_to_switch cs p) (
            switch_delimiter-Reads cs used.0 after_ready all fine.delimiter_on_line (
              statement_line-Reads stmt.statement cs.delimiter ready.0 rest runs fine.ends
                (switch_delimiter-last cs used.0).1.1 more)))))

print-Fits :
    (stmt : Planned) (p : StandardPrinter) → Fits stmt (run_in (print stmt p).0 stmt.statement)
unfolding print
print-Fits stmt p =
    let cs = stmt.client_state in
    let moved = switch_instance cs (restore_delimiter cs p).0 in
    let used = switch_schema cs moved.0 in
    let last = switch_delimiter-last cs used.0 in
    let schema = switch_schema-last cs moved.0 in
    record {
      same_statement = refl;
      same_instance = last.0 ∙ (schema.0 ∙ switch_instance-last cs (restore_delimiter cs p).0);
      same_schema =
          unless_empty cs.schema_name (print stmt p).0.last_schema
            (λ named. last.1.0 ∙ schema.1 named);
    }

Reads-nil : (p : StandardPrinter) → Reads p [] []
unfolding client
Reads-nil p zero h = refl
Reads-nil p (suc n) h = refl

print_all-Reads :
    (stmts : List Planned) (p : StandardPrinter)
    → all_readable stmts ≡ true
    → (runs : List Run) × (Reads p (output (print_all stmts p)) runs × AllFit stmts runs)
unfolding print_all all_readable output
print_all-Reads [] p fine = ([], (Reads-nil p, _))
print_all-Reads (stmt ∷ stmts) p fine =
    let parts = both_true (readable stmt) (all_readable stmts) fine in
    let next = (print stmt p).0 in
    let rest = print_all-Reads stmts next parts.1 in
    (
      run_in next stmt.statement ∷ rest.0,
      (
        rw (output-append (print stmt p).1 (print_all stmts next)) (
            print-Reads stmt p (output (print_all stmts next)) rest.0
              (readable-Readable stmt parts.0) rest.1.0),
        (print-Fits stmt p, rest.1.1),
      ),
    )

-- The standard printer, from any state, for statements whose instances and delimiters stand on one
-- line each, and of which each is either a command of the client, on one line and with no delimiter,
-- or a text that does not begin as a command of the client does and has its delimiter first where the
-- printer puts it: a client in that state that reads the printed text, up to each delimiter in force,
-- understands all of it, and runs exactly these statements, in their order, each on its instance, and
-- in its schema if it names one. It is given a round for each byte.
pub print_all_runs_each :
    (stmts : List Planned) (p : StandardPrinter)
    → all_readable stmts ≡ true
    → (runs : List Run) × ((client
            (length (output (print_all stmts p)))
            p
            (output (print_all stmts p))
          ≡ some runs)
        × AllFit stmts runs)
print_all_runs_each stmts p fine =
    let (runs, (reads, fits)) = print_all-Reads stmts p fine in
    (runs, (reads (length (output (print_all stmts p))) (omega arith), fits))
