-- ===== src/Applier/Printer.antt =====
-- standardPrinter and instanceDiffPrinter of internal/applier/printer.go. Each line that a printer
-- writes is a value; output is the text of several.
pub mod Client
pub mod Reading
use skeema.Prelude.{
  Bool, true, false, not, ◌&&◌, ◌||◌, List, [], ◌∷◌, ◌++◌, Text, txt, text_eq, ◌==◌, ◌!=◌,
  if◌then◌else◌, is_empty,
}
use skeema.Escape.{escape_identifier}

-- ClientState of applier.go
pub record ClientState : Type 0 where
  pub instance_name : Text
  pub schema_name : Text
  pub delimiter : Text

-- A PlannedStatement as a printer sees it.
pub record Planned : Type 0 where
  pub statement : Text
  pub client_state : ClientState

pub record StandardPrinter : Type 0 where
  pub last_instance : Text
  pub last_schema : Text
  pub last_delimiter : Text

-- The standard printer of NewPrinter.
abbrev pub new_printer : StandardPrinter
new_printer = record { last_instance = []; last_schema = []; last_delimiter = txt ";" }

pub data Line : Type 0 where
  delimiter_line instance_line use_line : Text → Line
  statement_line : (statement delimiter : Text) → Line

unfoldable pub line_text : Line → Text
line_text (delimiter_line d) = txt "DELIMITER " ++ (d ++ txt "\n")
line_text (instance_line name) = txt "-- instance: " ++ (name ++ txt "\n")
line_text (use_line schema) = txt "USE " ++ (escape_identifier schema ++ txt ";\n")
line_text (statement_line statement delimiter) = statement ++ (delimiter ++ txt "\n")

-- What a printer writes, line after line.
unfoldable pub output : List Line → Text
unfolding line_text
output [] = []
output (line ∷ lines) = line_text line ++ output lines

abbrev pub restore_delimiter : ClientState → StandardPrinter → StandardPrinter × List Line
restore_delimiter cs p =
    if p.last_delimiter != txt ";"
      && (cs.instance_name != p.last_instance || cs.schema_name != p.last_schema)
    then (record p { last_delimiter = txt ";" }, delimiter_line (txt ";") ∷ [])
    else (p, [])

abbrev pub switch_instance : ClientState → StandardPrinter → StandardPrinter × List Line
switch_instance cs p =
    if cs.instance_name != p.last_instance
    then (
      record p { last_instance = cs.instance_name; last_schema = [] },
      instance_line cs.instance_name ∷ [],
    )
    else (p, [])

abbrev pub switch_schema : ClientState → StandardPrinter → StandardPrinter × List Line
switch_schema cs p =
    if cs.schema_name != p.last_schema && not (is_empty cs.schema_name)
    then (record p { last_schema = cs.schema_name }, use_line cs.schema_name ∷ [])
    else (p, [])

abbrev pub switch_delimiter : ClientState → StandardPrinter → StandardPrinter × List Line
switch_delimiter cs p =
    if cs.delimiter != p.last_delimiter && not (is_empty cs.delimiter)
    then (record p { last_delimiter = cs.delimiter }, delimiter_line cs.delimiter ∷ [])
    else (p, [])

-- standardPrinter.Print
unfoldable pub print : Planned → StandardPrinter → StandardPrinter × List Line
unfolding text_eq
print stmt p =
    let cs = stmt.client_state in
    let restored = restore_delimiter cs p in
    let moved = switch_instance cs restored.0 in
    let used = switch_schema cs moved.0 in
    let ready = switch_delimiter cs used.0 in
    (
      ready.0,
      restored.1
          ++ (moved.1 ++ (used.1 ++ (ready.1 ++ statement_line stmt.statement cs.delimiter ∷ []))),
    )

-- The statements of a run, one after the other.
unfoldable pub print_all : List Planned → StandardPrinter → List Line
unfolding print
print_all [] p = []
print_all (stmt ∷ stmts) p = let printed = print stmt p in printed.1 ++ print_all stmts printed.0

-- instanceDiffPrinter.Print, on the keys of seenInstance: the instances seen, and the line written.
unfoldable pub seen_instance : Text → List Text → Bool
unfolding text_eq
seen_instance name [] = false
seen_instance name (n ∷ ns) = name == n || seen_instance name ns

unfoldable pub print_instance : Planned → List Text → List Text × List Text
unfolding seen_instance
print_instance stmt seen =
    let name = stmt.client_state.instance_name in
    if not (seen_instance name seen) then (name ∷ seen, name ∷ []) else (seen, [])
