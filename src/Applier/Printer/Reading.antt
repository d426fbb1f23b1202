-- ===== src/Applier/Printer/Reading.antt =====
-- A client of the server that reads the text of the standard printer.
pub mod Steps
use skeema.Prelude.{
  ℕ, zero, suc, ◌+◌, ◌≤◌, Bool, true, false, not, ◌&&◌, ◌||◌, List, [], ◌∷◌, ◌++◌, Option, none,
  some, Text, txt, text_eq, ◌==◌, if◌then◌else◌, is_empty, has_prefix, nat_beq, length, ◌≡◌, refl,
  ap, sym, ◌∙◌, arith, Bool-cases, inl, inr, replace_byte, ==_refl, both_true,
}
use skeema.Escape.{escape_identifier}
use skeema.Applier.Printer.{Planned, StandardPrinter}

-- A statement or a command that the client runs, the instance it is on, and the schema in use.
pub record Run : Type 0 where
  pub instance_name : Text
  pub schema_name : Text
  pub statement : Text

abbrev pub run_in : StandardPrinter → Text → Run
run_in p statement = record {
  instance_name = p.last_instance;
  schema_name = p.last_schema;
  statement = statement;
}

-- What is read of a text, and the text that follows.
pub record Taken : Type 0 where
  pub text : Text
  pub rest : Text

abbrev prepend : ℕ → Taken → Taken
prepend c t = record t { text = c ∷ t.text }

abbrev prepend_some : ℕ → Option Taken → Option Taken
prepend_some c none = none
prepend_some c (some t) = some (prepend c t)

unfoldable pub take_line : Text → Taken
take_line [] = record { text = []; rest = [] }
take_line (c ∷ s) =
    if nat_beq c b'\n' then record { text = []; rest = s } else prepend c (take_line s)

-- The text without a prefix that it has.
unfoldable pub after : Text → Text → Text
after [] s = s
after (c ∷ prefix) [] = []
after (c ∷ prefix) (d ∷ s) = after prefix s

-- The text up to the first delimiter in it.
unfoldable pub take_statement : Text → Text → Option Taken
unfolding has_prefix after
take_statement d [] = none
take_statement d (c ∷ s) =
    if has_prefix (c ∷ s) d
    then some (record { text = []; rest = after d (c ∷ s) })
    else prepend_some c (take_statement d s)

-- A name behind a backtick, up to one that stands alone.
unfoldable pub take_name : Text → Option Taken
take_name [] = none
take_name (c ∷ []) = if nat_beq c b'`' then some (record { text = []; rest = [] }) else none
take_name (c ∷ d ∷ s) =
    let doubled = prepend_some b'`' (take_name s) in
    let more = prepend_some c (take_name (d ∷ s)) in
    if nat_beq c b'`'
    then if nat_beq d b'`' then doubled else some (record { text = []; rest = d ∷ s })
    else more

-- One step of the client: its state, what it ran, and the text left.
pub record Step : Type 0 where
  pub state : StandardPrinter
  pub ran : List Run
  pub rest : Text

-- A command ends with its line.
abbrev command : StandardPrinter → Taken → Step
command p line = record { state = p; ran = run_in p line.text ∷ []; rest = line.rest }

abbrev set_delimiter : StandardPrinter → Taken → Step
set_delimiter p line = record {
  state = record p { last_delimiter = line.text };
  ran = [];
  rest = line.rest;
}

abbrev set_instance : StandardPrinter → Taken → Step
set_instance p line = record {
  state = record p { last_instance = line.text; last_schema = [] };
  ran = [];
  rest = line.rest;
}

-- A name that a semicolon and the end of the line follow.
abbrev set_schema : StandardPrinter → Option Taken → Option Step
set_schema p none = none
set_schema p (some name) =
    if has_prefix name.rest (txt ";\n")
    then some (record {
      state = record p { last_schema = name.text };
      ran = [];
      rest = after (txt ";\n") name.rest;
    })
    else none

-- A statement whose delimiter the end of the line follows.
abbrev statement : StandardPrinter → Option Taken → Option Step
statement p none = none
statement p (some s) =
    if has_prefix s.rest (txt "\n")
    then some (record { state = p; ran = run_in p s.text ∷ []; rest = after (txt "\n") s.rest })
    else none

-- USE ends in a semicolon: it is understood only while that is the delimiter.
unfoldable pub step : StandardPrinter → Text → Option Step
unfolding has_prefix after take_line take_name take_statement text_eq
step p text =
    if has_prefix text (txt "\\! ")
    then some (command p (take_line text))
    else if has_prefix text (txt "DELIMITER ")
    then some (set_delimiter p (take_line (after (txt "DELIMITER ") text)))
    else if has_prefix text (txt "-- instance: ")
    then some (set_instance p (take_line (after (txt "-- instance: ") text)))
    else if has_prefix text (txt "USE ")
    then if p.last_delimiter == txt ";" && has_prefix text (txt "USE `")
      then set_schema p (take_name (after (txt "USE `") text))
      else none
    else statement p (take_statement p.last_delimiter text)

abbrev pub with_runs : List Run → Option (List Run) → Option (List Run)
with_runs ran none = none
with_runs ran (some runs) = some (ran ++ runs)

-- The client on fuel, a round for each step.
unfoldable pub client : ℕ → StandardPrinter → Text → Option (List Run)
unfolding step
client n p [] = some []
client zero p (c ∷ text) = none
client (suc n) p (c ∷ text) = elim (step p (c ∷ text)) [
  | none ↦ none
  | some s ↦ with_runs s.ran (client n s.state s.rest)
]

unfoldable pub has_byte : ℕ → Text → Bool
has_byte b [] = false
has_byte b (c ∷ s) = nat_beq c b || has_byte b s

-- A word that the text begins with, or may begin with if more follows.
unfoldable pub may_begin : Text → Text → Bool
may_begin [] s = true
may_begin (c ∷ word) [] = true
may_begin (c ∷ word) (d ∷ s) = nat_beq d c && may_begin word s

-- The statement, with the delimiter behind it, has the delimiter at its end only.
unfoldable pub ends_once : Text → Text → Bool
unfolding has_prefix
ends_once d [] = true
ends_once d (c ∷ s) = not (has_prefix ((c ∷ s) ++ d) d) && ends_once d s

unfoldable pub is_sql : Text → Bool
unfolding may_begin
is_sql s =
    not (is_empty s)
    && (not (may_begin (txt "\\! ") s)
        && (not (may_begin (txt "DELIMITER ") s)
            && (not (may_begin (txt "-- instance: ") s) && not (may_begin (txt "USE ") s))))

-- Without a delimiter, one line that is a command of the client; else a statement that is no such
-- command and does not have its delimiter in it.
unfoldable pub readable : Planned → Bool
unfolding has_byte has_prefix ends_once is_sql
readable stmt =
    let d = stmt.client_state.delimiter in
    not (has_byte b'\n' stmt.client_state.instance_name)
    && (not (has_byte b'\n' d)
        && (if is_empty d
            then has_prefix stmt.statement (txt "\\! ") && not (has_byte b'\n' stmt.statement)
            else is_sql stmt.statement && ends_once d stmt.statement))

unfoldable pub all_readable : List Planned → Bool
unfolding readable
all_readable [] = true
all_readable (stmt ∷ stmts) = readable stmt && all_readable stmts
