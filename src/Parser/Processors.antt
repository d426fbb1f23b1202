-- ===== src/Parser/Processors.antt =====
-- The statement processors of internal/tengo/parser.go.
use skeema.Prelude.{
  Bool, true, false, not, ◌||◌, List, [], ◌∷◌, ◌++◌, Option, none, some, Text, if◌then◌else◌,
  is_empty, text_eq,
}
use skeema.Objects.{ObjectType}
use skeema.Lexer.{Lexer, token_filler, token_ident, token_string, change_delimiter}
use skeema.Statement.{Statement, statement_command, statement_create}
use skeema.Parser.{
  Token, Parser, ParseError, has_type, is_delimiter, token_type_eq, over_tokens, finish_statement,
}
use skeema.Parser.Names.{strip_backticks, strip_any_quote, name_clause_at, set_stmt}
use skeema.Parser.Sequences.{ends_in_delimiter, next_tokens}

-- A statement, the error if there is one, and the parser after it.
pub record Processed : Type 0 where
  pub stmt : Statement
  pub err : Option ParseError
  pub parser : Parser

abbrev pub finish : Option ParseError → Parser → Processed
unfolding finish_statement
finish err p = let (stmt, q) = finish_statement p in record { stmt = stmt; err = err; parser = q }

-- A loop over nextToken that goes on until a delimiter or an error leaves in p.err what its last
-- call returned: that call is not made while p.err is set, and sets it only to what it returns.
abbrev pub until_delimiter_step : Unit {0} → Token → Unit {0} × Bool
unfolding token_type_eq
until_delimiter_step tt t = (tt, is_delimiter t)

-- processUntilDelimiter
unfoldable pub process_until_delimiter : List Token → Parser → Processed
unfolding ends_in_delimiter over_tokens token_type_eq finish_statement
process_until_delimiter tokens p =
    let (done, q) = over_tokens until_delimiter_step tt p in
    if ends_in_delimiter tokens then finish none p else finish q.err q

-- What the USE and DELIMITER commands have of their line: the name or delimiter, and
-- ignoreRestOfLine.
pub record Line : Type 0 where
  pub builder : Text
  pub ignore_rest_of_line : Bool

abbrev pub empty_line : Line
empty_line = record { builder = []; ignore_rest_of_line = false }

abbrev pub line_token : (Token → Option Text) → Line → Token → Line
unfolding token_type_eq
line_token unquote line t =
    if has_type token_filler t
    then record line { ignore_rest_of_line = not (is_empty line.builder) }
    else if line.ignore_rest_of_line
    then line
    else elim (unquote t) [
      | some name ↦ record { builder = line.builder ++ name; ignore_rest_of_line = true }
      | none ↦ record line { builder = line.builder ++ t.val }
    ]

-- The loop of either command.
abbrev pub command_step : (Token → Option Text) → Line → Token → Line × Bool
unfolding token_type_eq
command_step unquote line t =
    if is_delimiter t then (line, true) else (line_token unquote line t, false)

unfoldable pub use_name : Token → Option Text
unfolding strip_backticks token_type_eq
use_name t = if has_type token_ident t then some (strip_backticks t.val) else none

abbrev pub set_lexer : Parser → Lexer → Parser
set_lexer p lex = record p { lexer = lex }

-- processUseCommand
unfoldable pub process_use_command : Parser → Processed
unfolding over_tokens use_name finish_statement
process_use_command p =
    let in_command = set_lexer p (record p.lexer { command_mode = true }) in
    let (line, q) = over_tokens (command_step use_name) empty_line in_command in
    let command =
      set_stmt (record q { default_database = line.builder })
        (record q.stmt { type = statement_command }) in
    if is_empty line.builder then finish q.err q else finish q.err command

unfoldable pub quoted_delimiter : Token → Option Text
unfolding strip_any_quote token_type_eq
quoted_delimiter t =
    if has_type token_string t || has_type token_ident t then some (strip_any_quote t.val) else none

-- The delimiter that no text has, while the command is read.
abbrev pub zero_delimiter : Text
zero_delimiter = 0 ∷ []

-- processDelimiterCommand
unfoldable pub process_delimiter_command : Parser → Processed
unfolding over_tokens quoted_delimiter finish_statement
process_delimiter_command p =
    let lex = change_delimiter (record p.lexer { command_mode = true }) zero_delimiter in
    let in_command = set_stmt (set_lexer p lex) (record p.stmt { delimiter = zero_delimiter }) in
    let (line, q) = over_tokens (command_step quoted_delimiter) empty_line in_command in
    let new_delim = if is_empty line.builder then p.lexer.delimiter else line.builder in
    let command =
      set_stmt (set_lexer q (change_delimiter q.lexer new_delim))
        (record q.stmt { type = statement_command }) in
    finish q.err (record command { explicit_delimiter = true })

-- parseObjectNameClause
unfoldable pub parse_object_name_clause : List Token → Parser → List Token × Parser
unfolding next_tokens name_clause_at
parse_object_name_clause tokens p =
    let (tokens', q) = next_tokens tokens 3 p in name_clause_at tokens' q

-- Sets the types of the statement if it has a name.
abbrev pub set_create : ObjectType → Parser → Parser
set_create object_type p =
    if is_empty p.stmt.object_name
    then p
    else set_stmt p (record p.stmt { type = statement_create; object_type = object_type })
