-- ===== src/Parser/Statements.antt =====
-- nextStatement and the functions ParseStatements* of internal/tengo/parser.go.
use skeema.Prelude.{
  ℕ, zero, suc, ◌-◌, not, ◌&&◌, ◌||◌, List, [], ◌∷◌, ◌++◌, Option, none, some, Text, txt,
  if◌then◌else◌, nat_beq, length, to_lower, text_eq, ◌==◌,
}
use skeema.Lexer.{token_filler, token_word}
use skeema.Lexer.Scanning.{scan_bom}
use skeema.Statement.{Statement, statement_noop}
use skeema.Parser.{
  Token, Parser, ParseError, eof, out_of_fuel, has_type, is_delimiter, token_type_eq, next_token,
  new_parser, empty_statement,
}
use skeema.Parser.Names.{set_stmt}
use skeema.Parser.Processors.{
  Processed, finish, set_lexer, process_until_delimiter, process_use_command,
  process_delimiter_command,
}
use skeema.Parser.Creates.{process_create_statement}

-- The statement that nextStatement starts.
abbrev pub start_statement : Parser → Parser
start_statement p = set_stmt p (record empty_statement {
  file = p.file_path;
  line_no = p.line_number;
  char_no = p.col_number;
  default_database = p.default_database;
  delimiter = p.lexer.delimiter;
})

-- The processor of a statement's first token.
unfoldable pub process_statement : Token → Parser → Processed
unfolding text_eq token_type_eq process_create_statement process_use_command
    process_delimiter_command process_until_delimiter
process_statement t p =
    let word = to_lower t.val in
    if not (has_type token_word t)
    then process_until_delimiter [] p
    else if word == txt "create"
    then process_create_statement p
    else if word == txt "use"
    then process_use_command p
    else if word == txt "delimiter"
    then process_delimiter_command p
    else process_until_delimiter [] p

-- What is returned for a first token: a noop statement, or what the processor returns.
unfoldable pub statement_at : Token → Parser → Processed
unfolding process_statement token_type_eq
statement_at t p =
    if has_type token_filler t || is_delimiter t
    then finish none (set_stmt p (record p.stmt { type = statement_noop }))
    else process_statement t p

-- What nextStatement returns, and the parser after it.
pub data NextStatement : Type 0 where
  no_statement : Option ParseError → Parser → NextStatement
  next_is : Processed → NextStatement

-- nextStatement from its first token on.
unfoldable pub scan_statement : Parser → NextStatement
unfolding next_token statement_at
scan_statement p =
    let (token, q) = next_token p in
    elim token [ none ↦ no_statement q.err q | some t ↦ next_is (statement_at t q) ]

-- The bytes of U+FEFF.
abbrev pub bom : Text
bom = 0xEF ∷ 0xBB ∷ 0xBF ∷ []

-- The noop statement of a byte-order marker.
unfoldable pub bom_statement : Parser → Processed
bom_statement p = finish none (record p {
  b = p.b ++ bom;
  col_number = p.col_number - 1;
  stmt = record p.stmt { char_no = 0; type = statement_noop };
})

-- nextStatement
unfoldable pub next_statement : Parser → NextStatement
unfolding scan_bom scan_statement bom_statement
next_statement p =
    let started = start_statement p in
    let (found, lex) = scan_bom p.lexer in
    if nat_beq p.line_number 1 && nat_beq p.col_number 1
    then (if found
        then next_is (bom_statement (set_lexer started lex))
        else scan_statement (set_lexer started lex))
    else scan_statement started

-- The loop of ParseStatements.
unfoldable pub statement_loop : ℕ → Parser → List Statement × Option ParseError
unfolding next_statement
statement_loop zero p = ([], some out_of_fuel)
statement_loop (suc fuel) p = elim (next_statement p) [
  | no_statement err q ↦
      let more = statement_loop fuel q in
      elim err [ some eof ↦ ([], none) | some e ↦ ([], some e) | none ↦ more ]
  | next_is r ↦
      let more = statement_loop fuel r.parser in
      elim r.err [
        | some eof ↦ (r.stmt ∷ [], none)
        | some e ↦ (r.stmt ∷ [], some e)
        | none ↦ (r.stmt ∷ more.0, more.1)
      ]
]

-- ParseStatements: every statement but the last takes a byte, so that there are enough rounds.
unfoldable pub parse_statements : Text → Text → List Statement × Option ParseError
unfolding statement_loop
parse_statements r file_path = statement_loop (suc (length r)) (new_parser r file_path (txt ";"))

-- What ParseStatementInString makes of the result.
unfoldable pub only_statement : List Statement → Option ParseError → Statement
only_statement [] err = empty_statement
only_statement (stmt ∷ more) (some e) = empty_statement
only_statement (stmt ∷ more) none = if stmt.compound then record stmt { delimiter = [] } else stmt

-- ParseStatementInString
unfoldable pub parse_statement_in_string : Text → Statement
unfolding parse_statements only_statement
parse_statement_in_string s =
    let (statements, err) = parse_statements s [] in only_statement statements err
