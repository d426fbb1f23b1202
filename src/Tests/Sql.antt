-- ===== src/Tests/Sql.antt =====
-- Runs of the lexer and the parser at concrete inputs, and the theorems applied to them.
use skeema.Prelude.{
  true, false, List, [], ◌∷◌, ◌++◌, none, some, Text, txt, text_eq, ◌≡◌, ◌≢◌, refl, map, ℕ, arith,
  contains, has_prefix,
}
use skeema.Escape.{escape_identifier}
use skeema.Objects.{object_table}
use skeema.Lexer.{Lexer, LexError, Piece, token_ident, new_lexer}
use skeema.Lexer.Scanning.{scan, scanned, at_end}
use skeema.Lexer.Lossless.{Scans, scan-Scans, scan_all, values, scan_all_returns_input}
use skeema.Lexer.Quoted.{scan-escape_identifier}
use skeema.Statement.{
  Statement, statement_create, trim_right, text_body, split_text_body, normalized_text,
  normalize_trailer,
}
use skeema.Statement.Trailer.{normalize_trailer_keeps_body, needs_delimiter}
use skeema.Statement.Normal.{normalize_trailer_ends_statement}
use skeema.Parser.{
  Token, Parser, malformed_sql, out_of_fuel, token_type_eq, new_parser, empty_statement, next_token,
}
use skeema.Parser.Names.{get_name_from_token}
use skeema.Parser.Statements.{parse_statements, parse_statement_in_string}
use skeema.Parser.Complete.{
  texts, OnLines, parse_statements_returns_input, parse_statements-OnLines,
}
use skeema.Lexer.Unclosed.{quote_message}
use skeema.Parser.Unclosed.{parse_statements-unclosed}
use skeema.Parser.Unquote.{next_token_reads_quoted_name}

abbrev input : Text
input =
    txt
      "USE foo\nCREATE TABLE a.`b``c` (id int); -- end\nDELIMITER //\nCREATE PROCEDURE p() BEGIN SELECT 1; END//\nx"

abbrev summary : Statement → Text × Text × ℕ × ℕ
summary stmt = (stmt.text, stmt.object_name, stmt.line_no, stmt.char_no)

-- A command, a table with a qualifier, a comment, a new delimiter, and a compound statement.
five_statements :
    map summary (parse_statements input []).0
    ≡ (txt "USE foo\n", [], 1, 1)
      ∷ (txt "CREATE TABLE a.`b``c` (id int);", txt "b`c", 2, 1)
      ∷ (txt " -- end\n", [], 2, 32)
      ∷ (txt "DELIMITER //\n", [], 3, 1)
      ∷ (txt "CREATE PROCEDURE p() BEGIN SELECT 1; END//\n", txt "p", 4, 1)
      ∷ (txt "x", [], 5, 1)
      ∷ []
unfolding parse_statements token_type_eq new_lexer scan
five_statements = refl

-- A byte-order marker is a statement of its own, at column 0.
byte_order_marker :
    map summary (parse_statements (0xEF ∷ 0xBB ∷ 0xBF ∷ txt "x;") []).0
    ≡ (0xEF ∷ 0xBB ∷ 0xBF ∷ [], [], 1, 0) ∷ (txt "x;", [], 1, 1) ∷ []
unfolding parse_statements token_type_eq new_lexer scan
byte_order_marker = refl

-- Without a DELIMITER command, a compound statement takes all of the input.
compound_without_delimiter :
    (parse_statement_in_string (txt "CREATE DEFINER=a@b FUNCTION f() BEGIN x; END; y")).object_name
    ≡ txt "f"
unfolding parse_statement_in_string token_type_eq new_lexer scan
compound_without_delimiter = refl

parse_statements_returns_input_example :
    ((rest : Text) × (texts (parse_statements input []).0 ++ rest ≡ input)
      × ((parse_statements input []).1 ≡ none → rest ≡ []))
    × ((parse_statements input []).1 ≢ some out_of_fuel)
parse_statements_returns_input_example = parse_statements_returns_input input []

parse_statements-OnLines_example : OnLines 1 (parse_statements input []).0
parse_statements-OnLines_example = parse_statements-OnLines input []

abbrev lexer : Lexer
unfolding new_lexer
lexer = new_lexer input (txt ";")

scan-Scans_example : Scans (txt ";") input (scan lexer)
unfolding lexer
scan-Scans_example = scan-Scans lexer refl

scan_all_returns_input_example :
    (pieces : List Piece) × (e : LexError) × (scan_all 200 lexer ≡ some (pieces, e))
    × (values pieces ≡ input)
unfolding lexer
scan_all_returns_input_example = scan_all_returns_input 200 lexer refl (omega arith)

abbrev quoted : Text
unfolding escape_identifier
quoted = escape_identifier (txt "b`c") ++ txt "; x"

abbrev quoted_lexer : Lexer
unfolding new_lexer
quoted_lexer = new_lexer quoted (txt ";")

quoted_text : quoted_lexer.rest ≡ escape_identifier (txt "b`c") ++ txt "; x"
unfolding escape_identifier quoted_lexer quoted
quoted_text = refl

quoted_no_delimiter : has_prefix quoted_lexer.rest (txt ";") ≡ false
unfolding has_prefix quoted_lexer quoted
quoted_no_delimiter = refl

scan-escape_identifier_example :
    scan quoted_lexer
    ≡ scanned
        (record { typ = token_ident; val = escape_identifier (txt "b`c"); rest = txt "; x" })
        (record quoted_lexer {
          rest = txt "; x";
          err = some (at_end quoted_lexer.err);
          prev_token_filler = false;
        })
unfolding quoted_lexer
scan-escape_identifier_example =
    scan-escape_identifier quoted_lexer (txt "b`c") (txt "; x") quoted_text (λ e. cc)
      quoted_no_delimiter

abbrev quoted_parser : Parser
unfolding new_lexer
quoted_parser = new_parser quoted [] (txt ";")

next_token_reads_quoted_name_example :
    (t : Token) × (q : Parser) × (next_token quoted_parser ≡ (some t, q))
    × (get_name_from_token t ≡ some (txt "b`c"))
    × (q.lexer.rest ≡ txt "; x")
    × (q.b ≡ [] ++ escape_identifier (txt "b`c"))
unfolding quoted_parser quoted_lexer
next_token_reads_quoted_name_example =
    next_token_reads_quoted_name quoted_parser (txt "b`c") (txt "; x") refl quoted_text (λ e. cc)
      quoted_no_delimiter refl

abbrev create : Statement
create = record empty_statement {
  text = txt "CREATE TABLE a (id int) \n";
  type = statement_create;
  object_type = object_table;
  object_name = txt "a";
  delimiter = txt ";";
}

delimiter_kept : trim_right (txt ";") ≡ txt ";"
unfolding trim_right
delimiter_kept = refl

-- The delimiter goes behind the body, in front of the blanks.
create_normalized : (normalize_trailer create).text ≡ txt "CREATE TABLE a (id int); \n"
unfolding normalized_text
create_normalized = refl

normalize_trailer_keeps_body_example : text_body (normalize_trailer create) ≡ text_body create
normalize_trailer_keeps_body_example = normalize_trailer_keeps_body create delimiter_kept

normalize_trailer_ends_statement_example :
    (contains (split_text_body (normalize_trailer create)).1 (txt "\n") ≡ true)
    × (needs_delimiter create ≡ true
        → contains (split_text_body (normalize_trailer create)).1 (txt ";") ≡ true)
normalize_trailer_ends_statement_example = normalize_trailer_ends_statement create delimiter_kept

parse_statements-unclosed_example :
    (stmt : Statement) × (stmt.text ≡ txt "'it\n;")
    × (parse_statements (txt "'it\n;") (txt "a.sql")
        ≡ (stmt ∷ [], some (malformed_sql (quote_message b'\'') (txt "a.sql") 1 1)))
parse_statements-unclosed_example =
    parse_statements-unclosed b'\'' (txt "it\n;") (txt "a.sql") refl
      (refl, (refl, (refl, (refl, tt))))

-- A comment on the line of a USE command that is closed on the next line: as a newline follows its
-- opener, the parser reports that it is never closed, at the last token.
comment_after_use :
    (parse_statements (txt "USE a /*\n*/\nx") []).1
    ≡ some (malformed_sql (txt "Comment starting with /* is never closed") [] 3 1)
unfolding parse_statements token_type_eq new_lexer scan
comment_after_use = refl
