-- ===== src/Parser/Unclosed.antt =====
-- What the parser makes of a quote that is never closed.
use skeema.Prelude.{
  ℕ, suc, true, false, List, [], ◌∷◌, Option, none, some, Text, txt, ◌≡◌, refl, ap, ◌∙◌, arith,
  if◌then◌else◌, leb, length,
}
use skeema.Lexer.{end_of_input, new_lexer, Lexer}
use skeema.Lexer.Scanning.{scan, scan_bom, scan_rest, is_quote, missing_quote}
use skeema.Parser.{
  Token, Parser, ParseError, eof, malformed_sql, token_type_eq, new_parser, next_token, token_of,
  take_piece, position_after_buffer, over_tokens, token_loop, finish_statement,
}
use skeema.Parser.Processors.{finish, set_lexer, process_until_delimiter}
use skeema.Parser.Statements.{
  start_statement, process_statement, statement_at, NextStatement, no_statement, scan_statement,
  bom_statement, next_statement, next_is, statement_loop, parse_statements,
}
use skeema.Statement.{Statement}
use skeema.Lexer.Unclosed.{
  Lacks, quote_bom, quote_delimiter, quote_message, quoted_type, quoted_type_lem, scan_unclosed,
}

-- The statement that the quote starts, with its token in the buffer.
abbrev first_lexer : Text → Lexer
first_lexer r = record {
  rest = r;
  err = none;
  delimiter = txt ";";
  command_mode = false;
  prev_token_filler = false;
}

abbrev start_parser : Text → Text → Parser
start_parser r file_path =
    set_lexer (start_statement (new_parser r file_path (txt ";"))) (first_lexer r)

abbrev quote_token : ℕ → Text → Token
quote_token c s = record { val = c ∷ s; typ = quoted_type c; offset = 0 }

abbrev end_lexer : ℕ → Lexer
end_lexer c = record {
  rest = [];
  err = some (missing_quote c);
  delimiter = txt ";";
  command_mode = false;
  prev_token_filler = false;
}

abbrev quote_parser : ℕ → Text → Text → Parser
quote_parser c s file_path = record (start_parser (c ∷ s) file_path) {
  lexer = end_lexer c;
  b = c ∷ s;
  error_line = 1;
  error_col = 1;
}

next_token_unclosed :
    (c : ℕ) (s file_path : Text)
    → is_quote c ≡ true
    → Lacks c s
    → next_token (start_parser (c ∷ s) file_path)
      ≡ (some (quote_token c s), quote_parser c s file_path)
unfolding next_token token_of take_piece scan new_lexer position_after_buffer
next_token_unclosed c s file_path quote h =
    ap (token_of (start_parser (c ∷ s) file_path))
      (scan_unclosed (first_lexer (c ∷ s)) c s quote h (quote_delimiter c s quote) refl refl)

abbrev quote_error : ℕ → Text → ParseError
quote_error c file_path = malformed_sql (quote_message c) file_path 1 1

statement_at-unclosed :
    (c : ℕ) (s file_path : Text)
    → statement_at (quote_token c s) (quote_parser c s file_path)
      ≡ finish
          (some (quote_error c file_path))
          (record (quote_parser c s file_path) { err = some (quote_error c file_path) })
unfolding statement_at process_statement process_until_delimiter over_tokens token_loop next_token
    token_of scan scan_rest
statement_at-unclosed c s file_path =
    let (no_filler, no_delimiter, no_word) = quoted_type_lem c in
    simp (no_filler, no_delimiter, no_word)

scan_statement-unclosed :
    (c : ℕ) (s file_path : Text)
    → is_quote c ≡ true
    → Lacks c s
    → scan_statement (start_parser (c ∷ s) file_path)
      ≡ next_is (
          finish
            (some (quote_error c file_path))
            (record (quote_parser c s file_path) { err = some (quote_error c file_path) }))
unfolding scan_statement
scan_statement-unclosed c s file_path quote h =
    ap
      (λ r. elim r.0 as (λ o. NextStatement) [
        | none ↦ no_statement r.1.err r.1
        | some t ↦ next_is (statement_at t r.1)
      ])
      (next_token_unclosed c s file_path quote h)
    ∙ ap next_is (statement_at-unclosed c s file_path)

nonempty_error : (n : ℕ) → (if leb (suc n) 0 then some end_of_input else none) ≡ none
nonempty_error n = ground arith

scan_bom-quote :
    (c : ℕ) (s : Text)
    → is_quote c ≡ true
    → scan_bom (first_lexer (c ∷ s)) ≡ (false, first_lexer (c ∷ s))
unfolding scan_bom
scan_bom-quote c s quote =
    rw (quote_bom c s quote)
      (ap (λ e. (false, record (first_lexer (c ∷ s)) { err = e })) (nonempty_error (length s)))

next_statement-unclosed :
    (c : ℕ) (s file_path : Text)
    → is_quote c ≡ true
    → Lacks c s
    → next_statement (new_parser (c ∷ s) file_path (txt ";"))
      ≡ next_is (
          finish
            (some (quote_error c file_path))
            (record (quote_parser c s file_path) { err = some (quote_error c file_path) }))
unfolding next_statement new_lexer
next_statement-unclosed c s file_path quote h =
    let started = start_statement (new_parser (c ∷ s) file_path (txt ";")) in
    ap
      (λ r.
        if r.0
        then next_is (bom_statement (set_lexer started r.1))
        else scan_statement (set_lexer started r.1))
      (scan_bom-quote c s quote)
    ∙ scan_statement-unclosed c s file_path quote h

-- ParseStatements on an input that starts with a quote, single, double or a backtick, which does
-- not stand in it again: there is one statement, with all of the text, and the error says that the
-- closing quote is missing, at line 1 and column 1.
pub parse_statements-unclosed :
    (c : ℕ) (s file_path : Text)
    → is_quote c ≡ true
    → Lacks c s
    → (stmt : Statement) × (stmt.text ≡ c ∷ s)
      × (parse_statements (c ∷ s) file_path
          ≡ (stmt ∷ [], some (malformed_sql (quote_message c) file_path 1 1)))
unfolding parse_statements statement_loop finish_statement
parse_statements-unclosed c s file_path quote h =
    let stmt = record (start_parser (c ∷ s) file_path).stmt { text = c ∷ s } in
    let looped : NextStatement → List Statement × Option ParseError = λ next.
      elim next as (λ x. List Statement × Option ParseError) [
        | no_statement err q ↦
            let more = statement_loop (length (c ∷ s)) q in
            elim err as (λ x. List Statement × Option ParseError) [
              | some eof ↦ ([], none)
              | some e ↦ ([], some e)
              | none ↦ more
            ]
        | next_is r ↦
            let more = statement_loop (length (c ∷ s)) r.parser in
            elim r.err as (λ x. List Statement × Option ParseError) [
              | some eof ↦ (r.stmt ∷ [], none)
              | some e ↦ (r.stmt ∷ [], some e)
              | none ↦ (r.stmt ∷ more.0, more.1)
            ]
      ] in
    (stmt, refl, ap looped (next_statement-unclosed c s file_path quote h))
