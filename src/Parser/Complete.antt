-- ===== src/Parser/Complete.antt =====
-- ParseStatements always ends; its statements are the input, cut into pieces.
use mathlib.Core.Path.{subst}
use mathlib.Core.List.{append_assoc, append-nil}
use skeema.Prelude.{
  ℕ, zero, suc, ◌+◌, ◌<◌, List, [], ◌∷◌, ◌++◌, Option, none, some, Text, txt, ◌≡◌, ◌≢◌, refl, ap,
  ◌∙◌, arith, length, text_eq,
}
use skeema.Lexer.{new_lexer}
use skeema.Statement.{Statement}
use skeema.Parser.{
  Parser, ParseError, eof, malformed_sql, out_of_fuel, token_type_eq, newline_count, new_parser,
}
use skeema.Parser.Processors.{Processed}
use skeema.Parser.Statements.{
  NextStatement, no_statement, next_is, next_statement, statement_loop, parse_statements,
}
use skeema.Parser.Tokens.{ErrorIsTrue}
use skeema.Parser.Processing.{Rests, Processes}
use skeema.Parser.Next.{Returns, next_statement-Returns}

-- The texts of the statements, one behind the other.
abbrev pub texts : List Statement → Text
texts [] = []
texts (stmt ∷ statements) = stmt.text ++ texts statements

-- Every statement starts on the line at which the newlines of the texts before it leave off.
abbrev pub OnLines : ℕ → List Statement → Type 0
OnLines line [] = Unit
OnLines line (stmt ∷ statements) =
    (stmt.line_no ≡ line) × OnLines (line + newline_count stmt.text) statements

-- What ParseStatements returns for a text.
abbrev pub Complete : Text → ℕ → List Statement × Option ParseError → Type 0
Complete text line (statements, err) =
    ((rest : Text) × (texts statements ++ rest ≡ text) × (err ≡ none → rest ≡ []))
    × OnLines line statements
    × (err ≢ some out_of_fuel)

at_error :
    (line : ℕ) (text : Text) (err : Option ParseError) (e : ParseError)
    → err ≡ some e
    → ErrorIsTrue err text
    → (more : List Statement × Option ParseError)
    → Complete text line (elim err as (λ x. List Statement × Option ParseError) [
      | some eof ↦ ([], none)
      | some e ↦ ([], some e)
      | none ↦ more
    ])
at_error line text none e same true_error more = cc
at_error line text (some eof) e same true_error more = ((text, refl, λ h. true_error), tt, λ h. cc)
at_error line text (some (malformed_sql str file l col)) e same true_error more =
    ((text, refl, λ h. cc), tt, λ h. cc)
at_error line text (some out_of_fuel) e same true_error more = absurd true_error

after_statement :
    (text : Text) (line n : ℕ) (r : Processed) (err : Option ParseError)
    → Processes text line n r
    → r.err ≡ err
    → (more : List Statement × Option ParseError)
    → Complete r.parser.lexer.rest (line + newline_count r.stmt.text) more
    → Complete text line (elim err as (λ x. List Statement × Option ParseError) [
      | some eof ↦ (r.stmt ∷ [], none)
      | some e ↦ (r.stmt ∷ [], some e)
      | none ↦ (r.stmt ∷ more.0, more.1)
    ])
after_statement text line n r none h same (statements, err) ((rest, all, complete), lines, enough) =
    (
      (
        rest,
        append_assoc r.stmt.text (texts statements) rest
            ∙ (ap (λ t. r.stmt.text ++ t) all ∙ h.all_text),
        complete,
      ),
      (h.stmt_line, lines),
      enough,
    )
after_statement text line n r (some eof) h same more later = (
  (
    r.parser.lexer.rest,
    ap (λ t. t ++ r.parser.lexer.rest) (append-nil r.stmt.text) ∙ h.all_text,
    λ e. subst (λ o. ErrorIsTrue o r.parser.lexer.rest) same h.true_error,
  ),
  (h.stmt_line, tt),
  λ e. cc,
)
after_statement text line n r (some (malformed_sql str file l col)) h same more later = (
  (
    r.parser.lexer.rest,
    ap (λ t. t ++ r.parser.lexer.rest) (append-nil r.stmt.text) ∙ h.all_text,
    λ e. cc,
  ),
  (h.stmt_line, tt),
  λ e. cc,
)
after_statement text line n r (some out_of_fuel) h same more later =
    absurd (subst (λ o. ErrorIsTrue o r.parser.lexer.rest) same h.true_error)

after_next :
    (line fuel : ℕ) (text : Text) (next : NextStatement)
    → Returns text line next
    → length text < suc fuel
    → ((line : ℕ) (q : Parser)
        → Rests line q
        → length q.lexer.rest < fuel
        → Complete q.lexer.rest line (statement_loop fuel q))
    → Complete text line (elim next as (λ x. List Statement × Option ParseError) [
      | no_statement err q ↦
          let more = statement_loop fuel q in
          elim err as (λ x. List Statement × Option ParseError) [
            | some eof ↦ ([], none)
            | some e ↦ ([], some e)
            | none ↦ more
          ]
      | next_is r ↦
          let more = statement_loop fuel r.parser in
          elim r.err as (λ x. List Statement × Option ParseError) [
            | some eof ↦ (r.stmt ∷ [], none)
            | some e ↦ (r.stmt ∷ [], some e)
            | none ↦ (r.stmt ∷ more.0, more.1)
          ]
    ])
after_next line fuel text (no_statement err q) (e, same, true_error) less ih =
    at_error line text err e same true_error (statement_loop fuel q)
after_next line fuel text (next_is r) (n, fewer, h) less ih =
    after_statement text line n r r.err h refl (statement_loop fuel r.parser)
      (ih (line + newline_count r.stmt.text) r.parser h.rests (omega (arith, h.bound)))

statement_loop-Complete :
    (line fuel : ℕ) (p : Parser)
    → Rests line p
    → length p.lexer.rest < fuel
    → Complete p.lexer.rest line (statement_loop fuel p)
unfolding statement_loop
statement_loop-Complete line zero p h less = absurd (omega arith)
statement_loop-Complete line (suc fuel) p h less =
    after_next line fuel p.lexer.rest (next_statement p) (next_statement-Returns line p h) less
      (λ line' q h' less'. statement_loop-Complete line' fuel q h' less')

parse_statements-Complete : (r file_path : Text) → Complete r 1 (parse_statements r file_path)
unfolding parse_statements new_lexer
parse_statements-Complete r file_path =
    statement_loop-Complete 1 (suc (length r)) (new_parser r file_path (txt ";"))
      (record { nothing_buffered = refl; some_delimiter = refl; true_error = tt; same_line = refl })
      (omega arith)

-- ParseStatements ends on every input, no loop in it running out of its rounds, and its statements
-- preserve the input: their texts, one behind the other, are a prefix of it, and all of it unless an
-- error is returned.
pub parse_statements_returns_input :
    (r file_path : Text)
    → ((rest : Text) × (texts (parse_statements r file_path).0 ++ rest ≡ r)
        × ((parse_statements r file_path).1 ≡ none → rest ≡ []))
      × ((parse_statements r file_path).1 ≢ some out_of_fuel)
parse_statements_returns_input r file_path =
    let complete = parse_statements-Complete r file_path in (complete.0, complete.2)

-- The line number of every statement that ParseStatements returns is one more than the number of
-- newlines in the texts of the statements before it.
pub parse_statements-OnLines : (r file_path : Text) → OnLines 1 (parse_statements r file_path).0
parse_statements-OnLines r file_path = (parse_statements-Complete r file_path).1
