-- ===== src/Parser/Processing.antt =====
-- What the statement processors keep of the text and the position.
use mathlib.Core.Path.{subst}
use skeema.Prelude.{
  ℕ, ◌+◌, ◌≤◌, true, false, List, [], ◌∷◌, ◌++◌, Option, none, some, Text, ◌≡◌, refl, ap, ◌∙◌, sym,
  arith, inl, inr, Bool-cases, is_empty, length, if◌then◌else◌,
}
use skeema.Lexer.{Lexer, change_delimiter}
use skeema.Statement.{Statement, statement_command}
use skeema.Parser.{
  Token, Parser, ParseError, newline_count, last_line, position_at, position_after_buffer,
  over_tokens, finish_statement,
}
use skeema.Parser.Names.{set_stmt}
use skeema.Parser.Sequences.{ends_in_delimiter}
use skeema.Parser.Processors.{
  Processed, finish, until_delimiter_step, process_until_delimiter, empty_line, command_step,
  set_lexer, use_name, quoted_delimiter, zero_delimiter, process_use_command,
  process_delimiter_command,
}
use skeema.Parser.Tokens.{ErrorIsTrue, Holds, over_tokens-Holds}

-- Between two statements: nothing is buffered.
pub record Rests (line : ℕ) (p : Parser) : Type 0 where
  pub nothing_buffered : p.b ≡ []
  pub some_delimiter : is_empty p.lexer.delimiter ≡ false
  pub true_error : ErrorIsTrue p.err p.lexer.rest
  pub same_line : p.line_number ≡ line

-- A statement with its text cut from the front of `text`, the line that it starts on, and the
-- parser behind it, which has at most `n` bytes left.
pub record Processes (text : Text) (line n : ℕ) (r : Processed) : Type 0 where
  pub all_text : r.stmt.text ++ r.parser.lexer.rest ≡ text
  pub stmt_line : r.stmt.line_no ≡ line
  pub rests : Rests (line + newline_count r.stmt.text) r.parser
  pub true_error : ErrorIsTrue r.err r.parser.lexer.rest
  pub bound : length r.parser.lexer.rest ≤ n

last_line-none : (s : Text) → last_line s ≡ none → newline_count s ≡ 0
unfolding last_line newline_count
last_line-none [] h = refl
last_line-none (c ∷ s) h = ground (arith, last_line-none s)

position_at-line :
    (p : Parser) (o : Option Text)
    → last_line p.b ≡ o
    → (position_at p o).0 ≡ p.line_number + newline_count p.b
unfolding position_at
position_at-line p none e = omega (arith, last_line-none p.b e)
position_at-line p (some line) e = refl

position_line : (p : Parser) → (position_after_buffer p).0 ≡ p.line_number + newline_count p.b
unfolding position_after_buffer
position_line p = position_at-line p (last_line p.b) refl

pub finish-Processes :
    (text : Text) (line n : ℕ) (err : Option ParseError) (p : Parser)
    → Holds text line p
    → ErrorIsTrue err p.lexer.rest
    → length p.lexer.rest ≤ n
    → Processes text line n (finish err p)
unfolding finish_statement
finish-Processes text line n err p h true_error bound = record {
  all_text = h.all_text;
  stmt_line = h.stmt_line;
  rests = record {
    nothing_buffered = refl;
    some_delimiter = h.some_delimiter;
    true_error = h.true_error;
    same_line = position_line p ∙ ap (λ l. l + newline_count p.b) h.same_line;
  };
  true_error = true_error;
  bound = bound;
}

pub set_stmt-Holds :
    (text : Text) (line : ℕ) (p : Parser) (stmt : Statement)
    → Holds text line p
    → stmt.line_no ≡ p.stmt.line_no
    → Holds text line (set_stmt p stmt)
set_stmt-Holds text line p stmt h same = record {
  all_text = h.all_text;
  some_delimiter = h.some_delimiter;
  true_error = h.true_error;
  same_line = h.same_line;
  stmt_line = same ∙ h.stmt_line;
}

pub process_until_delimiter-Processes :
    (text : Text) (line n : ℕ) (tokens : List Token) (p : Parser)
    → Holds text line p
    → length p.lexer.rest ≤ n
    → Processes text line n (process_until_delimiter tokens p)
unfolding process_until_delimiter
process_until_delimiter-Processes text line n tokens p h bound =
    let loop =
      over_tokens-Holds until_delimiter_step (λ s. 0) text line tt p (λ s t. omega arith) h in
    elim (Bool-cases (ends_in_delimiter tokens)) [
      | inl e ↦ rw e (finish-Processes text line n none p h tt bound)
      | inr e ↦
          rw e (
            finish-Processes text line n _ _ loop.0 loop.0.true_error
              (omega (arith, loop.1, bound)))
    ]

-- The lexer may change, but not what is left of the input.
pub set_lexer-Holds :
    (text : Text) (line : ℕ) (p : Parser) (lex : Lexer)
    → Holds text line p
    → lex.rest ≡ p.lexer.rest
    → is_empty lex.delimiter ≡ false
    → Holds text line (set_lexer p lex)
set_lexer-Holds text line p lex h same nonempty = record {
  all_text = ap (λ r. p.b ++ r) same ∙ h.all_text;
  some_delimiter = nonempty;
  true_error = subst (ErrorIsTrue p.err) (sym same) h.true_error;
  same_line = h.same_line;
  stmt_line = h.stmt_line;
}

pub process_use_command-Processes :
    (text : Text) (line n : ℕ) (p : Parser)
    → Holds text line p
    → length p.lexer.rest ≤ n
    → Processes text line n (process_use_command p)
unfolding process_use_command
process_use_command-Processes text line n p h bound =
    let in_command = set_lexer p (record p.lexer { command_mode = true }) in
    let start =
      set_lexer-Holds text line p (record p.lexer { command_mode = true }) h refl
        h.some_delimiter in
    let result = over_tokens (command_step use_name) empty_line in_command in
    let loop =
      over_tokens-Holds (command_step use_name) (λ s. 0) text line empty_line in_command
        (λ s t. omega arith) start in
    let fewer : length result.1.lexer.rest ≤ n = omega (arith, loop.1, bound) in
    elim (Bool-cases (is_empty result.0.builder)) [
      | inl e ↦ rw e (finish-Processes text line n _ _ loop.0 loop.0.true_error fewer)
      | inr e ↦
          let named : Holds text line (record result.1 { default_database = result.0.builder }) =
            record {
              all_text = loop.0.all_text;
              some_delimiter = loop.0.some_delimiter;
              true_error = loop.0.true_error;
              same_line = loop.0.same_line;
              stmt_line = loop.0.stmt_line;
            } in
          rw e (
            finish-Processes text line n _ _ (set_stmt-Holds text line _ _ named refl)
              loop.0.true_error fewer)
    ]

new_delimiter :
    (old given : Text)
    → is_empty old ≡ false
    → is_empty (if is_empty given then old else given) ≡ false
new_delimiter old [] h = h
new_delimiter old (c ∷ given) h = refl

pub process_delimiter_command-Processes :
    (text : Text) (line n : ℕ) (p : Parser)
    → Holds text line p
    → length p.lexer.rest ≤ n
    → Processes text line n (process_delimiter_command p)
unfolding process_delimiter_command
process_delimiter_command-Processes text line n p h bound =
    let lex = change_delimiter (record p.lexer { command_mode = true }) zero_delimiter in
    let in_command = set_stmt (set_lexer p lex) (record p.stmt { delimiter = zero_delimiter }) in
    let start =
      set_stmt-Holds text line _ (record p.stmt { delimiter = zero_delimiter })
        (set_lexer-Holds text line p lex h refl refl) refl in
    let result = over_tokens (command_step quoted_delimiter) empty_line in_command in
    let loop =
      over_tokens-Holds (command_step quoted_delimiter) (λ s. 0) text line empty_line in_command
        (λ s t. omega arith) start in
    let new_delim = if is_empty result.0.builder then p.lexer.delimiter else result.0.builder in
    let changed =
      set_lexer-Holds text line result.1 (change_delimiter result.1.lexer new_delim) loop.0 refl
        (new_delimiter p.lexer.delimiter result.0.builder h.some_delimiter) in
    let command =
      set_stmt (set_lexer result.1 (change_delimiter result.1.lexer new_delim))
        (record result.1.stmt { type = statement_command }) in
    let kept =
      set_stmt-Holds text line _ (record result.1.stmt { type = statement_command }) changed refl in
    let marked : Holds text line (record command { explicit_delimiter = true }) = record {
      all_text = kept.all_text;
      some_delimiter = kept.some_delimiter;
      true_error = kept.true_error;
      same_line = kept.same_line;
      stmt_line = kept.stmt_line;
    } in
    finish-Processes text line n _ _ marked loop.0.true_error (omega (arith, loop.1, bound))
