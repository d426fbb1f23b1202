-- ===== src/Parser/Creating.antt =====
-- What the processors of CREATE statements keep of the text and the position.
use skeema.Prelude.{
  ℕ, ◌+◌, ◌≤◌, Bool, false, List, [], ◌∷◌, none, some, Text, txt, ◌≡◌, ap, arith, inl, inr,
  Bool-cases, length, drop, text_eq,
}
use skeema.Objects.{object_table}
use skeema.Parser.{Token, Parser, token_type_eq}
use skeema.Parser.Sequences.{found_match, matched_tokens, match_next_sequence, skip_until_sequence}
use skeema.Parser.Processors.{Processed, parse_object_name_clause, set_create}
use skeema.Parser.Creates.{
  select_error, process_create_table, body_step, body_over, with_compound, process_stored_program,
  routine_type, process_create_routine,
}
use skeema.Parser.Tokens.{Holds, over_tokens-Holds}
use skeema.Parser.Lists.{match_next_sequence-Searched, length-drop}
use skeema.Parser.Skipping.{Found, Left-bound, skip_until_sequence-Found}
use skeema.Parser.Processing.{Processes, finish-Processes, process_until_delimiter-Processes}
use skeema.Parser.NameClause.{parse_object_name_clause-Keeps, set_create-Holds}

pub match_next_sequence-Found :
    (text : Text) (line n : ℕ) (tokens : List Token) (wants : List Text) (p : Parser)
    → Holds text line p
    → length tokens + length p.lexer.rest ≤ n
    → Found text line n (match_next_sequence tokens wants p)
match_next_sequence-Found text line n tokens wants p h bound =
    let found = match_next_sequence-Searched text line tokens wants p h in
    let fewer = Left-bound (match_next_sequence tokens wants p).0.matched _ _ _ _ found.1 in
    (found.0, omega (arith, fewer, bound))

set_err-Holds :
    (text : Text) (line : ℕ) (p : Parser)
    → Holds text line p
    → Holds text line (record p { err = some (select_error p) })
set_err-Holds text line p h = record {
  all_text = h.all_text;
  some_delimiter = h.some_delimiter;
  true_error = tt;
  same_line = h.same_line;
  stmt_line = h.stmt_line;
}

pub process_create_table-Processes :
    (text : Text) (line n : ℕ) (tokens : List Token) (p : Parser)
    → Holds text line p
    → length tokens + length p.lexer.rest ≤ n
    → Processes text line n (process_create_table tokens p)
unfolding process_create_table
process_create_table-Processes text line n tokens p h bound =
    let (exists, p1) = match_next_sequence (drop 1 tokens) (txt "if not exists" ∷ []) p in
    let (h1, b1) =
      match_next_sequence-Found text line n (drop 1 tokens) (txt "if not exists" ∷ []) p h
        (omega (arith, length-drop 1 tokens, bound)) in
    let (named, p2) = parse_object_name_clause exists.leftovers p1 in
    let (h2, b2) = parse_object_name_clause-Keeps text line n exists.leftovers p1 h1 b1 in
    let (h3, same) = set_create-Holds text line object_table p2 h2 in
    let (select, p3) = skip_until_sequence named (txt "select" ∷ []) (set_create object_table p2) in
    let (h4, b4) =
      skip_until_sequence-Found text line named (txt "select" ∷ []) (set_create object_table p2)
        h3 in
    let same_rest : length (set_create object_table p2).lexer.rest ≡ length p2.lexer.rest =
      ap (λ lex. length lex.rest) same in
    let fewer : length p3.lexer.rest ≤ n = omega (arith, b4, b2, same_rest) in
    elim (Bool-cases (found_match select)) [
      | inr e ↦ rw e (process_until_delimiter-Processes text line n select.leftovers p3 h4 fewer)
      | inl e ↦ rw e (
          process_until_delimiter-Processes text line n select.leftovers _
            (set_err-Holds text line p3 h4) fewer)
    ]

pub process_stored_program-Processes :
    (text : Text) (line n : ℕ) (tokens : List Token) (p : Parser)
    → Holds text line p
    → length p.lexer.rest ≤ n
    → Processes text line n (process_stored_program tokens p)
unfolding process_stored_program
process_stored_program-Processes text line n tokens p h bound =
    let body =
      body_over p.explicit_delimiter (record { compound = false; stopped = false }) tokens in
    let loop =
      over_tokens-Holds (body_step p.explicit_delimiter) (λ s. 0) text line body p
        (λ s t. omega arith) h in
    elim (Bool-cases body.stopped) [
      | inl e ↦
          rw e (compound-Processes text line n _ _ (finish-Processes text line n none p h tt bound))
      | inr e ↦ rw e (
          compound-Processes text line n _ _ (
            finish-Processes text line n _ _ loop.0 loop.0.true_error
              (omega (arith, loop.1, bound))))
    ]
  where
    compound-Processes :
        (text : Text) (line n : ℕ) (compound : Bool) (r : Processed)
        → Processes text line n r
        → Processes text line n (with_compound compound r)
    compound-Processes text line n compound r h = record {
      all_text = h.all_text;
      stmt_line = h.stmt_line;
      rests = h.rests;
      true_error = h.true_error;
      bound = h.bound;
    }

pub process_create_routine-Processes :
    (text : Text) (line n : ℕ) (tokens : List Token) (p : Parser)
    → Holds text line p
    → length tokens + length p.lexer.rest ≤ n
    → Processes text line n (process_create_routine tokens p)
unfolding process_create_routine
process_create_routine-Processes text line n tokens p h bound =
    let (kind, p1) = match_next_sequence tokens (txt "procedure" ∷ txt "function" ∷ []) p in
    let (h1, b1) =
      match_next_sequence-Found text line n tokens (txt "procedure" ∷ txt "function" ∷ []) p h
        bound in
    let (exists, p2) = match_next_sequence kind.leftovers (txt "if not exists" ∷ []) p1 in
    let (h2, b2) =
      match_next_sequence-Found text line n kind.leftovers (txt "if not exists" ∷ []) p1 h1 b1 in
    let (named, p3) = parse_object_name_clause exists.leftovers p2 in
    let (h3, b3) = parse_object_name_clause-Keeps text line n exists.leftovers p2 h2 b2 in
    elim (Bool-cases (found_match kind)) [
      | inr e ↦
          rw e (process_until_delimiter-Processes text line n kind.leftovers p1 h1 (omega arith))
      | inl e ↦
          let (h4, same) = set_create-Holds text line (routine_type (matched_tokens kind)) p3 h3 in
          let same_rest : length (set_create (routine_type (matched_tokens kind)) p3).lexer.rest
              ≡ length p3.lexer.rest =
            ap (λ lex. length lex.rest) same in
          rw e
            (process_stored_program-Processes text line n named _ h4 (omega (arith, same_rest, b3)))
    ]
