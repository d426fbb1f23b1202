-- ===== src/Parser/Next.antt =====
-- What nextStatement of internal/tengo/parser.go returns: an error, or a statement that gets further.
use mathlib.Core.Path.{subst}
use skeema.Prelude.{
  ℕ, suc, ◌≤◌, ◌<◌, true, ◌&&◌, ◌||◌, [], ◌∷◌, ◌++◌, Option, none, some, Text, txt, ◌≡◌, ◌-◌, leb,
  refl, ap, ◌∙◌, sym, arith, inl, inr, Bool-cases, length, drop, nat_beq, nat_beq_iff, both_true,
  is_empty, has_prefix, if◌then◌else◌, text_eq, ◌==◌, to_lower,
}
use skeema.Lexer.{token_filler, token_word, Lexer, end_of_input}
use skeema.Lexer.Scanning.{scan_bom}
use skeema.Statement.{statement_noop}
use skeema.Parser.{
  Token, Parser, ParseError, eof, malformed_sql, out_of_fuel, has_type, is_delimiter, token_type_eq,
  next_token,
}
use skeema.Parser.Processors.{set_lexer}
use skeema.Parser.Statements.{
  start_statement, process_statement, statement_at, NextStatement, no_statement, next_is,
  scan_statement, bom, bom_statement, next_statement,
}
use skeema.Parser.Tokens.{ErrorIsTrue, Holds, AfterToken, next_token_lem}
use skeema.Parser.Processing.{
  Rests, Processes, set_lexer-Holds, finish-Processes, set_stmt-Holds,
  process_until_delimiter-Processes, process_use_command-Processes,
  process_delimiter_command-Processes,
}
use skeema.Parser.Definer.{process_create_statement-Processes}

process_statement-Processes :
    (text : Text) (line n : ℕ) (t : Token) (p : Parser)
    → Holds text line p
    → length p.lexer.rest ≤ n
    → Processes text line n (process_statement t p)
unfolding process_statement
process_statement-Processes text line n t p h bound = elim (Bool-cases (has_type token_word t)) [
  | inr e ↦ rw e (process_until_delimiter-Processes text line n [] p h bound)
  | inl e ↦ rw e (elim (Bool-cases (to_lower t.val == txt "create")) [
    | inl c ↦ rw c (process_create_statement-Processes text line n p h bound)
    | inr c ↦ rw c (elim (Bool-cases (to_lower t.val == txt "use")) [
      | inl u ↦ rw u (process_use_command-Processes text line n p h bound)
      | inr u ↦ rw u (elim (Bool-cases (to_lower t.val == txt "delimiter")) [
        | inl d ↦ rw d (process_delimiter_command-Processes text line n p h bound)
        | inr d ↦ rw d (process_until_delimiter-Processes text line n [] p h bound)
      ])
    ])
  ])
]

statement_at-Processes :
    (text : Text) (line n : ℕ) (t : Token) (p : Parser)
    → Holds text line p
    → length p.lexer.rest ≤ n
    → Processes text line n (statement_at t p)
unfolding statement_at
statement_at-Processes text line n t p h bound =
    elim (Bool-cases (has_type token_filler t || is_delimiter t)) [
      | inl e ↦
          rw e (finish-Processes text line n none _ (set_stmt-Holds text line p _ h refl) tt bound)
      | inr e ↦ rw e (process_statement-Processes text line n t p h bound)
    ]

-- What nextStatement returns where `text` is left, on the given line: an error, or a statement that
-- has taken at least one byte.
abbrev pub Returns : Text → ℕ → NextStatement → Type 0
Returns text line (no_statement err q) = (e : ParseError) × (err ≡ some e) × ErrorIsTrue err text
Returns text line (next_is r) = (n : ℕ) × (n < length text) × Processes text line n r

token-Returns :
    (text : Text) (line : ℕ) (r : Option Token × Parser)
    → AfterToken text line text r
    → Returns text line (elim r.0 as (λ o. NextStatement) [
      | none ↦ no_statement r.1.err r.1
      | some t ↦ next_is (statement_at t r.1)
    ])
token-Returns text line (none, q) (h, shorter, e, same, true_error) = (e, same, true_error)
token-Returns text line (some t, q) (h, shorter) =
    (length q.lexer.rest, shorter, statement_at-Processes text line _ t q h (omega arith))

scan_statement-Returns :
    (line : ℕ) (p : Parser)
    → Holds p.lexer.rest line p
    → Returns p.lexer.rest line (scan_statement p)
unfolding scan_statement
scan_statement-Returns line p h =
    token-Returns p.lexer.rest line (next_token p) (next_token_lem p.lexer.rest line p h)

start_statement-Holds :
    (line : ℕ) (p : Parser) → Rests line p → Holds p.lexer.rest line (start_statement p)
start_statement-Holds line p h = record {
  all_text = ap (λ b. b ++ p.lexer.rest) h.nothing_buffered;
  some_delimiter = h.some_delimiter;
  true_error = h.true_error;
  same_line = h.same_line;
  stmt_line = h.same_line;
}

has_prefix-drop : (s pre : Text) → has_prefix s pre ≡ true → pre ++ drop (length pre) s ≡ s
unfolding has_prefix
has_prefix-drop s [] h = refl
has_prefix-drop [] (p ∷ pre) h = cc
has_prefix-drop (c ∷ s) (p ∷ pre) h =
    let (same, more) = both_true (nat_beq c p) (has_prefix s pre) h in
    ap (λ x. x ∷ (pre ++ drop (length pre) s)) (sym ((nat_beq_iff c p).0 same))
    ∙ ap (◌∷◌ c) (has_prefix-drop s pre more)

ErrorIsTrue-drop :
    (err : Option ParseError) (s : Text) → ErrorIsTrue err s → ErrorIsTrue err (drop 3 s)
ErrorIsTrue-drop none s h = tt
ErrorIsTrue-drop (some eof) s h = ap (drop 3) h
ErrorIsTrue-drop (some (malformed_sql str file line col)) s h = tt
ErrorIsTrue-drop (some out_of_fuel) s h = h

bom-Returns :
    (line : ℕ) (p : Parser) (lex : Lexer)
    → Rests line p
    → has_prefix p.lexer.rest bom ≡ true
    → lex.rest ≡ drop 3 p.lexer.rest
    → lex.delimiter ≡ p.lexer.delimiter
    → Returns p.lexer.rest line (next_is (bom_statement (set_lexer (start_statement p) lex)))
unfolding bom_statement
bom-Returns line p lex h found same delim =
    let marked = set_lexer (start_statement p) lex in
    let after = record marked {
      b = p.b ++ bom;
      col_number = p.col_number - 1;
      stmt = record marked.stmt { char_no = 0; type = statement_noop };
    } in
    let cut : bom ++ lex.rest ≡ p.lexer.rest =
      ap (λ r. bom ++ r) same ∙ has_prefix-drop p.lexer.rest bom found in
    let holds : Holds p.lexer.rest line after = record {
      all_text = ap (λ b. (b ++ bom) ++ lex.rest) h.nothing_buffered ∙ cut;
      some_delimiter = ap is_empty delim ∙ h.some_delimiter;
      true_error =
          subst (ErrorIsTrue p.err) (sym same) (ErrorIsTrue-drop p.err p.lexer.rest h.true_error);
      same_line = h.same_line;
      stmt_line = h.same_line;
    } in
    let total : suc (suc (suc (length lex.rest))) ≡ length p.lexer.rest = ap length cut in
    (
      length lex.rest,
      omega (arith, total),
      finish-Processes p.lexer.rest line _ none after holds tt (omega arith),
    )

pub next_statement-Returns :
    (line : ℕ) (p : Parser) → Rests line p → Returns p.lexer.rest line (next_statement p)
unfolding next_statement scan_bom
next_statement-Returns line p h =
    let started = start_statement-Holds line p h in
    elim (Bool-cases (nat_beq p.line_number 1 && nat_beq p.col_number 1)) [
      | inr e ↦ rw e (scan_statement-Returns line (start_statement p) started)
      | inl e ↦ rw e (elim (Bool-cases (has_prefix p.lexer.rest bom)) [
        | inl found ↦ rw found (bom-Returns line p _ h found refl refl)
        | inr found ↦ rw found (
            scan_statement-Returns line _ (
              set_lexer-Holds p.lexer.rest line (start_statement p)
                (record p.lexer {
                  err = if leb (length p.lexer.rest) 0 then some end_of_input else none;
                })
                started refl h.some_delimiter))
      ])
    ]
