-- ===== src/Parser/Definer.antt =====
-- The DEFINER clause of internal/tengo/parser.go, and that any number of them comes to an end.
use skeema.Prelude.{
  ℕ, zero, suc, ◌+◌, ◌≤◌, ◌<◌, true, ◌&&◌, List, [], ◌∷◌, Option, none, some, Text, txt, ◌≡◌, arith,
  inl, inr, Bool-cases, length, ltb, ◌==◌, text_eq,
}
use skeema.Lexer.{token_symbol}
use skeema.Parser.{Token, Parser, has_type, token_type_eq}
use skeema.Parser.Sequences.{Match, not_nil, found_match, next_tokens, match_next_sequence}
use skeema.Parser.Processors.{Processed, process_until_delimiter}
use skeema.Parser.Creates.{
  CreateKind, create_table, create_routine, create_definer, create_other, front_kind, user_at_host,
  DefinerClause, parsed, not_parsed, parsed_or, definer_value, definer_clause, create_processor,
  process_create_statement,
}
use skeema.Parser.Tokens.{Holds}
use skeema.Parser.Lists.{next_tokens-Keeps, match_next_sequence-Searched, Left}
use skeema.Parser.Skipping.{Left-bound}
use skeema.Parser.Processing.{Processes, process_until_delimiter-Processes}
use skeema.Parser.Creating.{
  match_next_sequence-Found, process_create_routine-Processes, process_create_table-Processes,
}

-- Behind a DEFINER clause there are fewer tokens than before it.
abbrev Clause : Text → ℕ → ℕ → DefinerClause × Parser → Type 0
Clause text line n (parsed tokens, q) =
    Holds text line q × (length tokens + length q.lexer.rest < n)
Clause text line n (not_parsed tokens, q) = Holds text line q × (length q.lexer.rest ≤ n)

user_at_host-Clause :
    (text : Text) (line n : ℕ) (tokens : List Token) (q : Parser)
    → Holds text line q
    → length tokens + length q.lexer.rest ≤ n
    → Clause text line n (parsed_or tokens (user_at_host tokens), q)
unfolding user_at_host
user_at_host-Clause text line n [] q h b = (h, omega arith)
user_at_host-Clause text line n (t ∷ []) q h b = (h, omega arith)
user_at_host-Clause text line n (t ∷ u ∷ []) q h b = (h, omega arith)
user_at_host-Clause text line n (t ∷ u ∷ v ∷ []) q h b = (h, omega arith)
user_at_host-Clause text line n (t ∷ u ∷ v ∷ w ∷ tokens) q h b =
    elim (Bool-cases (has_type token_symbol u && u.val == txt "@")) [
      | inl e ↦ rw e (h, omega arith)
      | inr e ↦ rw e (h, omega arith)
    ]

found-Left :
    (matched : Option (List Token)) (left m n rest : ℕ)
    → not_nil matched ≡ true
    → Left matched left m n rest
    → left + rest < n
found-Left none left m n rest e h = cc
found-Left (some t) left m n rest e h = h

definer_value-Clause :
    (text : Text) (line n : ℕ) (value : Match) (q : Parser)
    → Holds text line q
    → length value.leftovers + length q.lexer.rest < n
    → Clause text line n (definer_value value, q)
unfolding definer_value
definer_value-Clause text line n value q h b = elim (Bool-cases (found_match value)) [
  | inl e ↦ rw e (h, b)
  | inr e ↦ rw e (user_at_host-Clause text line n value.leftovers q h (omega arith))
]

definer_clause-Clause :
    (text : Text) (line : ℕ) (tokens : List Token) (p : Parser)
    → Holds text line p
    → Clause text line (length tokens + length p.lexer.rest) (definer_clause tokens p)
unfolding definer_clause
definer_clause-Clause text line tokens p h =
    let n = length tokens + length p.lexer.rest in
    let definer_wants = txt "definer =" ∷ [] in
    let value_wants = txt "current_user" ∷ txt "current_user ( )" ∷ [] in
    let (tokens', p1) = next_tokens tokens 6 p in
    let ((h1, b1), longer) = next_tokens-Keeps text line tokens 6 p h in
    let (definer, p2) = match_next_sequence tokens' definer_wants p1 in
    let (h2, left2) = match_next_sequence-Searched text line tokens' definer_wants p1 h1 in
    let b2 =
      Left-bound definer.matched (length definer.leftovers) (length tokens')
        (length tokens' + length p1.lexer.rest) (length p2.lexer.rest) left2 in
    let (value, p3) = match_next_sequence definer.leftovers value_wants p2 in
    elim (Bool-cases (ltb (length tokens') 4)) [
      | inl e ↦ rw e (h1, omega arith)
      | inr e ↦ rw e (elim (Bool-cases (found_match definer)) [
        | inr f ↦ rw f (h2, omega (arith, b1, b2))
        | inl f ↦
            let fewer = found-Left definer.matched _ _ _ _ f left2 in
            let (h3, b3) =
              match_next_sequence-Found text line (length definer.leftovers + length p2.lexer.rest)
                definer.leftovers value_wants p2 h2 (omega arith) in
            rw f (definer_value-Clause text line n value p3 h3 (omega (arith, fewer, b1, b3)))
      ])
    ]

after_definer :
    (text : Text) (line n fuel : ℕ) (r : DefinerClause × Parser)
    → Clause text line n r
    → n < suc fuel
    → ((kind : CreateKind) (tokens : List Token) (q : Parser)
        → Holds text line q
        → length tokens + length q.lexer.rest ≤ n
        → length tokens + length q.lexer.rest < fuel
        → Processes text line n (create_processor fuel kind tokens q))
    → Processes text line n (elim r.0 as (λ c. Processed) [
      | not_parsed tokens' ↦ process_until_delimiter tokens' r.1
      | parsed tokens' ↦ create_processor fuel (front_kind tokens') tokens' r.1
    ])
after_definer text line n fuel (not_parsed tokens, q) (h, b) less ih =
    process_until_delimiter-Processes text line n tokens q h b
after_definer text line n fuel (parsed tokens, q) (h, b) less ih =
    ih (front_kind tokens) tokens q h (omega arith) (omega arith)

Processes-mono :
    (text : Text) (line m n : ℕ) (r : Processed)
    → m ≤ n
    → Processes text line m r
    → Processes text line n r
Processes-mono text line m n r less h = record {
  all_text = h.all_text;
  stmt_line = h.stmt_line;
  rests = h.rests;
  true_error = h.true_error;
  bound = omega (arith, h.bound);
}

create_processor-Processes :
    (text : Text) (line n fuel : ℕ) (kind : CreateKind) (tokens : List Token) (p : Parser)
    → Holds text line p
    → length tokens + length p.lexer.rest ≤ n
    → length tokens + length p.lexer.rest < fuel
    → Processes text line n (create_processor fuel kind tokens p)
unfolding create_processor
create_processor-Processes text line n zero kind tokens p h b less = absurd (omega arith)
create_processor-Processes text line n (suc fuel) create_table tokens p h b less =
    process_create_table-Processes text line n tokens p h b
create_processor-Processes text line n (suc fuel) create_routine tokens p h b less =
    process_create_routine-Processes text line n tokens p h b
create_processor-Processes text line n (suc fuel) create_other tokens p h b less =
    process_until_delimiter-Processes text line n tokens p h (omega arith)
create_processor-Processes text line n (suc fuel) create_definer tokens p h b less =
    let m = length tokens + length p.lexer.rest in
    Processes-mono text line m n _ b (
      after_definer text line m fuel (definer_clause tokens p)
        (definer_clause-Clause text line tokens p h) less
        (λ kind' tokens' q h' b' less'.
          create_processor-Processes text line m fuel kind' tokens' q h' b' less'))

pub process_create_statement-Processes :
    (text : Text) (line n : ℕ) (p : Parser)
    → Holds text line p
    → length p.lexer.rest ≤ n
    → Processes text line n (process_create_statement p)
unfolding process_create_statement
process_create_statement-Processes text line n p h bound =
    let (tokens, q) = next_tokens [] 20 p in
    let ((h', b), longer) = next_tokens-Keeps text line [] 20 p h in
    elim (Bool-cases (ltb (length tokens) 2)) [
      | inl e ↦
          rw e (process_until_delimiter-Processes text line n tokens q h' (omega (arith, b, bound)))
      | inr e ↦ rw e (
          create_processor-Processes text line n (suc (length tokens + length q.lexer.rest))
            (front_kind tokens) tokens q h' (omega (arith, b, bound)) (omega arith))
    ]
