-- ===== src/Parser/Creates.antt =====
-- The processors of CREATE statements, of internal/tengo/parser.go.
use skeema.Prelude.{
  ℕ, zero, suc, ◌+◌, Bool, true, false, not, ◌&&◌, ◌||◌, List, [], ◌∷◌, Option, none, some, Text,
  txt, if◌then◌else◌, ltb, length, drop, to_lower, text_eq, ◌==◌,
}
use skeema.Objects.{ObjectType, object_nil, object_table, object_proc, object_func}
use skeema.Lexer.{token_word, token_symbol}
use skeema.Parser.{
  Token, Parser, ParseError, out_of_fuel, malformed_sql, has_type, is_delimiter, token_type_eq,
  over_tokens, finish_statement,
}
use skeema.Parser.Sequences.{
  Match, found_match, matched_tokens, next_tokens, match_next_sequence, skip_until_sequence,
}
use skeema.Parser.Processors.{
  Processed, process_until_delimiter, parse_object_name_clause, set_create, finish,
}

abbrev pub select_error : Parser → ParseError
select_error p =
    malformed_sql (txt "Statements of the form CREATE TABLE...SELECT are not supported") p.file_path
      p.line_number p.col_number

-- processCreateTable
unfoldable pub process_create_table : List Token → Parser → Processed
unfolding match_next_sequence parse_object_name_clause skip_until_sequence process_until_delimiter
process_create_table tokens p =
    let (exists, p1) = match_next_sequence (drop 1 tokens) (txt "if not exists" ∷ []) p in
    let (named, p2) = parse_object_name_clause exists.leftovers p1 in
    let (select, p3) = skip_until_sequence named (txt "select" ∷ []) (set_create object_table p2) in
    if found_match select
    then process_until_delimiter select.leftovers (record p3 { err = some (select_error p3) })
    else process_until_delimiter select.leftovers p3

-- What the loop of processStoredProgram knows: compound, and whether it has stopped.
pub record Body : Type 0 where
  pub compound : Bool
  pub stopped : Bool

abbrev pub is_begin : Token → Bool
unfolding text_eq token_type_eq
is_begin t = has_type token_word t && to_lower t.val == txt "begin"

unfoldable pub body_step : Bool → Body → Token → Body × Bool
unfolding token_type_eq text_eq
body_step explicit_delimiter body t =
    let stop = is_delimiter t && (explicit_delimiter || not body.compound) in
    if stop
    then (record body { stopped = true }, true)
    else (record { compound = body.compound || is_begin t; stopped = false }, false)

-- The rounds of the loop over the tokens at hand.
unfoldable pub body_over : Bool → Body → List Token → Body
unfolding body_step
body_over explicit_delimiter body [] = body
body_over explicit_delimiter body (t ∷ tokens) =
    let (body', stop) = body_step explicit_delimiter body t in
    let more = body_over explicit_delimiter body' tokens in if stop then body' else more

abbrev pub with_compound : Bool → Processed → Processed
with_compound compound r = record {
  stmt = record r.stmt { compound = compound };
  err = r.err;
  parser = r.parser;
}

-- processStoredProgram
unfoldable pub process_stored_program : List Token → Parser → Processed
unfolding body_over body_step over_tokens finish_statement
process_stored_program tokens p =
    let body =
      body_over p.explicit_delimiter (record { compound = false; stopped = false }) tokens in
    let (body', q) = over_tokens (body_step p.explicit_delimiter) body p in
    if body.stopped
    then with_compound body.compound (finish none p)
    else with_compound body'.compound (finish q.err q)

-- ObjectType(strings.ToLower(matched[0].val)) for one of the two words
unfoldable pub routine_type : List Token → ObjectType
unfolding text_eq
routine_type [] = object_nil
routine_type (t ∷ tokens) = if to_lower t.val == txt "procedure" then object_proc else object_func

-- processCreateRoutine
unfoldable pub process_create_routine : List Token → Parser → Processed
unfolding match_next_sequence parse_object_name_clause process_until_delimiter
    process_stored_program routine_type
process_create_routine tokens p =
    let (kind, p1) = match_next_sequence tokens (txt "procedure" ∷ txt "function" ∷ []) p in
    let (exists, p2) = match_next_sequence kind.leftovers (txt "if not exists" ∷ []) p1 in
    let (named, p3) = parse_object_name_clause exists.leftovers p2 in
    if found_match kind
    then process_stored_program named (set_create (routine_type (matched_tokens kind)) p3)
    else process_until_delimiter kind.leftovers p1

-- The keys of createProcessors.
pub data CreateKind : Type 0 where
  create_table create_routine create_definer create_other : CreateKind

-- createProcessors at a word
unfoldable pub create_kind : Text → CreateKind
unfolding text_eq
create_kind word =
    if word == txt "table"
    then create_table
    else if word == txt "function" || word == txt "procedure"
    then create_routine
    else if word == txt "definer"
    then create_definer
    else create_other

unfoldable pub front_kind : List Token → CreateKind
unfolding create_kind token_type_eq
front_kind [] = create_other
front_kind (t ∷ tokens) =
    if has_type token_word t then create_kind (to_lower t.val) else create_other

-- user @ host
unfoldable pub user_at_host : List Token → Option (List Token)
unfolding text_eq token_type_eq
user_at_host (t ∷ u ∷ v ∷ w ∷ tokens) =
    if has_type token_symbol u && u.val == txt "@" then some (w ∷ tokens) else none
user_at_host _ = none

-- The DEFINER clause of processCreateWithDefiner: the tokens behind it, or the tokens at which the
-- statement cannot be parsed.
pub data DefinerClause : Type 0 where
  parsed not_parsed : List Token → DefinerClause

abbrev pub parsed_or : List Token → Option (List Token) → DefinerClause
parsed_or tokens none = not_parsed tokens
parsed_or tokens (some more) = parsed more

unfoldable pub definer_value : Match → DefinerClause
unfolding user_at_host
definer_value value =
    if found_match value
    then parsed value.leftovers
    else parsed_or value.leftovers (user_at_host value.leftovers)

unfoldable pub definer_clause : List Token → Parser → DefinerClause × Parser
unfolding next_tokens match_next_sequence definer_value
definer_clause tokens p =
    let (tokens', p1) = next_tokens tokens 6 p in
    let (definer, p2) = match_next_sequence tokens' (txt "definer =" ∷ []) p1 in
    let (value, p3) =
      match_next_sequence definer.leftovers (txt "current_user" ∷ txt "current_user ( )" ∷ []) p2 in
    if ltb (length tokens') 4
    then (not_parsed tokens', p1)
    else if found_match definer
    then (definer_value value, p3)
    else (not_parsed definer.leftovers, p2)

-- A processor of createProcessors, or processUntilDelimiter. A DEFINER clause may follow another
-- one; each takes tokens.
unfoldable pub create_processor : ℕ → CreateKind → List Token → Parser → Processed
unfolding process_create_table process_create_routine process_until_delimiter definer_clause
    front_kind finish_statement
create_processor fuel create_table tokens p = process_create_table tokens p
create_processor fuel create_routine tokens p = process_create_routine tokens p
create_processor fuel create_other tokens p = process_until_delimiter tokens p
create_processor zero create_definer tokens p = finish (some out_of_fuel) p
create_processor (suc fuel) create_definer tokens p =
    let (clause, q) = definer_clause tokens p in
    elim clause [
      | not_parsed tokens' ↦ process_until_delimiter tokens' q
      | parsed tokens' ↦ create_processor fuel (front_kind tokens') tokens' q
    ]

-- processCreateStatement
unfoldable pub process_create_statement : Parser → Processed
unfolding next_tokens create_processor front_kind process_until_delimiter
process_create_statement p =
    let (tokens, q) = next_tokens [] 20 p in
    if ltb (length tokens) 2
    then process_until_delimiter tokens q
    else create_processor (suc (length tokens + length q.lexer.rest)) (front_kind tokens) tokens q
