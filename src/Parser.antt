-- ===== src/Parser.antt =====
-- The parser of internal/tengo/parser.go: its state, tokens and positions.
pub mod Skipping
pub mod NameClause
pub mod Definer
pub mod Next
pub mod Names
pub mod Sequences
pub mod Processors
pub mod Creates
pub mod Statements
pub mod Tokens
pub mod Lists
pub mod Processing
pub mod Creating
pub mod Complete
pub mod Unquote
pub mod Unclosed
use skeema.Prelude.{
  ℕ, zero, suc, ◌+◌, Bool, true, false, not, ◌&&◌, ◌||◌, List, [], ◌∷◌, ◌++◌, Option, none, some,
  Text, txt, if◌then◌else◌, is_empty, nat_beq, length, ◌-◌, Eq, discrete_eq, ◌==◌,
}
use skeema.Objects.{object_nil}
use skeema.Lexer.Runes.{decode_rune}
use skeema.Lexer.{
  TokenType, token_delimiter, token_filler, Lexer, LexError, end_of_input, malformed, Piece,
  new_lexer,
}
use skeema.Lexer.Scanning.{scan, ScanResult, scanned, scan_error}
use skeema.Statement.{Statement, statement_unknown}

TokenType-discrete : Discrete TokenType
TokenType-discrete = hlevel

instance unfoldable pub token_type_eq : Eq TokenType
unfolding TokenType-discrete
token_type_eq = discrete_eq TokenType-discrete

-- Token; the offset, a uint32 of the code, has no bound here.
pub record Token : Type 0 where
  pub val : Text
  pub typ : TokenType
  pub offset : ℕ

-- io.EOF, or a MalformedSQLError with its position. The last one is of the model: a loop was given
-- too few rounds.
pub data ParseError : Type 0 where
  eof : ParseError
  malformed_sql : (str file_path : Text) (line_number col_number : ℕ) → ParseError
  out_of_fuel : ParseError

-- parser. `error_line` and `error_col` are the position in the MalformedSQLError that the lexer
-- holds, which nextToken updates in place.
pub record Parser : Type 0 where
  pub lexer : Lexer
  pub stmt : Statement
  pub b : Text
  pub err : Option ParseError
  pub default_database : Text
  pub explicit_delimiter : Bool
  pub file_path : Text
  pub line_number : ℕ
  pub col_number : ℕ
  pub error_line : ℕ
  pub error_col : ℕ

-- &Statement{}
abbrev pub empty_statement : Statement
empty_statement = record {
  file = [];
  line_no = 0;
  char_no = 0;
  text = [];
  default_database = [];
  type = statement_unknown;
  object_type = object_nil;
  object_name = [];
  object_qualifier = [];
  delimiter = [];
  compound = false;
  name_clause = [];
}

-- newParser
abbrev pub new_parser : Text → Text → Text → Parser
new_parser r file_path delimiter = record {
  lexer = new_lexer r delimiter;
  stmt = empty_statement;
  b = [];
  err = none;
  default_database = [];
  explicit_delimiter = false;
  file_path = file_path;
  line_number = 1;
  col_number = 1;
  error_line = 0;
  error_col = 0;
}

-- utf8.RuneCountInString; `skip` bytes of the last rune are still to be passed
unfoldable pub rune_count : ℕ → Text → ℕ
unfolding decode_rune
rune_count skip [] = 0
rune_count (suc skip) (c ∷ s) = rune_count skip s
rune_count zero (c ∷ s) = suc (rune_count ((decode_rune (c ∷ s)).1 - 1) s)

unfoldable pub newline_count : Text → ℕ
newline_count [] = 0
newline_count (c ∷ s) = if nat_beq c b'\n' then suc (newline_count s) else newline_count s

-- What stands behind the last newline.
unfoldable pub last_line : Text → Option Text
last_line [] = none
last_line (c ∷ s) = elim (last_line s) [
  | some line ↦ some line
  | none ↦ if nat_beq c b'\n' then some s else none
]

unfoldable pub position_at : Parser → Option Text → ℕ × ℕ
unfolding rune_count newline_count
position_at p none = (p.line_number, p.col_number + rune_count 0 p.b)
position_at p (some line) = (p.line_number + newline_count p.b, 1 + rune_count 0 line)

-- positionAfterBuffer
unfoldable pub position_after_buffer : Parser → ℕ × ℕ
unfolding position_at last_line
position_after_buffer p = position_at p (last_line p.b)

abbrev is_malformed : Option LexError → Bool
is_malformed (some (malformed str)) = true
is_malformed (some end_of_input) = false
is_malformed none = false

abbrev parse_error : Parser → LexError → ParseError
parse_error p end_of_input = eof
parse_error p (malformed str) = malformed_sql str p.file_path p.error_line p.error_col

-- What nextToken does with a token from the lexer.
unfoldable pub take_piece : Parser → Piece → Lexer → Parser
unfolding position_after_buffer
take_piece p piece lex =
    let (line, col) = position_after_buffer p in
    record p {
      lexer = lex;
      b = p.b ++ piece.val;
      error_line = if is_malformed lex.err then line else p.error_line;
      error_col = if is_malformed lex.err then col else p.error_col;
    }

-- What nextToken makes of the result of Scan.
unfoldable pub token_of : Parser → ScanResult → Option Token × Parser
unfolding take_piece
token_of p (scan_error e lex) = (none, record p { lexer = lex; err = some (parse_error p e) })
token_of p (scanned piece lex) = (
  some (record { val = piece.val; typ = piece.typ; offset = length p.b }),
  take_piece p piece lex,
)

-- nextToken; `none` where it returns an error, which is then p.err
unfoldable pub next_token : Parser → Option Token × Parser
unfolding token_of
next_token p = elim p.err [ some e ↦ (none, p) | none ↦ token_of p (scan p.lexer) ]

abbrev pub has_type : TokenType → Token → Bool
has_type typ t = t.typ == typ

abbrev pub is_delimiter : Token → Bool
is_delimiter t = has_type token_delimiter t

-- The loops over nextToken: `step` takes a token and tells whether the loop ends with it.
module _ {S : Type 0} (step : S → Token → S × Bool) where
  unfoldable pub token_loop : ℕ → S → Parser → S × Parser
  unfolding next_token
  token_loop zero s p = (s, record p { err = some out_of_fuel })
  token_loop (suc fuel) s p =
      let (token, p') = next_token p in
      elim token [
        | none ↦ (s, p')
        | some t ↦
            let more = token_loop fuel (step s t).0 p' in
            if (step s t).1 then ((step s t).0, p') else more
      ]

  -- Every token takes a byte, so that there are enough rounds.
  unfoldable pub over_tokens : S → Parser → S × Parser
  unfolding token_loop
  over_tokens s p = token_loop (suc (length p.lexer.rest)) s p

-- finishStatement
unfoldable pub finish_statement : Parser → Statement × Parser
unfolding position_after_buffer
finish_statement p =
    let (line, col) = position_after_buffer p in
    (record p.stmt { text = p.b }, record p { b = []; line_number = line; col_number = col })
