-- ===== src/Lexer.antt =====
-- The lexer of internal/tengo/lexer.go, on what is left of its input: the reader has been read to
-- its end, so that the bytes at hand are all that follow. That is so from the first Scan on if the
-- input is shorter than half the buffer.
pub mod Unclosed
pub mod Forward
pub mod Scanning
pub mod Words
pub mod Filler
pub mod Runes
pub mod Pieces
pub mod Lossless
pub mod Quoted
use skeema.Prelude.{
  ℕ, zero, suc, ◌+◌, ◌-◌, Bool, true, false, not, ◌&&◌, ◌||◌, List, [], ◌∷◌, ◌++◌, Option, none,
  some, Text, txt, if◌then◌else◌, ltb, leb, nat_beq, is_digit, has_prefix, take, drop, length,
}
use skeema.Lexer.Runes.{is_word, is_space, is_space_rune, decode_rune}

-- TokenNone, which no token has, is left out.
pub data TokenType : Type 0 where
  token_word token_ident token_string token_numeric token_symbol token_ext_comment token_delimiter
        token_filler :
      TokenType

-- io.EOF, or a MalformedSQLError with its text.
pub data LexError : Type 0 where
  end_of_input : LexError
  malformed : (str : Text) → LexError

-- `rest` is what the reader still holds.
pub record Lexer : Type 0 where
  pub rest : Text
  pub err : Option LexError
  pub delimiter : Text
  pub command_mode : Bool
  pub prev_token_filler : Bool

-- A token, and what follows it.
pub record Piece : Type 0 where
  pub typ : TokenType
  pub val : Text
  pub rest : Text

abbrev pub piece_at : TokenType → ℕ → Text → Piece
piece_at typ n p = record { typ = typ; val = take n p; rest = drop n p }

-- One more byte in front of the token.
abbrev pub with_byte : ℕ → Piece → Piece
with_byte b piece = record { typ = piece.typ; val = b ∷ piece.val; rest = piece.rest }

-- delimTricky
unfoldable pub delim_tricky : Text → Bool
unfolding is_word
delim_tricky [] = false
delim_tricky (b ∷ delim) = leb 128 b || is_word b || nat_beq b b'-' || nat_beq b b'.'

-- ChangeDelimiter
abbrev pub change_delimiter : Lexer → Text → Lexer
change_delimiter lex new_delimiter = record lex { delimiter = new_delimiter }

-- NewLexer
unfoldable pub new_lexer : Text → Text → Lexer
new_lexer r delimiter = record {
  rest = r;
  err = none;
  delimiter = delimiter;
  command_mode = false;
  prev_token_filler = false;
}

-- The length of an LF or a CRLF at the front.
unfoldable pub newline_len : Text → ℕ
newline_len [] = 0
newline_len (c ∷ []) = if nat_beq c b'\n' then 1 else 0
newline_len (c ∷ d ∷ s) =
    if nat_beq c b'\n' then 1 else if nat_beq c b'\r' && nat_beq d b'\n' then 2 else 0
