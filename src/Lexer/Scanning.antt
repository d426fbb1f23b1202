-- ===== src/Lexer/Scanning.antt =====
-- Lexer.Scan and Lexer.ScanBOM of internal/tengo/lexer.go.
use skeema.Prelude.{
  ℕ, ◌+◌, Bool, true, false, not, ◌&&◌, ◌||◌, [], ◌∷◌, ◌++◌, Option, none, some, Text, txt,
  if◌then◌else◌, ltb, leb, nat_beq, has_prefix, drop, length,
}
use skeema.Lexer.{
  LexError, Lexer, Piece, end_of_input, malformed, newline_len, piece_at, token_delimiter,
  token_ident, token_string, with_byte,
}
use skeema.Lexer.Filler.{filler_loop, is_filler, no_needle}
use skeema.Lexer.Words.{first_rune, rune_piece, string_loop}

pub data ScanResult : Type 0 where
  scanned : Piece → Lexer → ScanResult
  scan_error : LexError → Lexer → ScanResult

abbrev pub scanned_piece : Piece → Lexer → ScanResult
scanned_piece piece lex = scanned piece (record lex { rest = piece.rest })

abbrev pub is_quote : ℕ → Bool
is_quote c = nat_beq c b'\'' || nat_beq c b'"' || nat_beq c b'`'

-- scanFiller
unfoldable pub scan_filler : Lexer → Text → ScanResult
unfolding filler_loop
scan_filler lex p =
    let (piece, open_comment) = filler_loop lex.command_mode 0 no_needle p in
    let err =
      if open_comment
      then some (malformed (txt "Comment starting with /* is never closed"))
      else lex.err in
    scanned_piece piece (record lex { prev_token_filler = true; err = err })

abbrev pub missing_quote : ℕ → LexError
missing_quote c =
    malformed (
      (if nat_beq c b'`' then txt "Identifier" else txt "String")
      ++ txt " is missing closing quote")

-- A missing quote is reported unless an error other than io.EOF stands.
unfoldable pub string_error : Option LexError → ℕ → Option LexError
string_error (some (malformed str)) c = some (malformed str)
string_error (some end_of_input) c = some (missing_quote c)
string_error none c = none

-- scanString
unfoldable pub scan_string : Lexer → ℕ → Text → ScanResult
unfolding string_loop string_error
scan_string lex c s =
    let (piece, done) =
      string_loop c false (if nat_beq c b'`' then token_ident else token_string) s in
    scanned_piece (with_byte c piece)
      (record lex { err = if done then lex.err else string_error lex.err c })

-- Scan behind the check for filler.
unfoldable pub scan_token : Lexer → ℕ → Text → ScanResult
unfolding has_prefix newline_len scan_string rune_piece first_rune
scan_token lex a s =
    let n = length lex.delimiter in
    if has_prefix (a ∷ s) lex.delimiter
    then scanned_piece (piece_at token_delimiter (n + newline_len (drop n (a ∷ s))) (a ∷ s))
        (record lex { command_mode = false })
    else if is_quote a
    then scan_string lex a s
    else scanned_piece (rune_piece lex.delimiter a s (first_rune a s)) lex

abbrev pub is_some {ℓ} : {A : Type ℓ} → Option A → Bool
is_some none = false
is_some (some x) = true

-- The error that the reader's end sets, unless one is set already.
abbrev pub at_end : Option LexError → LexError
at_end none = end_of_input
at_end (some e) = e

unfoldable pub scan_rest : Lexer → Text → ScanResult
unfolding newline_len is_filler scan_filler scan_token
scan_rest lex [] =
    scan_error (at_end lex.err) (record lex { rest = []; err = some (at_end lex.err) })
scan_rest lex (a ∷ s) =
    let lex' = record lex { err = some (at_end lex.err) } in
    if lex.command_mode && ltb 0 (newline_len (a ∷ s))
    then scanned_piece (piece_at token_delimiter (newline_len (a ∷ s)) (a ∷ s))
        (record lex' { command_mode = false; prev_token_filler = false })
    else if not lex.prev_token_filler && is_some (is_filler (a ∷ s))
    then scan_filler lex' (a ∷ s)
    else scan_token (record lex' { prev_token_filler = false }) a s

-- Lexer.Scan
unfoldable pub scan : Lexer → ScanResult
unfolding scan_rest
scan lex = scan_rest lex lex.rest

-- ScanBOM: whether a byte-order marker was read, and the lexer after it
unfoldable pub scan_bom : Lexer → Bool × Lexer
unfolding has_prefix
scan_bom lex =
    if has_prefix lex.rest (0xEF ∷ 0xBB ∷ 0xBF ∷ [])
    then (true, record lex { rest = drop 3 lex.rest; err = none })
    else (false, record lex { err = if leb (length lex.rest) 0 then some end_of_input else none })
