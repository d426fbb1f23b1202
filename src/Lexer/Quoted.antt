-- ===== src/Lexer/Quoted.antt =====
-- The lexer reads an identifier that EscapeIdentifier wrote as one token.
use skeema.Prelude.{
  and_false, ℕ, true, false, not, [], ◌∷◌, ◌++◌, none, some, Text, txt, ◌≡◌, ◌≢◌, refl, ap, ◌∙◌,
  sym, arith, inl, inr, Bool-cases, replace_byte, has_prefix, nat_beq,
}
use skeema.Escape.{escape_identifier}
use skeema.Escape.Laws.{StartsWithout, quoted_body}
use skeema.Lexer.Runes.{is_space}
use skeema.Lexer.{TokenType, token_ident, Lexer, Piece, with_byte, newline_len}
use skeema.Lexer.Filler.{is_filler, two_bytes}
use skeema.Lexer.Words.{string_loop}
use skeema.Lexer.Scanning.{scanned, scan_string, scan_token, scan_rest, scan, at_end}

-- A byte that is no backtick is passed.
string_loop_other :
    (typ : TokenType) (b d : ℕ) (q : Text)
    → b ≢ b'`'
    → string_loop b'`' false typ (b ∷ d ∷ q)
      ≡ (with_byte b (string_loop b'`' false typ (d ∷ q)).0, (string_loop b'`' false typ (d ∷ q)).1)
unfolding string_loop
string_loop_other typ b d q h = ground arith

abbrev Reads : TokenType → Text → Text → Text → Type 0
Reads typ p val rest =
    string_loop b'`' false typ p ≡ (record { typ = typ; val = val; rest = rest }, true)

-- The same, where what follows is known to be read.
pass_byte :
    (typ : TokenType) (b : ℕ) (q val rest : Text)
    → b ≢ b'`'
    → Reads typ q val rest
    → Reads typ (b ∷ q) (b ∷ val) rest
unfolding string_loop
pass_byte typ b [] val rest h r = absurd (cc)
pass_byte typ b (d ∷ q) val rest h r = string_loop_other typ b d q h ∙ rw r refl

pass_doubled :
    (typ : TokenType) (q val rest : Text)
    → Reads typ q val rest
    → Reads typ (b'`' ∷ b'`' ∷ q) (b'`' ∷ b'`' ∷ val) rest
unfolding string_loop
pass_doubled typ q val rest r = rw r refl

pass_closing :
    (typ : TokenType) (rest : Text)
    → StartsWithout b'`' rest
    → Reads typ (b'`' ∷ rest) (txt "`") rest
unfolding string_loop
pass_closing typ [] h = refl
pass_closing typ (c ∷ rest) h = ground arith

pub string_loop-replace :
    (typ : TokenType) (s rest : Text)
    → StartsWithout b'`' rest
    → Reads typ
        (replace_byte s b'`' (txt "``") ++ (b'`' ∷ rest))
        (replace_byte s b'`' (txt "``") ++ txt "`")
        rest
unfolding replace_byte
string_loop-replace typ [] rest h = pass_closing typ rest h
string_loop-replace typ (c ∷ s) rest h = elim (Bool-cases (nat_beq c b'`')) [
  | inl e ↦ rw e (pass_doubled typ _ _ rest (string_loop-replace typ s rest h))
  | inr e ↦ rw e (pass_byte typ c _ _ rest (ground arith) (string_loop-replace typ s rest h))
]

quote_is_filler : (s : Text) → is_filler (b'`' ∷ s) ≡ none
unfolding is_filler two_bytes is_space
quote_is_filler [] = refl
quote_is_filler (c ∷ s) = refl

quote_newline : (s : Text) → newline_len (b'`' ∷ s) ≡ 0
unfolding newline_len
quote_newline [] = refl
quote_newline (c ∷ s) = refl

scan_rest_quote :
    (lex : Lexer) (q : Text) (piece : Piece)
    → has_prefix (b'`' ∷ q) lex.delimiter ≡ false
    → string_loop b'`' false token_ident q ≡ (piece, true)
    → scan_rest lex (b'`' ∷ q)
      ≡ scanned
          (with_byte b'`' piece)
          (record lex { rest = piece.rest; err = some (at_end lex.err); prev_token_filler = false })
unfolding scan_rest scan_token scan_string
scan_rest_quote lex q piece d r = simp (
  quote_newline q,
  quote_is_filler q,
  and_false lex.command_mode,
  and_false (not lex.prev_token_filler),
  d,
  r,
)

-- Lexer.Scan in front of an identifier that EscapeIdentifier wrote, of whatever bytes, with no
-- backtick behind it and no delimiter in front of it: the token is that identifier, all of it and
-- no more, its type is TokenIdent, and the reader stands behind it.
pub scan-escape_identifier :
    (lex : Lexer) (name rest : Text)
    → lex.rest ≡ escape_identifier name ++ rest
    → StartsWithout b'`' rest
    → has_prefix lex.rest lex.delimiter ≡ false
    → scan lex
      ≡ scanned
          (record { typ = token_ident; val = escape_identifier name; rest = rest })
          (record lex { rest = rest; err = some (at_end lex.err); prev_token_filler = false })
unfolding scan escape_identifier
scan-escape_identifier lex name rest e h d =
    let body = replace_byte name b'`' (txt "``") in
    let text : lex.rest ≡ b'`' ∷ (body ++ (b'`' ∷ rest)) = e ∙ quoted_body name rest in
    let piece : Piece = record { typ = token_ident; val = body ++ txt "`"; rest = rest } in
    ap (scan_rest lex) text
    ∙ scan_rest_quote lex (body ++ (b'`' ∷ rest)) piece
        (ap (λ t. has_prefix t lex.delimiter) (sym text) ∙ d)
        (string_loop-replace token_ident name rest h)
