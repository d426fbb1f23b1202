-- ===== src/Parser/Unquote.antt =====
-- The parser takes off the quotes that EscapeIdentifier puts on.
use skeema.Prelude.{
  ℕ, ◌-◌, false, [], ◌∷◌, ◌++◌, Option, none, some, Text, txt, ◌≡◌, ◌≢◌, refl, ap, ◌∙◌, arith, inl,
  inr, Bool-cases, length, length-append, nat_beq, ltb, replace_byte, has_prefix, has_suffix-append,
  take-append, is_empty,
}
use skeema.Escape.{escape_identifier}
use skeema.Escape.Laws.{StartsWithout}
use skeema.Lexer.{token_ident, Piece}
use skeema.Lexer.Scanning.{scan, at_end}
use skeema.Lexer.Quoted.{scan-escape_identifier}
use skeema.Parser.{Token, Parser, next_token, token_of, take_piece, token_type_eq}
use skeema.Parser.Names.{replace_two, strip_backticks, get_name_from_token}

replace_two_other :
    (c : ℕ) (s : Text) → c ≢ b'`' → replace_two b'`' b'`' (c ∷ s) ≡ c ∷ replace_two b'`' b'`' s
unfolding replace_two
replace_two_other c [] h = refl
replace_two_other c (d ∷ s) h = ground arith

replace_two-replace_byte : (s : Text) → replace_two b'`' b'`' (replace_byte s b'`' (txt "``")) ≡ s
unfolding replace_byte replace_two
replace_two-replace_byte [] = refl
replace_two-replace_byte (c ∷ s) = elim (Bool-cases (nat_beq c b'`')) [
  | inl e ↦ rw e (ground (arith, replace_two-replace_byte s))
  | inr e ↦ rw e (
      replace_two_other c (replace_byte s b'`' (txt "``")) (ground arith)
      ∙ ap (◌∷◌ c) (replace_two-replace_byte s))
]

-- Whatever bytes a name holds, stripBackticks gives it back from what EscapeIdentifier makes of it.
pub strip_backticks-escape_identifier :
    (name : Text) → strip_backticks (escape_identifier name) ≡ name
unfolding strip_backticks escape_identifier
strip_backticks-escape_identifier name =
    let body = replace_byte name b'`' (txt "``") in
    let long : ltb (length (b'`' ∷ (body ++ txt "`"))) 2 ≡ false =
      ground (arith, length-append body (txt "`")) in
    let size : length (b'`' ∷ (body ++ txt "`")) - 2 ≡ length body =
      omega (arith, length-append body (txt "`")) in
    rw (long, has_suffix-append (b'`' ∷ body) (txt "`"), size, take-append body (txt "`"))
      (replace_two-replace_byte name)

quoted_token_name :
    (name : Text) (offset : ℕ)
    → is_empty name ≡ false
    → get_name_from_token
        (record { val = escape_identifier name; typ = token_ident; offset = offset })
      ≡ some name
unfolding get_name_from_token token_type_eq
quoted_token_name name offset h = simp (strip_backticks-escape_identifier name, h)

next_token_fine : (p : Parser) → p.err ≡ none → next_token p ≡ token_of p (scan p.lexer)
unfolding next_token
next_token_fine p e =
    ap
      (λ o. elim o as (λ x. Option Token × Parser) [
        | some err ↦ (none, p)
        | none ↦ token_of p (scan p.lexer)
      ])
      e

-- The parser in front of a name that is not empty, written by EscapeIdentifier, with no backtick
-- behind it and no delimiter in front of it, and with no error so far: nextToken takes all of that
-- text and no more, and getNameFromToken gives the name.
pub next_token_reads_quoted_name :
    (p : Parser) (name rest : Text)
    → p.err ≡ none
    → p.lexer.rest ≡ escape_identifier name ++ rest
    → StartsWithout b'`' rest
    → has_prefix p.lexer.rest p.lexer.delimiter ≡ false
    → is_empty name ≡ false
    → (t : Token) × (q : Parser) × (next_token p ≡ (some t, q))
      × (get_name_from_token t ≡ some name)
      × (q.lexer.rest ≡ rest)
      × (q.b ≡ p.b ++ escape_identifier name)
unfolding token_of take_piece
next_token_reads_quoted_name p name rest fine text behind d some_name =
    let piece : Piece = record { typ = token_ident; val = escape_identifier name; rest = rest } in
    let lex = record p.lexer {
      rest = rest;
      err = some (at_end p.lexer.err);
      prev_token_filler = false;
    } in
    let read = scan-escape_identifier p.lexer name rest text behind d in
    (
      record { val = escape_identifier name; typ = token_ident; offset = length p.b },
      take_piece p piece lex,
      next_token_fine p fine ∙ ap (token_of p) read,
      quoted_token_name name (length p.b) some_name,
      refl,
      refl,
    )
