-- ===== src/Parser/Tokens.antt =====
-- What every call of nextToken leaves as it is, and that the loops over it end.
use mathlib.Core.List.{append_assoc}
use skeema.Prelude.{
  ℕ, zero, suc, ◌+◌, ◌≤◌, ◌<◌, Bool, false, [], ◌∷◌, ◌++◌, Option, none, some, Text, ◌≡◌, refl, ap,
  ◌∙◌, sym, arith, inl, inr, Bool-cases, is_empty, length, length-append, if◌then◌else◌,
}
use skeema.Lexer.{Lexer, LexError, end_of_input, malformed, Piece}
use skeema.Lexer.Scanning.{ScanResult, scanned, scan_error, scan}
use skeema.Lexer.Lossless.{Scans, scan-Scans}
use skeema.Parser.{
  Token, Parser, ParseError, eof, malformed_sql, out_of_fuel, next_token, token_of, take_piece,
  parse_error, token_loop, over_tokens,
}

-- io.EOF is reported only where nothing is left, and no loop is given too few rounds.
abbrev pub ErrorIsTrue : Option ParseError → Text → Type 0
ErrorIsTrue none rest = Unit
ErrorIsTrue (some eof) rest = rest ≡ []
ErrorIsTrue (some (malformed_sql str file line col)) rest = Unit
ErrorIsTrue (some out_of_fuel) rest = ⊥

-- Within a statement: the buffered text and what is left are `text`, the position is still that of
-- the statement, and the delimiter is not empty.
pub record Holds (text : Text) (line : ℕ) (p : Parser) : Type 0 where
  pub all_text : p.b ++ p.lexer.rest ≡ text
  pub some_delimiter : is_empty p.lexer.delimiter ≡ false
  pub true_error : ErrorIsTrue p.err p.lexer.rest
  pub same_line : p.line_number ≡ line
  pub stmt_line : p.stmt.line_no ≡ line

-- After a call of nextToken in front of `before`.
abbrev pub AfterToken : Text → ℕ → Text → Option Token × Parser → Type 0
AfterToken text line before (none, q) =
    Holds text line q
    × (length q.lexer.rest ≤ length before)
    × (e : ParseError) × (q.err ≡ some e)
    × ErrorIsTrue q.err before
AfterToken text line before (some t, q) = Holds text line q × (length q.lexer.rest < length before)

take_piece-Holds :
    (text : Text) (line : ℕ) (p : Parser) (piece : Piece) (lex : Lexer)
    → Holds text line p
    → p.err ≡ none
    → piece.val ++ lex.rest ≡ p.lexer.rest
    → lex.delimiter ≡ p.lexer.delimiter
    → Holds text line (take_piece p piece lex)
unfolding take_piece
take_piece-Holds text line p piece lex h e cut same = record {
  all_text = append_assoc p.b piece.val lex.rest ∙ (ap (λ t. p.b ++ t) cut ∙ h.all_text);
  some_delimiter = ap is_empty same ∙ h.some_delimiter;
  true_error = rw e tt;
  same_line = h.same_line;
  stmt_line = h.stmt_line;
}

piece_takes : (v r p : Text) → v ++ r ≡ p → is_empty v ≡ false → length r < length p
piece_takes [] r p e h = cc
piece_takes (c ∷ v) r p e h =
    let total : length ((c ∷ v) ++ r) ≡ length p = ap length e in omega (arith, length-append v r)

parse_error-true :
    (p : Parser) (e : LexError) (rest : Text)
    → rest ≡ []
    → ErrorIsTrue (some (parse_error p e)) rest
parse_error-true p end_of_input rest left = left
parse_error-true p (malformed str) rest left = tt

token_of-Holds :
    (text : Text) (line : ℕ) (p : Parser) (r : ScanResult)
    → Holds text line p
    → p.err ≡ none
    → Scans p.lexer.delimiter p.lexer.rest r
    → AfterToken text line p.lexer.rest (token_of p r)
unfolding token_of
token_of-Holds text line p (scan_error e lex) h none_yet (nothing, left, same) = (
  record {
    all_text = ap (λ t. p.b ++ t) (left ∙ sym nothing) ∙ h.all_text;
    some_delimiter = ap is_empty same ∙ h.some_delimiter;
    true_error = parse_error-true p e lex.rest left;
    same_line = h.same_line;
    stmt_line = h.stmt_line;
  },
  rw left (omega arith),
  parse_error p e,
  refl,
  parse_error-true p e p.lexer.rest nothing,
)
token_of-Holds text line p (scanned piece lex) h none_yet (cut, same, some_byte) = (
  take_piece-Holds text line p piece lex h none_yet cut same,
  piece_takes piece.val lex.rest p.lexer.rest cut some_byte,
)

next_token_at :
    (text : Text) (line : ℕ) (p : Parser) (o : Option ParseError)
    → p.err ≡ o
    → Holds text line p
    → AfterToken text line p.lexer.rest (elim o as (λ x. Option Token × Parser) [
      | some e ↦ (none, p)
      | none ↦ token_of p (scan p.lexer)
    ])
next_token_at text line p (some err) e h = (h, omega arith, err, e, h.true_error)
next_token_at text line p none e h =
    token_of-Holds text line p (scan p.lexer) h e (scan-Scans p.lexer h.some_delimiter)

-- nextToken keeps the invariant; a token takes at least one byte, and where there is none p.err
-- is set.
pub next_token_lem :
    (text : Text) (line : ℕ) (p : Parser)
    → Holds text line p
    → AfterToken text line p.lexer.rest (next_token p)
unfolding next_token
next_token_lem text line p h = next_token_at text line p p.err refl h

module _ {S : Type 0} (step : S → Token → S × Bool) (size : S → ℕ) where
  -- The loop keeps the invariant, and what its state has grown by has been read.
  abbrev LoopKeeps : Text → ℕ → ℕ → S × Parser → Type 0
  LoopKeeps text line n (s, q) = Holds text line q × (size s + length q.lexer.rest ≤ n)

  loop_step :
      (text : Text) (line fuel : ℕ) (s : S) (p : Parser) (r : Option Token × Parser)
      → ((s : S) (t : Token) → size (step s t).0 ≤ suc (size s))
      → AfterToken text line p.lexer.rest r
      → length p.lexer.rest < suc fuel
      → ((s : S) (q : Parser)
          → Holds text line q
          → length q.lexer.rest < fuel
          → LoopKeeps text line (size s + length q.lexer.rest) (token_loop step fuel s q))
      → LoopKeeps text line (size s + length p.lexer.rest) (elim r.0 as (λ o. S × Parser) [
        | none ↦ (s, r.1)
        | some t ↦
            let more = token_loop step fuel (step s t).0 r.1 in
            if (step s t).1 then ((step s t).0, r.1) else more
      ])
  loop_step text line fuel s p (none, q) grow (h, shorter, _, _, _) bound ih = (h, omega arith)
  loop_step text line fuel s p (some t, q) grow (h, shorter) bound ih =
      elim (Bool-cases (step s t).1) [
        | inl e ↦ rw e (h, omega (arith, grow s t))
        | inr e ↦
            let more = ih (step s t).0 q h (omega arith) in
            rw e (more.0, omega (arith, grow s t, more.1))
      ]

  token_loop-Holds :
      (text : Text) (line fuel : ℕ) (s : S) (p : Parser)
      → ((s : S) (t : Token) → size (step s t).0 ≤ suc (size s))
      → Holds text line p
      → length p.lexer.rest < fuel
      → LoopKeeps text line (size s + length p.lexer.rest) (token_loop step fuel s p)
  unfolding token_loop
  token_loop-Holds text line zero s p grow h bound = absurd (omega arith)
  token_loop-Holds text line (suc fuel) s p grow h bound =
      loop_step text line fuel s p (next_token p) grow (next_token_lem text line p h) bound
        (λ s' q h' bound'. token_loop-Holds text line fuel s' q grow h' bound')

  pub over_tokens-Holds :
      (text : Text) (line : ℕ) (s : S) (p : Parser)
      → ((s : S) (t : Token) → size (step s t).0 ≤ suc (size s))
      → Holds text line p
      → LoopKeeps text line (size s + length p.lexer.rest) (over_tokens step s p)
  unfolding over_tokens
  over_tokens-Holds text line s p grow h =
      token_loop-Holds text line (suc (length p.lexer.rest)) s p grow h (omega arith)
