-- ===== src/Lexer/Words.antt =====
-- The loops of scanString, and of Scan over words and numbers, of internal/tengo/lexer.go.
use skeema.Prelude.{
  ℕ, zero, suc, Bool, true, false, not, ◌&&◌, ◌||◌, [], ◌∷◌, Option, none, some, Text,
  if◌then◌else◌, ltb, nat_beq, is_digit, has_prefix,
}
use skeema.Lexer.Runes.{is_word, is_space, is_space_rune, decode_rune}
use skeema.Lexer.{
  Piece, TokenType, delim_tricky, piece_at, token_numeric, token_symbol, token_word, with_byte,
}

-- The loop of scanString behind the opening quote `c`. The flag is `done`.
unfoldable pub string_loop : ℕ → Bool → TokenType → Text → Piece × Bool
string_loop c skip_next typ [] = (record { typ = typ; val = []; rest = [] }, false)
string_loop c true typ (b ∷ q) =
    let (piece, done) = string_loop c false typ q in (with_byte b piece, done)
string_loop c false typ (b ∷ []) = (
  record { typ = typ; val = b ∷ []; rest = [] },
  not (nat_beq b b'\\' && not (nat_beq c b'`')) && nat_beq b c,
)
string_loop c false typ (b ∷ d ∷ q) =
    let backslash = nat_beq b b'\\' && not (nat_beq c b'`') in
    let (piece, done) = string_loop c (backslash || nat_beq b c) typ (d ∷ q) in
    if not backslash && nat_beq b c && not (nat_beq d c)
    then (record { typ = typ; val = b ∷ []; rest = d ∷ q }, true)
    else (with_byte b piece, done)

-- Where the token stands in its number: sawDecimalPoint and sawE.
pub record WordState : Type 0 where
  pub typ : TokenType
  pub saw_decimal_point : Bool
  pub saw_e : Bool

abbrev is_numeric : TokenType → Bool
is_numeric token_numeric = true
is_numeric _ = false

abbrev digit_at_front : Text → Bool
digit_at_front [] = false
digit_at_front (c ∷ s) = is_digit c

abbrev minus_at_front : Text → Bool
minus_at_front [] = false
minus_at_front (c ∷ s) = nat_beq c b'-'

-- One byte below 128 in the loop of Scan over a word or number: the state after it and the bytes
-- that it takes. `none` is a break.
ascii_step : WordState → ℕ → Text → Option (WordState × ℕ)
unfolding is_space is_word
ascii_step st b q =
    let numeric = is_numeric st.typ in
    if is_space b
    then none
    else if nat_beq b b'.'
    then (if not numeric || st.saw_decimal_point || st.saw_e || not (digit_at_front q)
        then none
        else some (record st { saw_decimal_point = true }, 1))
    else if not (is_word b)
    then none
    else if numeric && not (is_digit b)
    then (if (nat_beq b b'e' || nat_beq b b'E')
          && not st.saw_e
          && (minus_at_front q || digit_at_front q)
        then some (record st { saw_e = true }, 2)
        else if st.saw_decimal_point
        then none
        else some (record st { typ = token_word }, 1))
    else some (st, 1)

unfoldable pub word_step : WordState → ℕ → Text → Option (WordState × ℕ)
unfolding ascii_step decode_rune is_space_rune
word_step st b q =
    let (r, size) = decode_rune (b ∷ q) in
    if ltb b 128
    then ascii_step st b q
    else if ltb 3 size || is_space_rune r
    then none
    else if is_numeric st.typ
    then (if st.saw_decimal_point then none else some (record st { typ = token_word }, size))
    else some (st, size)

-- The loop itself; `skip` bytes of the last rune are still to be passed.
unfoldable pub word_loop : Text → ℕ → WordState → Text → Piece
unfolding word_step delim_tricky has_prefix
word_loop delim skip st [] = record { typ = st.typ; val = []; rest = [] }
word_loop delim (suc skip) st (b ∷ q) = with_byte b (word_loop delim skip st q)
word_loop delim zero st (b ∷ q) = elim (word_step st b q) [
  | some (st', suc n) ↦
      let further = with_byte b (word_loop delim n st' q) in
      if delim_tricky delim && has_prefix (b ∷ q) delim
      then record { typ = st'.typ; val = []; rest = b ∷ q }
      else further
  | _ ↦ record { typ = st.typ; val = []; rest = b ∷ q }
]

-- The type that the first rune gives, its size, and sawDecimalPoint.
unfoldable pub first_rune : ℕ → Text → TokenType × ℕ × Bool
unfolding is_word decode_rune
first_rune a s =
    let size = (decode_rune (a ∷ s)).1 in
    if ltb a 128
    then (if is_digit a
        then (token_numeric, 1, false)
        else if nat_beq a b'.'
        then (if digit_at_front s then (token_numeric, 1, true) else (token_symbol, 1, false))
        else if not (is_word a)
        then (token_symbol, 1, false)
        else (token_word, 1, false))
    else if ltb 3 size
    then (token_symbol, size, false)
    else (token_word, size, false)

-- What Scan does from the first rune of a symbol, word or number on.
unfoldable pub rune_piece : Text → ℕ → Text → TokenType × ℕ × Bool → Piece
unfolding word_loop
rune_piece delim a s (token_symbol, size, saw) = piece_at token_symbol size (a ∷ s)
rune_piece delim a s (typ, size, saw) =
    word_loop delim size (record { typ = typ; saw_decimal_point = saw; saw_e = false }) (a ∷ s)
