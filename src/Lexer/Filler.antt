-- ===== src/Lexer/Filler.antt =====
-- Whitespace and comments: isFiller and scanFiller's loop, of internal/tengo/lexer.go.
use skeema.Prelude.{
  ℕ, zero, suc, Bool, true, false, ◌&&◌, [], ◌∷◌, Option, none, some, Text, if◌then◌else◌, ltb, leb,
  nat_beq,
}
use skeema.Lexer.Runes.{is_space, is_space_rune, decode_rune}
use skeema.Lexer.{Piece, newline_len, token_filler, with_byte}

-- closerNeedle
pub data Needle : Type 0 where
  no_needle needle_newline needle_close_comment : Needle

-- The case of `--`: a space must follow, or nothing.
unfoldable pub dash_comment : Text → Option (ℕ × Needle)
unfolding is_space_rune decode_rune
dash_comment [] = some (2, needle_newline)
dash_comment (c ∷ s) =
    if is_space_rune (decode_rune (c ∷ s)).0 then some (2, needle_newline) else none

unfoldable pub two_bytes : ℕ → Text → Option (ℕ × Needle)
unfolding dash_comment
two_bytes a [] = none
two_bytes a (b ∷ s) =
    if nat_beq a b'-' && nat_beq b b'-'
    then dash_comment s
    else if nat_beq a b'/' && nat_beq b b'*'
    then some (2, needle_close_comment)
    else none

-- isFiller: `none` where ok is false
unfoldable pub is_filler : Text → Option (ℕ × Needle)
unfolding two_bytes is_space is_space_rune decode_rune
is_filler [] = none
is_filler (a ∷ s) =
    let (r, size) = decode_rune (a ∷ s) in
    if leb 128 a
    then (if is_space_rune r then some (size, no_needle) else none)
    else if is_space a
    then some (1, no_needle)
    else if nat_beq a b'#'
    then some (1, needle_newline)
    else two_bytes a s

-- bytes.Index(p, closer) + len(closer), or all of p if the closer is not in it
unfoldable pub through_close_comment : Text → ℕ × Bool
through_close_comment [] = (0, false)
through_close_comment (a ∷ []) = (1, false)
through_close_comment (a ∷ b ∷ s) =
    let later = through_close_comment (b ∷ s) in
    if nat_beq a b'*' && nat_beq b b'/' then (2, true) else (suc later.0, later.1)

-- The same for a newline, which stays outside in command mode.
unfoldable pub through_newline : Bool → Text → ℕ × Bool
through_newline command_mode [] = (0, false)
through_newline command_mode (a ∷ s) =
    let later = through_newline command_mode s in
    if nat_beq a b'\n' then ((if command_mode then 0 else 1), true) else (suc later.0, later.1)

abbrev closes : ℕ × Bool → Needle → Option (ℕ × Needle)
closes (n, found) closer = some (n, if found then no_needle else closer)

-- One round of the loop of scanFiller: how far `n` moves, and the closer after it. `none` is its
-- break.
unfoldable pub filler_step : Bool → Needle → Text → Option (ℕ × Needle)
unfolding newline_len is_filler through_newline through_close_comment
filler_step command_mode closer p =
    if command_mode && ltb 0 (newline_len p) then none else elim closer [
      | no_needle ↦ is_filler p
      | needle_newline ↦ closes (through_newline command_mode p) needle_newline
      | needle_close_comment ↦ closes (through_close_comment p) needle_close_comment
    ]

-- The loop of scanFiller. `skip` bytes of the last round are still to be passed. The flag tells
-- whether the loop ended within /* ... */.
unfoldable pub filler_loop : Bool → ℕ → Needle → Text → Piece × Bool
unfolding filler_step
filler_loop command_mode skip closer [] = (
  record { typ = token_filler; val = []; rest = [] },
  elim closer [ needle_close_comment ↦ true | _ ↦ false ],
)
filler_loop command_mode (suc skip) closer (b ∷ q) =
    let (piece, open_comment) = filler_loop command_mode skip closer q in
    (with_byte b piece, open_comment)
filler_loop command_mode zero closer (b ∷ q) = elim (filler_step command_mode closer (b ∷ q)) [
  | some (suc n, closer') ↦
      let (piece, open_comment) = filler_loop command_mode n closer' q in
      (with_byte b piece, open_comment)
  | _ ↦ (
    record { typ = token_filler; val = []; rest = b ∷ q },
    elim closer [ needle_close_comment ↦ true | _ ↦ false ],
  )
]
