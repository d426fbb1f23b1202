-- ===== src/Lexer/Runes.antt =====
-- The bytes and runes that the lexer tells apart, of internal/tengo/lexer.go, with utf8.DecodeRune
-- and unicode.IsSpace as the lexer uses them.
use skeema.Prelude.{
  ℕ, ◌+◌, ◌*◌, ◌%◌, Bool, ◌&&◌, ◌||◌, [], ◌∷◌, Text, if◌then◌else◌, ltb, leb, nat_beq, is_digit,
}

abbrev pub between : ℕ → ℕ → ℕ → Bool
between lo hi c = leb lo c && leb c hi

-- isWord: 0-9a-zA-Z$_
unfoldable pub is_word : ℕ → Bool
is_word c =
    is_digit c || between b'a' b'z' c || between b'A' b'Z' c || nat_beq c b'$' || nat_beq c b'_'

-- isSpace on a byte below 128: blank, and tab to carriage return
unfoldable pub is_space : ℕ → Bool
is_space c = nat_beq c b' ' || between 9 13 c

-- unicode.IsSpace
unfoldable pub is_space_rune : ℕ → Bool
unfolding is_space
is_space_rune r =
    if ltb r 128
    then is_space r
    else nat_beq r 0x85
      || nat_beq r 0xA0
      || nat_beq r 0x1680
      || between 0x2000 0x200A r
      || nat_beq r 0x2028
      || nat_beq r 0x2029
      || nat_beq r 0x202F
      || nat_beq r 0x205F
      || nat_beq r 0x3000

-- The least and the greatest second byte behind a first byte.
second_low : ℕ → ℕ
second_low b = if nat_beq b 0xE0 then 0xA0 else if nat_beq b 0xF0 then 0x90 else 0x80

second_high : ℕ → ℕ
second_high b = if nat_beq b 0xED then 0x9F else if nat_beq b 0xF4 then 0x8F else 0xBF

abbrev second : ℕ → ℕ → Bool
second b c = between (second_low b) (second_high b) c

abbrev continuation : ℕ → Bool
continuation c = between 0x80 0xBF c

-- RuneError with a width of one byte.
abbrev invalid : ℕ × ℕ
invalid = (0xFFFD, 1)

-- utf8.DecodeRune: the rune and its width
unfoldable pub decode_rune : Text → ℕ × ℕ
unfolding second_low second_high
decode_rune [] = (0xFFFD, 0)
decode_rune (a ∷ []) = if ltb a 128 then (a, 1) else invalid
decode_rune (a ∷ b ∷ []) =
    if ltb a 128
    then (a, 1)
    else if between 0xC2 0xDF a && continuation b
    then (a % 32 * 64 + b % 64, 2)
    else invalid
decode_rune (a ∷ b ∷ c ∷ []) =
    if ltb a 128
    then (a, 1)
    else if between 0xC2 0xDF a && continuation b
    then (a % 32 * 64 + b % 64, 2)
    else if between 0xE0 0xEF a && second a b && continuation c
    then (a % 16 * 4096 + b % 64 * 64 + c % 64, 3)
    else invalid
decode_rune (a ∷ b ∷ c ∷ d ∷ s) =
    if ltb a 128
    then (a, 1)
    else if between 0xC2 0xDF a && continuation b
    then (a % 32 * 64 + b % 64, 2)
    else if between 0xE0 0xEF a && second a b && continuation c
    then (a % 16 * 4096 + b % 64 * 64 + c % 64, 3)
    else if between 0xF0 0xF4 a && second a b && continuation c && continuation d
    then (a % 8 * 262144 + b % 64 * 4096 + c % 64 * 64 + d % 64, 4)
    else invalid
