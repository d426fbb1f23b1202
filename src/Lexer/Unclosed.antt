-- ===== src/Lexer/Unclosed.antt =====
-- What the lexer of internal/tengo/lexer.go makes of a quote that is never closed.
use skeema.Prelude.{
  and_false, ℕ, Bool, true, false, not, ◌&&◌, ◌||◌, [], ◌∷◌, ◌++◌, none, some, Text, txt, ◌≡◌, refl,
  arith, if◌then◌else◌, All, nat_beq, has_prefix, ◌==◌, Bool-cases, inl, inr,
}
use skeema.Lexer.{
  TokenType, token_ident, token_string, token_filler, token_delimiter, token_word, Lexer,
}
use skeema.Lexer.Filler.{is_filler, two_bytes}
use skeema.Lexer.Words.{string_loop}
use skeema.Lexer.Scanning.{scan_rest, scan_token, scan_string, scanned, is_quote, missing_quote}
use skeema.Parser.{token_type_eq}
use skeema.Lexer.Runes.{is_space}

-- The byte does not stand in the text.
abbrev pub Lacks : ℕ → Text → Type 0
Lacks c = All (λ b. nat_beq b c ≡ false)

string_loop-unclosed :
    (c : ℕ) (skip_next : Bool) (typ : TokenType) (s : Text)
    → Lacks c s
    → string_loop c skip_next typ s ≡ (record { typ = typ; val = s; rest = [] }, false)
unfolding string_loop
string_loop-unclosed c skip_next typ [] h = refl
string_loop-unclosed c true typ (b ∷ q) (h, hs) = rw (string_loop-unclosed c false typ q hs) refl
string_loop-unclosed c false typ (b ∷ []) (h, hs) =
    rw (h, and_false (not (nat_beq b b'\\' && not (nat_beq c b'`')))) refl
string_loop-unclosed c false typ (b ∷ d ∷ q) (h, hs) =
    let backslash = nat_beq b b'\\' && not (nat_beq c b'`') in
    rw (h, and_false (not backslash), string_loop-unclosed c (backslash || false) typ (d ∷ q) hs)
      refl

quote_filler : (c : ℕ) (s : Text) → is_quote c ≡ true → is_filler (c ∷ s) ≡ none
unfolding is_filler two_bytes is_space
quote_filler c [] h = ground arith
quote_filler c (b ∷ s) h = ground arith

pub quote_delimiter : (c : ℕ) (s : Text) → is_quote c ≡ true → has_prefix (c ∷ s) (txt ";") ≡ false
unfolding has_prefix
quote_delimiter c s h = ground arith

pub quote_bom :
    (c : ℕ) (s : Text) → is_quote c ≡ true → has_prefix (c ∷ s) (0xEF ∷ 0xBB ∷ 0xBF ∷ []) ≡ false
unfolding has_prefix
quote_bom c s h = ground arith

abbrev pub quoted_type : ℕ → TokenType
quoted_type c = if nat_beq c b'`' then token_ident else token_string

pub quoted_type_lem :
    (c : ℕ)
    → ((quoted_type c == token_filler) ≡ false)
      × ((quoted_type c == token_delimiter) ≡ false)
      × ((quoted_type c == token_word) ≡ false)
unfolding token_type_eq
quoted_type_lem c = elim (Bool-cases (nat_beq c b'`')) [
  | inl e ↦ rw e (refl, refl, refl)
  | inr e ↦ rw e (refl, refl, refl)
]

-- Of the text of a MalformedSQLError, its first part.
abbrev pub quote_message : ℕ → Text
quote_message c =
    (if nat_beq c b'`' then txt "Identifier" else txt "String") ++ txt " is missing closing quote"

pub scan_unclosed :
    (lex : Lexer) (c : ℕ) (s : Text)
    → is_quote c ≡ true
    → Lacks c s
    → has_prefix (c ∷ s) lex.delimiter ≡ false
    → lex.command_mode ≡ false
    → lex.err ≡ none
    → scan_rest lex (c ∷ s)
      ≡ scanned
          (record { typ = quoted_type c; val = c ∷ s; rest = [] })
          (record lex { rest = []; err = some (missing_quote c); prev_token_filler = false })
unfolding scan_rest scan_token scan_string
scan_unclosed lex c s quote h d mode fine = simp (
  mode,
  fine,
  quote_filler c s quote,
  and_false (not lex.prev_token_filler),
  d,
  quote,
  string_loop-unclosed c false (quoted_type c) s h,
)
