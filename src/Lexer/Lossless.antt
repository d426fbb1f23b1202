-- ===== src/Lexer/Lossless.antt =====
-- Scan returns every byte of the input, in order, and always gets further.
use skeema.Prelude.{
  ℕ, zero, suc, ◌+◌, ◌<◌, ◌≤◌, Bool, true, false, not, ◌&&◌, List, [], ◌∷◌, ◌++◌, Option, none,
  some, Text, ◌≡◌, refl, ap, ◌∙◌, sym, arith, inl, inr, Bool-cases, both_true, take-drop, drop,
  length, has_prefix, ltb, is_empty, length-append,
}
use skeema.Lexer.{TokenType, token_symbol, Lexer, LexError, Piece, newline_len}
use skeema.Lexer.Filler.{no_needle, is_filler}
use skeema.Lexer.Words.{word_loop, first_rune, rune_piece}
use skeema.Lexer.Scanning.{
  ScanResult, scanned, scan_error, scan_filler, scan_string, scan_token, scan_rest, scan, at_end,
  is_quote, is_some,
}
use skeema.Lexer.Pieces.{Cuts, string_loop-Cuts, filler_loop-Cuts, word_loop-Cuts}
use skeema.Lexer.Forward.{decode_rune_size, filler_loop-starts, take-nonempty}

-- What one Scan does to the input of a lexer with the given delimiter: a token of at least one
-- byte in front of what is left, or an error where nothing was left.
abbrev pub Scans : Text → Text → ScanResult → Type 0
Scans delim p (scanned piece lex') =
    (piece.val ++ lex'.rest ≡ p) × (lex'.delimiter ≡ delim) × (is_empty piece.val ≡ false)
Scans delim p (scan_error e lex') = (p ≡ []) × (lex'.rest ≡ []) × (lex'.delimiter ≡ delim)

-- The token that a first rune starts.
rune_piece_lem :
    (delim : Text) (a : ℕ) (s : Text) (typ : TokenType) (size : ℕ) (saw : Bool)
    → 1 ≤ size
    → Cuts (rune_piece delim a s (typ, size, saw)) (a ∷ s)
      × (is_empty (rune_piece delim a s (typ, size, saw)).val ≡ false)
unfolding rune_piece word_loop
rune_piece_lem delim a s token_symbol size saw h =
    (take-drop size (a ∷ s), take-nonempty size a s h)
rune_piece_lem delim a s typ zero saw h = absurd (omega arith)
rune_piece_lem delim a s typ (suc n) saw h = (ap (◌∷◌ a) (word_loop-Cuts delim n _ s), refl)

first_rune-size : (a : ℕ) (s : Text) → 1 ≤ (first_rune a s).1
unfolding first_rune
first_rune-size a s = ground (arith, decode_rune_size a s)

scan_filler-Scans :
    (lex : Lexer) (a : ℕ) (s : Text)
    → (lex.command_mode && ltb 0 (newline_len (a ∷ s))) ≡ false
    → is_some (is_filler (a ∷ s)) ≡ true
    → Scans lex.delimiter (a ∷ s) (scan_filler lex (a ∷ s))
unfolding scan_filler
scan_filler-Scans lex a s h f = (
  filler_loop-Cuts lex.command_mode 0 no_needle (a ∷ s),
  refl,
  filler_loop-starts lex.command_mode a s h f,
)

scan_string-Scans :
    (lex : Lexer) (a : ℕ) (s : Text) → Scans lex.delimiter (a ∷ s) (scan_string lex a s)
unfolding scan_string
scan_string-Scans lex a s = (ap (◌∷◌ a) (string_loop-Cuts a false _ s), refl, refl)

nonempty_length : (delim : Text) (n : ℕ) → is_empty delim ≡ false → 1 ≤ length delim + n
nonempty_length [] n h = cc
nonempty_length (c ∷ delim) n h = omega arith

scan_token-Scans :
    (lex : Lexer) (a : ℕ) (s : Text)
    → is_empty lex.delimiter ≡ false
    → Scans lex.delimiter (a ∷ s) (scan_token lex a s)
unfolding scan_token
scan_token-Scans lex a s d = elim (Bool-cases (has_prefix (a ∷ s) lex.delimiter)) [
  | inl p ↦ rw p (
    take-drop (length lex.delimiter + newline_len (drop (length lex.delimiter) (a ∷ s))) (a ∷ s),
    refl,
    take-nonempty _ a s (nonempty_length lex.delimiter _ d),
  )
  | inr p ↦ rw p (elim (Bool-cases (is_quote a)) [
    | inl q ↦ rw q (scan_string-Scans lex a s)
    | inr q ↦
        let piece =
          rune_piece_lem lex.delimiter a s (first_rune a s).0 (first_rune a s).1 (first_rune a s).2
            (first_rune-size a s) in
        rw q (piece.0, refl, piece.1)
  ])
]

positive : (n : ℕ) → ltb 0 n ≡ true → 1 ≤ n
positive n h = ground arith

scan_rest-Scans :
    (lex : Lexer) (p : Text)
    → is_empty lex.delimiter ≡ false
    → Scans lex.delimiter p (scan_rest lex p)
unfolding scan_rest
scan_rest-Scans lex [] d = (refl, refl, refl)
scan_rest-Scans lex (a ∷ s) d =
    let lex' = record lex { err = some (at_end lex.err) } in
    elim (Bool-cases (lex.command_mode && ltb 0 (newline_len (a ∷ s)))) [
      | inl c ↦
          let some_newline = both_true lex.command_mode (ltb 0 (newline_len (a ∷ s))) c in
          rw c (
            take-drop (newline_len (a ∷ s)) (a ∷ s),
            refl,
            take-nonempty (newline_len (a ∷ s)) a s (positive (newline_len (a ∷ s)) some_newline.1),
          )
      | inr c ↦ rw c (elim (Bool-cases (not lex.prev_token_filler && is_some (is_filler (a ∷ s)))) [
        | inl f ↦
            let filler = both_true (not lex.prev_token_filler) (is_some (is_filler (a ∷ s))) f in
            rw f (scan_filler-Scans lex' a s c filler.1)
        | inr f ↦ rw f (scan_token-Scans (record lex' { prev_token_filler = false }) a s d)
      ])
    ]

-- Lexer.Scan, with a delimiter that is not empty: either it returns a token of at least one byte,
-- and the token and what the reader still holds are what it held; or it returns an error, and the
-- reader held nothing. The delimiter stays as it was.
pub scan-Scans :
    (lex : Lexer) → is_empty lex.delimiter ≡ false → Scans lex.delimiter lex.rest (scan lex)
unfolding scan
scan-Scans lex d = scan_rest-Scans lex lex.rest d

-- Scanning to the end: the tokens and the error. `none` means that the fuel ran out.
unfoldable pub scan_all : ℕ → Lexer → Option (List Piece × LexError)
scan_all zero lex = none
scan_all (suc fuel) lex = elim (scan lex) [
  | scan_error e lex' ↦ some ([], e)
  | scanned piece lex' ↦ elim (scan_all fuel lex') [
    | none ↦ none
    | some (pieces, e) ↦ some (piece ∷ pieces, e)
  ]
]

abbrev pub values : List Piece → Text
values [] = []
values (piece ∷ pieces) = piece.val ++ values pieces

shorter :
    (v r p : Text) (fuel : ℕ)
    → v ++ r ≡ p
    → is_empty v ≡ false
    → length p < suc fuel
    → length r < fuel
shorter [] r p fuel e n h = cc
shorter (c ∷ v) r p fuel e n h =
    let total : length ((c ∷ v) ++ r) ≡ length p = ap length e in omega (arith, length-append v r)

abbrev Returns : Option (List Piece × LexError) → Text → Type 0
Returns result p =
    (pieces : List Piece) × (e : LexError) × (result ≡ some (pieces, e)) × (values pieces ≡ p)

after_scan :
    (fuel : ℕ) (delim p : Text) (r : ScanResult)
    → is_empty delim ≡ false
    → length p < suc fuel
    → Scans delim p r
    → ((lex' : Lexer)
        → is_empty lex'.delimiter ≡ false
        → length lex'.rest < fuel
        → Returns (scan_all fuel lex') lex'.rest)
    → Returns
        (elim r as (λ x. Option (List Piece × LexError)) [
          | scan_error e lex' ↦ some ([], e)
          | scanned piece lex' ↦
              elim (scan_all fuel lex') as (λ x. Option (List Piece × LexError)) [
                | none ↦ none
                | some (pieces, e) ↦ some (piece ∷ pieces, e)
              ]
        ])
        p
after_scan fuel delim p (scan_error e lex') d h (nothing, _, _) ih = ([], e, refl, sym nothing)
after_scan fuel delim p (scanned piece lex') d h (cut, same, some_byte) ih =
    let (pieces, e, result, all) =
      ih lex' (ap is_empty same ∙ d) (shorter piece.val lex'.rest p fuel cut some_byte h) in
    (piece ∷ pieces, e, rw result refl, ap (λ t. piece.val ++ t) all ∙ cut)

-- Scanning a whole input, with a delimiter that is not empty and more rounds than there are bytes,
-- ends with an error such as io.EOF, and the tokens, one behind the other, are the input.
pub scan_all_returns_input :
    (fuel : ℕ) (lex : Lexer)
    → is_empty lex.delimiter ≡ false
    → length lex.rest < fuel
    → (pieces : List Piece) × (e : LexError) × (scan_all fuel lex ≡ some (pieces, e))
      × (values pieces ≡ lex.rest)
unfolding scan_all
scan_all_returns_input zero lex d h = absurd (omega arith)
scan_all_returns_input (suc fuel) lex d h =
    after_scan fuel lex.delimiter lex.rest (scan lex) d h (scan-Scans lex d)
      (λ lex' d' h'. scan_all_returns_input fuel lex' d' h')
