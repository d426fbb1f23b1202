-- ===== src/Lexer/Pieces.antt =====
-- Every loop of the lexer cuts its input in two: the token and what follows are all of it.
use skeema.Prelude.{
  ℕ, zero, suc, Bool, true, false, not, ◌&&◌, ◌||◌, [], ◌∷◌, ◌++◌, Option, none, some, Text, ◌≡◌,
  refl, ap, inl, inr, Bool-cases, has_prefix, if◌then◌else◌, nat_beq,
}
use skeema.Lexer.{TokenType, token_filler, Piece, with_byte, delim_tricky}
use skeema.Lexer.Filler.{Needle, needle_close_comment, filler_step, filler_loop}
use skeema.Lexer.Words.{string_loop, WordState, word_step, word_loop}

-- The token and the rest make up the text.
abbrev pub Cuts : Piece → Text → Type 0
Cuts piece p = piece.val ++ piece.rest ≡ p

pub string_loop-Cuts :
    (c : ℕ) (skip_next : Bool) (typ : TokenType) (q : Text)
    → Cuts (string_loop c skip_next typ q).0 q
unfolding string_loop
string_loop-Cuts c skip_next typ [] = refl
string_loop-Cuts c true typ (b ∷ q) = ap (◌∷◌ b) (string_loop-Cuts c false typ q)
string_loop-Cuts c false typ (b ∷ []) = refl
string_loop-Cuts c false typ (b ∷ d ∷ q) =
    let backslash = nat_beq b b'\\' && not (nat_beq c b'`') in
    let more = string_loop-Cuts c (backslash || nat_beq b c) typ (d ∷ q) in
    elim (Bool-cases (not backslash && nat_beq b c && not (nat_beq d c))) [
      | inl stop ↦ rw stop refl
      | inr on ↦ rw on (ap (◌∷◌ b) more)
    ]

filler_next :
    (command_mode : Bool) (closer : Needle) (b : ℕ) (q : Text) (o : Option (ℕ × Needle))
    → ((n : ℕ) (closer' : Needle) → Cuts (filler_loop command_mode n closer' q).0 q)
    → Cuts
        (elim o as (λ x. Piece × Bool) [
          | some (suc n, closer') ↦
              let (piece, open_comment) = filler_loop command_mode n closer' q in
              (with_byte b piece, open_comment)
          | _ ↦ (
            record { typ = token_filler; val = []; rest = b ∷ q },
            elim closer [ needle_close_comment ↦ true | _ ↦ false ],
          )
        ]).0
        (b ∷ q)
filler_next command_mode closer b q none ih = refl
filler_next command_mode closer b q (some (zero, closer')) ih = refl
filler_next command_mode closer b q (some (suc n, closer')) ih = ap (◌∷◌ b) (ih n closer')

pub filler_loop-Cuts :
    (command_mode : Bool) (skip : ℕ) (closer : Needle) (q : Text)
    → Cuts (filler_loop command_mode skip closer q).0 q
unfolding filler_loop
filler_loop-Cuts command_mode skip closer [] = refl
filler_loop-Cuts command_mode (suc skip) closer (b ∷ q) =
    ap (◌∷◌ b) (filler_loop-Cuts command_mode skip closer q)
filler_loop-Cuts command_mode zero closer (b ∷ q) =
    filler_next command_mode closer b q (filler_step command_mode closer (b ∷ q))
      (λ n closer'. filler_loop-Cuts command_mode n closer' q)

word_next :
    (delim : Text) (st : WordState) (b : ℕ) (q : Text) (o : Option (WordState × ℕ))
    → ((n : ℕ) (st' : WordState) → Cuts (word_loop delim n st' q) q)
    → Cuts
        (elim o as (λ x. Piece) [
          | some (st', suc n) ↦
              let further = with_byte b (word_loop delim n st' q) in
              if delim_tricky delim && has_prefix (b ∷ q) delim
              then record { typ = st'.typ; val = []; rest = b ∷ q }
              else further
          | _ ↦ record { typ = st.typ; val = []; rest = b ∷ q }
        ])
        (b ∷ q)
word_next delim st b q none ih = refl
word_next delim st b q (some (st', zero)) ih = refl
word_next delim st b q (some (st', suc n)) ih =
    elim (Bool-cases (delim_tricky delim && has_prefix (b ∷ q) delim)) [
      | inl stop ↦ rw stop refl
      | inr on ↦ rw on (ap (◌∷◌ b) (ih n st'))
    ]

pub word_loop-Cuts :
    (delim : Text) (skip : ℕ) (st : WordState) (q : Text) → Cuts (word_loop delim skip st q) q
unfolding word_loop
word_loop-Cuts delim skip st [] = refl
word_loop-Cuts delim (suc skip) st (b ∷ q) = ap (◌∷◌ b) (word_loop-Cuts delim skip st q)
word_loop-Cuts delim zero st (b ∷ q) =
    word_next delim st b q (word_step st b q) (λ n st'. word_loop-Cuts delim n st' q)
