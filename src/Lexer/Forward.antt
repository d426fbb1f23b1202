-- ===== src/Lexer/Forward.antt =====
-- Every step of the lexer of internal/tengo/lexer.go takes at least one byte.
use skeema.Prelude.{
  ℕ, zero, suc, ◌≤◌, Bool, true, false, ◌&&◌, [], ◌∷◌, Option, none, some, Text, ◌≡◌, refl, arith,
  take, ltb, is_empty,
}
use skeema.Lexer.Runes.{decode_rune}
use skeema.Lexer.{newline_len}
use skeema.Lexer.Filler.{
  Needle, no_needle, is_filler, two_bytes, dash_comment, filler_step, filler_loop,
}
use skeema.Lexer.Scanning.{is_some}

pub decode_rune_size : (a : ℕ) (s : Text) → 1 ≤ (decode_rune (a ∷ s)).1
unfolding decode_rune
decode_rune_size a [] = ground arith
decode_rune_size a (b ∷ []) = ground arith
decode_rune_size a (b ∷ c ∷ []) = ground arith
decode_rune_size a (b ∷ c ∷ d ∷ s) = ground arith

positive_suc : (n : ℕ) → 1 ≤ n → (m : ℕ) × (n ≡ suc m)
positive_suc zero h = absurd (omega arith)
positive_suc (suc m) h = (m, refl)

Moves : Option (ℕ × Needle) → Type 0
Moves none = Unit
Moves (some (n, closer)) = 1 ≤ n

dash_comment-Moves : (s : Text) → Moves (dash_comment s)
unfolding dash_comment Moves
dash_comment-Moves [] = omega arith
dash_comment-Moves (c ∷ s) = ground arith

two_bytes-Moves : (a : ℕ) (s : Text) → Moves (two_bytes a s)
unfolding two_bytes Moves
two_bytes-Moves a [] = tt
two_bytes-Moves a (b ∷ s) = ground (arith, dash_comment-Moves s)

is_filler-Moves : (p : Text) → Moves (is_filler p)
unfolding is_filler Moves
is_filler-Moves [] = tt
is_filler-Moves (a ∷ s) = ground (arith, two_bytes-Moves a s, decode_rune_size a s)

filler_starts :
    (command_mode : Bool) (a : ℕ) (s : Text) (o : Option (ℕ × Needle))
    → Moves o
    → is_some o ≡ true
    → filler_step command_mode no_needle (a ∷ s) ≡ o
    → is_empty (filler_loop command_mode 0 no_needle (a ∷ s)).0.val ≡ false
unfolding filler_loop Moves
filler_starts command_mode a s none m h e = cc
filler_starts command_mode a s (some (zero, closer)) m h e = absurd (omega arith)
filler_starts command_mode a s (some (suc n, closer)) m h e = rw (e, filler_loop) refl

pub filler_loop-starts :
    (command_mode : Bool) (a : ℕ) (s : Text)
    → (command_mode && ltb 0 (newline_len (a ∷ s))) ≡ false
    → is_some (is_filler (a ∷ s)) ≡ true
    → is_empty (filler_loop command_mode 0 no_needle (a ∷ s)).0.val ≡ false
unfolding filler_step
filler_loop-starts command_mode a s h f =
    filler_starts command_mode a s (is_filler (a ∷ s)) (is_filler-Moves (a ∷ s)) f
      (rw (filler_step, h) refl)

pub take-nonempty : (n a : ℕ) (s : Text) → 1 ≤ n → is_empty (take n (a ∷ s)) ≡ false
take-nonempty zero a s h = absurd (omega arith)
take-nonempty (suc n) a s h = refl
