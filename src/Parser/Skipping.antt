-- ===== src/Parser/Skipping.antt =====
-- skipUntilSequence of internal/tengo/parser.go comes to an end.
use mathlib.Core.Path.{subst}
use skeema.Prelude.{
  ℕ, zero, suc, ◌+◌, ◌*◌, ◌≤◌, ◌<◌, List, [], ◌∷◌, Option, none, some, Text, ◌≡◌, arith, inl, inr,
  Bool-cases, Option-cases, length, drop,
}
use skeema.Parser.{Token, Parser, is_delimiter}
use skeema.Parser.Sequences.{
  Match, next_tokens, max_want_len, match_here, skip_loop, skip_until_sequence,
}
use skeema.Parser.Tokens.{Holds}
use skeema.Parser.Lists.{Left, length-drop_suc, match_here-Searched, next_tokens-Keeps}

skip_step :
    (text : Text) (line m n : ℕ) (wants : List Text) (found : Match) (q : Parser)
    → 1 ≤ m
    → Holds text line q
    → Left found.matched (length found.leftovers) m n (length q.lexer.rest)
    → found.matched ≡ none
    → (length (next_tokens (drop 1 found.leftovers) (max_want_len wants) q).0
          + length (next_tokens (drop 1 found.leftovers) (max_want_len wants) q).1.lexer.rest
        < n)
      × Holds text line (next_tokens (drop 1 found.leftovers) (max_want_len wants) q).1
skip_step text line m n wants found q some_token h left e =
    let kept = next_tokens-Keeps text line (drop 1 found.leftovers) (max_want_len wants) q h in
    let bounds : Left none (length found.leftovers) m n (length q.lexer.rest) =
      subst (λ o. Left o (length found.leftovers) m n (length q.lexer.rest)) e left in
    (
      omega (
        arith,
        kept.0.1,
        length-drop_suc 1 found.leftovers (omega arith) (omega (arith, bounds.0)),
        bounds.1,
      ),
      kept.0.0,
    )

-- What the searches return, in terms of what was at hand.
abbrev pub Found : Text → ℕ → ℕ → Match × Parser → Type 0
Found text line n (found, q) =
    Holds text line q × (length found.leftovers + length q.lexer.rest ≤ n)

pub Left-bound :
    (o : Option (List Token)) (left m n rest : ℕ) → Left o left m n rest → left + rest ≤ n
Left-bound none left m n rest h = h.1
Left-bound (some matched) left m n rest h = omega arith

skip_loop-Found :
    (text : Text) (line fuel : ℕ) (wants : List Text) (tokens : List Token) (p : Parser)
    → Holds text line p
    → length tokens + length p.lexer.rest < fuel
    → Found text line (length tokens + length p.lexer.rest) (skip_loop fuel wants tokens p)
unfolding skip_loop
skip_loop-Found text line zero wants tokens p h bound = absurd (omega arith)
skip_loop-Found text line (suc fuel) wants [] p h bound = (h, omega arith)
skip_loop-Found text line (suc fuel) wants (t ∷ tokens) p h bound =
    let (found, q) = match_here t tokens wants p in
    let (h', left) = match_here-Searched text line t tokens wants p h in
    elim (Bool-cases (is_delimiter t)) [
      | inl e ↦ rw e (h, omega arith)
      | inr e ↦ rw e (elim (Option-cases found.matched) [
        | inr (m, e') ↦ rw e' (h', Left-bound found.matched _ _ _ _ left)
        | inl e' ↦
            let (smaller, kept) = skip_step text line _ _ wants found q (omega arith) h' left e' in
            let (tokens', q') = next_tokens (drop 1 found.leftovers) (max_want_len wants) q in
            let more =
              skip_loop-Found text line fuel wants tokens' q' kept (omega (arith, smaller)) in
            rw e' (more.0, omega (arith, more.1, smaller))
      ])
    ]

pub skip_until_sequence-Found :
    (text : Text) (line : ℕ) (tokens : List Token) (wants : List Text) (p : Parser)
    → Holds text line p
    → Found text line (length tokens + length p.lexer.rest) (skip_until_sequence tokens wants p)
unfolding skip_until_sequence
skip_until_sequence-Found text line tokens [] p h = (h, omega arith)
skip_until_sequence-Found text line tokens (ws ∷ more) p h =
    let grown = next_tokens tokens (5 * max_want_len (ws ∷ more)) p in
    let kept = next_tokens-Keeps text line tokens (5 * max_want_len (ws ∷ more)) p h in
    let found =
      skip_loop-Found text line (suc (length grown.0 + length grown.1.lexer.rest)) (ws ∷ more)
        grown.0 grown.1 kept.0.0 (omega arith) in
    (found.0, omega (arith, found.1, kept.0.1))
