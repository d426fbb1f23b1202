-- ===== src/Parser/Lists.antt =====
-- What the token lists of the parser keep: the invariant of the statement, and the bound on the
-- tokens at hand and the bytes left, by which the loops over them end.
use skeema.Prelude.{
  ℕ, zero, suc, ◌+◌, ◌≤◌, ◌<◌, ◌&&◌, List, [], ◌∷◌, Option, none, some, Text, ◌≡◌, refl, arith, inl,
  inr, Bool-cases, length, length-append, take, drop, nat_beq, has_prefix, if◌then◌else◌,
}
use skeema.Lexer.{token_filler}
use skeema.Parser.{Token, Parser, has_type, next_token, token_loop, over_tokens}
use skeema.Parser.Sequences.{
  Match, append_token, enough_tokens, next_tokens, token_count, max_want_len, sort_sequences,
  joined, first_match, split_match, match_tokens, match_next_sequence, candidates, some_sequence,
  match_here,
}
use skeema.Parser.Tokens.{Holds, over_tokens-Holds}

-- The invariant, and at most `n` tokens at hand and bytes left.
abbrev pub Keeps : Text → ℕ → ℕ → List Token × Parser → Type 0
Keeps text line n (tokens, q) = Holds text line q × (length tokens + length q.lexer.rest ≤ n)

pub length-drop : {A : Type 0} (n : ℕ) (xs : List A) → length (drop n xs) ≤ length xs
length-drop zero xs = omega arith
length-drop (suc n) [] = omega arith
length-drop (suc n) (x ∷ xs) = omega (arith, length-drop n xs)

pub length-drop_suc :
    {A : Type 0} (n : ℕ) (xs : List A) → 1 ≤ n → 1 ≤ length xs → length (drop n xs) < length xs
length-drop_suc zero xs h k = absurd (omega arith)
length-drop_suc (suc n) [] h k = absurd (omega arith)
length-drop_suc (suc n) (x ∷ xs) h k = omega (arith, length-drop n xs)

append_token-length :
    (n : ℕ) (tokens : List Token) (t : Token)
    → (length tokens ≤ length (append_token n tokens t).0)
      × (length (append_token n tokens t).0 ≤ suc (length tokens))
unfolding append_token
append_token-length n tokens t = elim (Bool-cases (has_type token_filler t)) [
  | inl e ↦ rw e (omega arith, omega arith)
  | inr e ↦
      rw e
        (omega (arith, length-append tokens (t ∷ [])), omega (arith, length-append tokens (t ∷ [])))
]

-- The list never gets shorter.
grown_step :
    (n fuel : ℕ) (tokens : List Token) (p : Parser) (r : Option Token × Parser)
    → ((tokens : List Token) (q : Parser)
        → length tokens ≤ length (token_loop (append_token n) fuel tokens q).0)
    → length tokens
      ≤ length
          (elim r.0 as (λ o. List Token × Parser) [
            | none ↦ (tokens, r.1)
            | some t ↦
                let more = token_loop (append_token n) fuel (append_token n tokens t).0 r.1 in
                if (append_token n tokens t).1 then ((append_token n tokens t).0, r.1) else more
          ]).0
grown_step n fuel tokens p (none, q) ih = omega arith
grown_step n fuel tokens p (some t, q) ih = elim (Bool-cases (append_token n tokens t).1) [
  | inl e ↦ rw e (append_token-length n tokens t).0
  | inr e ↦
      rw e (omega (arith, (append_token-length n tokens t).0, ih (append_token n tokens t).0 q))
]

token_loop-length :
    (n fuel : ℕ) (tokens : List Token) (p : Parser)
    → length tokens ≤ length (token_loop (append_token n) fuel tokens p).0
unfolding token_loop
token_loop-length n zero tokens p = omega arith
token_loop-length n (suc fuel) tokens p =
    grown_step n fuel tokens p (next_token p) (λ tokens' q. token_loop-length n fuel tokens' q)

pub next_tokens-Keeps :
    (text : Text) (line : ℕ) (tokens : List Token) (n : ℕ) (p : Parser)
    → Holds text line p
    → Keeps text line (length tokens + length p.lexer.rest) (next_tokens tokens n p)
      × (length tokens ≤ length (next_tokens tokens n p).0)
unfolding next_tokens over_tokens
next_tokens-Keeps text line tokens n p h = elim (Bool-cases (enough_tokens n tokens)) [
  | inl e ↦ rw e ((h, omega arith), omega arith)
  | inr e ↦ rw e (
    over_tokens-Holds (append_token n) length text line tokens p
        (λ tokens t. (append_token-length n tokens t).1) h,
    token_loop-length n (suc (length p.lexer.rest)) tokens p,
  )
]

token_count-positive : (ws : Text) → 1 ≤ token_count ws
unfolding token_count
token_count-positive [] = omega arith
token_count-positive (c ∷ ws) = ground (arith, token_count-positive ws)

-- After a search with `m` tokens at hand: all of them are left if nothing was found, and fewer are
-- left if something was.
abbrev pub Left : Option (List Token) → (left m n : ℕ) → ℕ → Type 0
Left none left m n rest = (m ≤ left) × (left + rest ≤ n)
Left (some matched) left m n rest = left + rest < n

abbrev pub Searched : Text → ℕ → (m n : ℕ) → Match × Parser → Type 0
Searched text line m n (found, q) =
    Holds text line q × Left found.matched (length found.leftovers) m n (length q.lexer.rest)

first_match-none : (wants : List Text) → first_match [] wants ≡ none
unfolding first_match has_prefix
first_match-none [] = refl
first_match-none ([] ∷ wants) = first_match-none wants
first_match-none ((c ∷ ws) ∷ wants) = first_match-none wants

joined-take_nil : (n : ℕ) → joined (take n []) ≡ []
unfolding joined
joined-take_nil zero = refl
joined-take_nil (suc n) = refl

split_match-Left :
    (t : Token) (tokens : List Token) (o : Option Text) (m n rest : ℕ)
    → m ≤ suc (length tokens)
    → suc (length tokens) + rest ≤ n
    → Left
        (split_match (t ∷ tokens) o).matched
        (length (split_match (t ∷ tokens) o).leftovers)
        m
        n
        rest
unfolding split_match
split_match-Left t tokens none m n rest h k = (h, k)
split_match-Left t tokens (some ws) m n rest h k =
    omega
      (arith, length-drop_suc (token_count ws) (t ∷ tokens) (token_count-positive ws) (omega arith))

match_tokens-Left :
    (tokens : List Token) (wants : List Text) (m n rest : ℕ)
    → m ≤ length tokens
    → length tokens + rest ≤ n
    → Left
        (match_tokens tokens wants).matched
        (length (match_tokens tokens wants).leftovers)
        m
        n
        rest
unfolding match_tokens split_match
match_tokens-Left [] wants m n rest h k =
    rw (joined-take_nil (max_want_len wants), first_match-none (sort_sequences wants)) (h, k)
match_tokens-Left (t ∷ tokens) wants m n rest h k = split_match-Left t tokens _ m n rest h k

pub match_next_sequence-Searched :
    (text : Text) (line : ℕ) (tokens : List Token) (wants : List Text) (p : Parser)
    → Holds text line p
    → Searched text line
        (length tokens)
        (length tokens + length p.lexer.rest)
        (match_next_sequence tokens wants p)
unfolding match_next_sequence
match_next_sequence-Searched text line tokens [] p h = (h, (omega arith, omega arith))
match_next_sequence-Searched text line tokens (ws ∷ more) p h =
    let grown = next_tokens-Keeps text line tokens (max_want_len (ws ∷ more)) p h in
    (
      grown.0.0,
      match_tokens-Left (next_tokens tokens (max_want_len (ws ∷ more)) p).0 (ws ∷ more) _ _ _
          grown.1 grown.0.1,
    )

pub match_here-Searched :
    (text : Text) (line : ℕ) (t : Token) (tokens : List Token) (wants : List Text) (p : Parser)
    → Holds text line p
    → Searched text line
        (suc (length tokens))
        (suc (length tokens) + length p.lexer.rest)
        (match_here t tokens wants p)
unfolding match_here
match_here-Searched text line t tokens wants p h =
    elim (Bool-cases (nat_beq (max_want_len wants) 1 && some_sequence (candidates t wants))) [
      | inl e ↦ rw e (h, omega arith)
      | inr e ↦ rw e (match_next_sequence-Searched text line (t ∷ tokens) (candidates t wants) p h)
    ]
