-- ===== src/Parser/Sequences.antt =====
-- The token lists of internal/tengo/parser.go and the sequences that are looked for in them.
use skeema.Prelude.{
  ℕ, zero, suc, ◌+◌, ◌*◌, Bool, true, false, ◌&&◌, ◌||◌, List, [], ◌∷◌, ◌++◌, Option, none, some,
  Text, txt, if◌then◌else◌, nat_beq, ltb, leb, length, take, drop, has_prefix, to_lower, text_eq,
  ◌==◌,
}
use skeema.Lexer.{token_filler}
use skeema.Parser.{Token, Parser, out_of_fuel, has_type, is_delimiter, token_type_eq, over_tokens}

-- Whether the list ends in a delimiter.
unfoldable pub ends_in_delimiter : List Token → Bool
unfolding token_type_eq
ends_in_delimiter [] = false
ends_in_delimiter (t ∷ []) = is_delimiter t
ends_in_delimiter (t ∷ u ∷ tokens) = ends_in_delimiter (u ∷ tokens)

-- The condition of the loop of nextTokens, less the one on p.err, fails.
abbrev pub enough_tokens : ℕ → List Token → Bool
enough_tokens n tokens = leb n (length tokens) || ends_in_delimiter tokens

unfoldable pub append_token : ℕ → List Token → Token → List Token × Bool
unfolding ends_in_delimiter
append_token n tokens t =
    let tokens' = if has_type token_filler t then tokens else tokens ++ t ∷ [] in
    (tokens', enough_tokens n tokens')

-- nextTokens
unfoldable pub next_tokens : List Token → ℕ → Parser → List Token × Parser
unfolding ends_in_delimiter append_token over_tokens
next_tokens tokens n p =
    let grown = over_tokens (append_token n) tokens p in
    if enough_tokens n tokens then (tokens, p) else grown

-- strings.Count(ws, " ") + 1
unfoldable pub token_count : Text → ℕ
token_count [] = 1
token_count (c ∷ ws) = if nat_beq c b' ' then suc (token_count ws) else token_count ws

-- The largest token count.
unfoldable pub max_want_len : List Text → ℕ
unfolding token_count
max_want_len [] = 0
max_want_len (ws ∷ more) =
    if ltb (max_want_len more) (token_count ws) then token_count ws else max_want_len more

insert_sequence : Text → List Text → List Text
unfolding token_count
insert_sequence ws [] = ws ∷ []
insert_sequence ws (x ∷ xs) =
    if ltb (token_count ws) (token_count x) then x ∷ insert_sequence ws xs else ws ∷ x ∷ xs

-- sort.Slice with the most tokens first
unfoldable pub sort_sequences : List Text → List Text
unfolding insert_sequence
sort_sequences [] = []
sort_sequences (ws ∷ more) = insert_sequence ws (sort_sequences more)

-- The tokens in lower case, a blank behind each.
unfoldable pub joined : List Token → Text
joined [] = []
joined (t ∷ tokens) = to_lower t.val ++ (b' ' ∷ joined tokens)

-- The first of the sequences that the text starts with.
unfoldable pub first_match : Text → List Text → Option Text
unfolding has_prefix
first_match s [] = none
first_match s (ws ∷ more) = if has_prefix s (ws ++ txt " ") then some ws else first_match s more

-- What has matched, if anything, and what is left over.
pub record Match : Type 0 where
  pub matched : Option (List Token)
  pub leftovers : List Token

abbrev pub not_nil : Option (List Token) → Bool
not_nil none = false
not_nil (some m) = true

-- matched != nil
abbrev pub found_match : Match → Bool
found_match found = not_nil found.matched

abbrev or_nil : Option (List Token) → List Token
or_nil none = []
or_nil (some m) = m

abbrev pub matched_tokens : Match → List Token
matched_tokens found = or_nil found.matched

unfoldable pub split_match : List Token → Option Text → Match
unfolding token_count
split_match tokens none = record { matched = none; leftovers = tokens }
split_match tokens (some ws) = record {
  matched = some (take (token_count ws) tokens);
  leftovers = drop (token_count ws) tokens;
}

unfoldable pub match_tokens : List Token → List Text → Match
unfolding max_want_len sort_sequences joined first_match split_match
match_tokens tokens want_sequence =
    split_match tokens (
      first_match (joined (take (max_want_len want_sequence) tokens))
        (sort_sequences want_sequence))

-- matchNextSequence
unfoldable pub match_next_sequence : List Token → List Text → Parser → Match × Parser
unfolding match_tokens next_tokens max_want_len
match_next_sequence tokens [] p = (record { matched = none; leftovers = tokens }, p)
match_next_sequence tokens (ws ∷ more) p =
    let (tokens', q) = next_tokens tokens (max_want_len (ws ∷ more)) p in
    (match_tokens tokens' (ws ∷ more), q)

-- The first token of a sequence.
unfoldable pub want_first : Text → Text
want_first [] = []
want_first (c ∷ ws) = if nat_beq c b' ' then [] else c ∷ want_first ws

-- The sequences whose first token is the given one.
unfoldable pub candidates : Token → List Text → List Text
unfolding want_first text_eq
candidates t [] = []
candidates t (ws ∷ more) =
    if to_lower t.val == want_first ws then ws ∷ candidates t more else candidates t more

abbrev pub some_sequence : List Text → Bool
some_sequence [] = false
some_sequence (ws ∷ more) = true

-- Tries the sequences at the front of a list that is not empty.
unfoldable pub match_here : Token → List Token → List Text → Parser → Match × Parser
unfolding candidates match_next_sequence max_want_len
match_here t tokens want_sequence p =
    if nat_beq (max_want_len want_sequence) 1 && some_sequence (candidates t want_sequence)
    then (record { matched = some (t ∷ []); leftovers = tokens }, p)
    else match_next_sequence (t ∷ tokens) (candidates t want_sequence) p

-- The loop of skipUntilSequence; every round but the last drops a token.
unfoldable pub skip_loop : ℕ → List Text → List Token → Parser → Match × Parser
unfolding match_here next_tokens token_type_eq
skip_loop zero want_sequence tokens p =
    (record { matched = none; leftovers = tokens }, record p { err = some out_of_fuel })
skip_loop (suc fuel) want_sequence [] p = (record { matched = none; leftovers = [] }, p)
skip_loop (suc fuel) want_sequence (t ∷ tokens) p =
    let (found, q) = match_here t tokens want_sequence p in
    let (tokens', q') = next_tokens (drop 1 found.leftovers) (max_want_len want_sequence) q in
    let more = skip_loop fuel want_sequence tokens' q' in
    if is_delimiter t
    then (record { matched = none; leftovers = t ∷ tokens }, p)
    else elim found.matched [ some m ↦ (found, q) | none ↦ more ]

-- skipUntilSequence
unfoldable pub skip_until_sequence : List Token → List Text → Parser → Match × Parser
unfolding skip_loop next_tokens max_want_len
skip_until_sequence tokens [] p = (record { matched = none; leftovers = tokens }, p)
skip_until_sequence tokens (ws ∷ more) p =
    let want_sequence = ws ∷ more in
    let (tokens', q) = next_tokens tokens (5 * max_want_len want_sequence) p in
    skip_loop (suc (length tokens' + length q.lexer.rest)) want_sequence tokens' q
