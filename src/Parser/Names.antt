-- ===== src/Parser/Names.antt =====
-- The names in tokens, of internal/tengo/parser.go.
use skeema.Prelude.{
  ℕ, ◌+◌, ◌-◌, Bool, false, not, ◌&&◌, ◌||◌, List, [], ◌∷◌, Option, none, some, Text, if◌then◌else◌,
  is_empty, nat_beq, ltb, length, take, drop, has_suffix,
}
use skeema.Lexer.{token_ident, token_word, token_string, token_symbol}
use skeema.Statement.{Statement}
use skeema.Parser.{Token, Parser, has_type, token_type_eq}

-- strings.Replace(s, ab, b, -1) for the two bytes `a` and `b`
unfoldable pub replace_two : ℕ → ℕ → Text → Text
replace_two a b [] = []
replace_two a b (x ∷ []) = x ∷ []
replace_two a b (x ∷ y ∷ s) =
    let hit = b ∷ replace_two a b s in
    let miss = x ∷ replace_two a b (y ∷ s) in if nat_beq x a && nat_beq y b then hit else miss

-- input[1 : len(input)-1]
abbrev pub inner : Text → Text
inner input = take (length input - 2) (drop 1 input)

abbrev first_is : ℕ → Text → Bool
first_is c [] = false
first_is c (x ∷ s) = nat_beq x c

-- stripBackticks
unfoldable pub strip_backticks : Text → Text
unfolding replace_two has_suffix
strip_backticks input =
    if ltb (length input) 2 || not (first_is b'`' input) || not (has_suffix input (b'`' ∷ []))
    then input
    else replace_two b'`' b'`' (inner input)

-- stripAnyQuote
unfoldable pub strip_any_quote : Text → Text
unfolding replace_two has_suffix strip_backticks
strip_any_quote [] = []
strip_any_quote (c ∷ s) =
    if ltb (length (c ∷ s)) 2 || not (has_suffix (c ∷ s) (c ∷ []))
    then c ∷ s
    else if nat_beq c b'`'
    then strip_backticks (c ∷ s)
    else if not (nat_beq c b'"') && not (nat_beq c b'\'')
    then c ∷ s
    else replace_two b'\\' c (replace_two c c (inner (c ∷ s)))

-- getNameFromToken; `none` where ok is false
unfoldable pub get_name_from_token : Token → Option Text
unfolding strip_backticks strip_any_quote token_type_eq
get_name_from_token t =
    let name =
      if has_type token_ident t
      then strip_backticks t.val
      else if has_type token_word t
      then t.val
      else if has_type token_string t && first_is b'"' t.val
      then strip_any_quote t.val
      else [] in
    if is_empty name then none else some name

-- p.b from the start of one token to the end of another
abbrev clause_between : Parser → Token → Token → Text
clause_between p t u = take (u.offset + length u.val - t.offset) (drop t.offset p.b)

abbrev pub set_stmt : Parser → Statement → Parser
set_stmt p stmt = record p { stmt = stmt }

unfoldable pub qualified_name : Token → Token → Option (Text × Text)
unfolding get_name_from_token
qualified_name t u = elim (get_name_from_token t) [
  | none ↦ none
  | some schema_name ↦ elim (get_name_from_token u) [
    | none ↦ none
    | some object_name ↦ some (schema_name, object_name)
  ]
]

abbrev pub is_dot : Token → Bool
is_dot t = has_type token_symbol t && first_is b'.' t.val

-- The branch of parseObjectNameClause without a qualifier, with the name in the first token.
unfoldable pub parse_object_name : Option Text → Token → List Token → Parser → List Token × Parser
parse_object_name none t more p = (t ∷ more, p)
parse_object_name (some name) t more p =
    (more, set_stmt p (record p.stmt { object_name = name; name_clause = clause_between p t t }))

-- The branch with one, in front of a name `u`, with both names.
unfoldable pub parse_qualified_name :
    Option (Text × Text) → Token → Token → Token → List Token → Parser → List Token × Parser
parse_qualified_name none t dot u more p = (t ∷ dot ∷ u ∷ more, p)
parse_qualified_name (some (schema_name, object_name)) t dot u more p = (
  more,
  set_stmt p (record p.stmt {
    object_qualifier = schema_name;
    object_name = object_name;
    name_clause = clause_between p t u;
  }),
)

-- parseObjectNameClause behind its call of nextTokens
unfoldable pub name_clause_at : List Token → Parser → List Token × Parser
unfolding parse_object_name parse_qualified_name token_type_eq get_name_from_token qualified_name
name_clause_at [] p = ([], p)
name_clause_at (t ∷ dot ∷ u ∷ more) p =
    if is_dot dot
    then parse_qualified_name (qualified_name t u) t dot u more p
    else parse_object_name (get_name_from_token t) t (dot ∷ u ∷ more) p
name_clause_at (t ∷ more) p = parse_object_name (get_name_from_token t) t more p
