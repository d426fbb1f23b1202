-- ===== src/Parser/NameClause.antt =====
-- What parseObjectNameClause of internal/tengo/parser.go keeps of the text and the position.
use skeema.Prelude.{
  ℕ, suc, ◌+◌, ◌≤◌, List, [], ◌∷◌, Option, none, some, Text, ◌≡◌, refl, arith, inl, inr, Bool-cases,
  is_empty, length,
}
use skeema.Objects.{ObjectType}
use skeema.Parser.{Token, Parser}
use skeema.Parser.Names.{parse_object_name, parse_qualified_name, is_dot, name_clause_at}
use skeema.Parser.Sequences.{next_tokens}
use skeema.Parser.Processors.{parse_object_name_clause, set_create}
use skeema.Parser.Tokens.{Holds}
use skeema.Parser.Lists.{Keeps, next_tokens-Keeps}
use skeema.Parser.Processing.{set_stmt-Holds}

parse_object_name-Keeps :
    (text : Text) (line n : ℕ) (o : Option Text) (t : Token) (more : List Token) (p : Parser)
    → Holds text line p
    → suc (length more) + length p.lexer.rest ≤ n
    → Keeps text line n (parse_object_name o t more p)
unfolding parse_object_name
parse_object_name-Keeps text line n none t more p h bound = (h, bound)
parse_object_name-Keeps text line n (some name) t more p h bound =
    (set_stmt-Holds text line p _ h refl, omega arith)

parse_qualified_name-Keeps :
    (text : Text) (line n : ℕ) (o : Option (Text × Text)) (t dot u : Token) (more : List Token)
    (p : Parser)
    → Holds text line p
    → 3 + length more + length p.lexer.rest ≤ n
    → Keeps text line n (parse_qualified_name o t dot u more p)
unfolding parse_qualified_name
parse_qualified_name-Keeps text line n none t dot u more p h bound = (h, omega arith)
parse_qualified_name-Keeps text line n (some (schema_name, object_name)) t dot u more p h bound =
    (set_stmt-Holds text line p _ h refl, omega arith)

name_clause_at-Keeps :
    (text : Text) (line n : ℕ) (tokens : List Token) (p : Parser)
    → Holds text line p
    → length tokens + length p.lexer.rest ≤ n
    → Keeps text line n (name_clause_at tokens p)
unfolding name_clause_at
name_clause_at-Keeps text line n [] p h bound = (h, bound)
name_clause_at-Keeps text line n (t ∷ []) p h bound =
    parse_object_name-Keeps text line n _ t [] p h bound
name_clause_at-Keeps text line n (t ∷ u ∷ []) p h bound =
    parse_object_name-Keeps text line n _ t (u ∷ []) p h bound
name_clause_at-Keeps text line n (t ∷ dot ∷ u ∷ more) p h bound = elim (Bool-cases (is_dot dot)) [
  | inl e ↦ rw e (parse_qualified_name-Keeps text line n _ t dot u more p h (omega arith))
  | inr e ↦ rw e (parse_object_name-Keeps text line n _ t (dot ∷ u ∷ more) p h bound)
]

pub parse_object_name_clause-Keeps :
    (text : Text) (line n : ℕ) (tokens : List Token) (p : Parser)
    → Holds text line p
    → length tokens + length p.lexer.rest ≤ n
    → Keeps text line n (parse_object_name_clause tokens p)
unfolding parse_object_name_clause
parse_object_name_clause-Keeps text line n tokens p h bound =
    let grown = next_tokens-Keeps text line tokens 3 p h in
    let (tokens', q) = next_tokens tokens 3 p in
    name_clause_at-Keeps text line n tokens' q grown.0.0 (omega (arith, grown.0.1, bound))

pub set_create-Holds :
    (text : Text) (line : ℕ) (object_type : ObjectType) (p : Parser)
    → Holds text line p
    → Holds text line (set_create object_type p) × ((set_create object_type p).lexer ≡ p.lexer)
set_create-Holds text line object_type p h = elim (Bool-cases (is_empty p.stmt.object_name)) [
  | inl e ↦ rw e (h, refl)
  | inr e ↦ rw e (set_stmt-Holds text line p _ h refl, refl)
]
