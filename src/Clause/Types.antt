-- ===== src/Clause/Types.antt =====
-- How ModifyColumn.Unsafe of internal/tengo/alterclause.go reads column types: the regular
-- expressions, written as functions on the text, and the strconv calls on what they capture.
use Prim.Native.Nat.{min}
use skeema.Prelude.{
  ℕ, ◌+◌, ◌-◌, ◌*◌, ◌^◌, Bool, true, false, not, ◌&&◌, ◌||◌, List, [], ◌∷◌, Option, none, some,
  Text, txt, text_eq, ◌==◌, if◌then◌else◌, has_prefix, drop, length, is_digit, ltb, nat_beq,
  is_empty,
}

-- `\d+`: the longest run of digits, and what follows it
unfoldable pub span_digits : Text → Text × Text
span_digits [] = ([], [])
span_digits (c ∷ s) =
    let rest = span_digits s in if is_digit c then (c ∷ rest.0, rest.1) else ([], c ∷ s)

decimal_onto : ℕ → Text → ℕ
decimal_onto acc [] = acc
decimal_onto acc (c ∷ s) = decimal_onto (acc * 10 + (c - b'0')) s

unfoldable pub decimal : Text → ℕ
unfolding decimal_onto
decimal s = decimal_onto 0 s

-- strconv.Atoi on digits, its range error ignored: the largest int64 stands for what is larger
unfoldable pub atoi : Text → ℕ
unfolding decimal
atoi s = min (decimal s) (2 ^ 63 - 1)

-- `^head(\d+)tail`, anchored at the front only: the digits
unfoldable pub match_one : Text → Text → Text → Option Text
unfolding span_digits has_prefix
match_one head tail typ =
    let (digits, rest) = span_digits (drop (length head) typ) in
    if has_prefix typ head && not (is_empty digits) && has_prefix rest tail
    then some digits
    else none

-- `^head(\d+),(\d+)\)`
unfoldable pub match_two : Text → Text → Option (Text × Text)
unfolding match_one
match_two head typ =
    let (digits, rest) = span_digits (drop (length head) typ) in
    elim (match_one head (txt ",") typ) [
      | none ↦ none
      | some first ↦ elim (match_one (txt ",") (txt ")") rest) [
        | none ↦ none
        | some second ↦ some (first, second)
      ]
    ]

first_of_two : Option (Text × Text) → Option (Text × Text) → Option (Text × Text)
first_of_two none other = other
first_of_two (some m) other = some m

-- `^(?:float|double)\((\d+),(\d+)\)`
unfoldable pub match_float_or_double : Text → Option (Text × Text)
unfolding match_two first_of_two
match_float_or_double typ =
    first_of_two (match_two (txt "float(") typ) (match_two (txt "double(") typ)

-- `^[^(]+\((\d+)\)`: the first parenthesis, not at the front, and digits inside it
from_paren : Text → Text
from_paren [] = []
from_paren (c ∷ s) = if nat_beq c b'(' then c ∷ s else from_paren s

unfoldable pub match_fsp : Text → Option Text
unfolding from_paren match_one
match_fsp typ =
    if has_prefix typ (txt "(") then none else match_one (txt "(") (txt ")") (from_paren typ)

-- The sizes of a column type with a length limit, as isStringType and isVarBinType return them.
size_of : Option Text → Bool × ℕ
unfolding decimal
size_of none = (false, 0)
size_of (some digits) =
    let n = decimal digits in if ltb n (2 ^ 64) then (true, n) else (false, 2 ^ 64 - 1)

or_else : Option Text → Option Text → Option Text
or_else none other = other
or_else (some digits) other = some digits

unfoldable pub is_string_type : Text → Bool × ℕ
unfolding text_eq size_of or_else match_one
is_string_type typ =
    if typ == txt "tinytext"
    then (true, 255)
    else if typ == txt "text"
    then (true, 65535)
    else if typ == txt "mediumtext"
    then (true, 16777215)
    else if typ == txt "longtext"
    then (true, 4294967295)
    else size_of
        (or_else (match_one (txt "varchar(") (txt ")") typ) (match_one (txt "char(") (txt ")") typ))

unfoldable pub is_var_bin_type : Text → Bool × ℕ
unfolding text_eq size_of match_one
is_var_bin_type typ =
    if typ == txt "tinyblob"
    then (true, 255)
    else if typ == txt "blob"
    then (true, 65535)
    else if typ == txt "mediumblob"
    then (true, 16777215)
    else if typ == txt "longblob"
    then (true, 4294967295)
    else size_of (match_one (txt "varbinary(") (txt ")") typ)

-- The loop over intRank: the last entry that is a prefix, 0 if none is.
unfoldable pub int_rank : Text → ℕ
unfolding has_prefix
int_rank typ =
    if has_prefix typ (txt "bigint")
    then 5
    else if has_prefix typ (txt "int")
    then 4
    else if has_prefix typ (txt "mediumint")
    then 3
    else if has_prefix typ (txt "smallint")
    then 2
    else if has_prefix typ (txt "tinyint")
    then 1
    else 0

unfoldable pub any_text : Text → List Text → Bool
unfolding text_eq
any_text typ [] = false
any_text typ (other ∷ others) = typ == other || any_text typ others

-- isConversionBetween
unfoldable pub is_conversion_between : Text → Text → Text → List Text → Bool
unfolding any_text text_eq
is_conversion_between old_type new_type typ others =
    (old_type == typ || new_type == typ) && (any_text old_type others || any_text new_type others)
