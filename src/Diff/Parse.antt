-- ===== src/Diff/Parse.antt =====
-- ParseCreateAutoInc and ParseCreatePartitioning of internal/tengo/util.go, their regular expressions
-- written as functions on the text, and the methods that use them.
use skeema.Prelude.{
  ℕ, ◌-◌, Bool, false, not, ◌&&◌, ◌||◌, [], ◌∷◌, ◌++◌, Option, none, some, Text, txt, text_eq,
  if◌then◌else◌, is_empty, has_prefix, has_suffix, take, drop, length, nat_beq, leb, is_digit,
  replace_first, to_lower,
}
use skeema.Clause.Types.{span_digits, decimal}
use skeema.Flavor.{Flavor}
use skeema.Objects.{Table}
use skeema.Objects.Create.{partitioning_definition}

abbrev is_word : ℕ → Bool
is_word c = is_digit c || (leb b'a' c && leb c b'z') || (leb b'A' c && leb c b'Z') || nat_beq c b'_'

drop_word : Text → Text
drop_word [] = []
drop_word (c ∷ s) = if is_word c then drop_word s else c ∷ s

-- ` ENGINE=\w+ (AUTO_INCREMENT=(\d+) )DEFAULT CHARSET=` at the front: the digits
auto_inc_here : Text → Option Text
unfolding has_prefix drop_word span_digits
auto_inc_here s =
    let engine = drop 8 s in
    let rest = drop_word engine in
    let (digits, after) = span_digits (drop 16 rest) in
    if has_prefix s (txt " ENGINE=")
      && not (has_prefix engine (txt " "))
      && has_prefix rest (txt " AUTO_INCREMENT=")
      && not (is_empty digits)
      && has_prefix after (txt " DEFAULT CHARSET=")
    then some digits
    else none

-- The leftmost match of the expression: the digits of the clause.
unfoldable pub find_auto_inc : Text → Option Text
unfolding auto_inc_here
find_auto_inc [] = none
find_auto_inc (c ∷ s) =
    let here = if nat_beq c b')' || nat_beq c b'/' then auto_inc_here s else none in
    elim here [ some digits ↦ some digits | none ↦ find_auto_inc s ]

-- The text of the clause, as the first submatch has it.
abbrev pub auto_inc_clause : Text → Text
auto_inc_clause digits = txt "AUTO_INCREMENT=" ++ (digits ++ txt " ")

-- The statement without its clause: the first place where the text of the clause stands is removed.
unfoldable pub parse_create_auto_inc : Text → Text × ℕ
unfolding find_auto_inc replace_first decimal
parse_create_auto_inc create_stmt = elim (find_auto_inc create_stmt) [
  | none ↦ (create_stmt, 0)
  | some digits ↦ (replace_first create_stmt (auto_inc_clause digits) [], decimal digits)
]

abbrev is_regexp_space : ℕ → Bool
is_regexp_space c = nat_beq c b' ' || (leb 9 c && leb c 13 && not (nat_beq c 11))

skip_space : Text → Text
skip_space [] = []
skip_space (c ∷ s) = if is_regexp_space c then skip_space s else c ∷ s

-- `(?:/\*!?\d*)?`
skip_opener : Text → Text
unfolding has_prefix span_digits
skip_opener s =
    let body = drop 2 s in
    let digits = if has_prefix body (txt "!") then drop 1 body else body in
    if has_prefix s (txt "/*") then (span_digits digits).1 else s

starts_with_space : Text → Bool
starts_with_space [] = false
starts_with_space (c ∷ s) = is_regexp_space c

-- Whether the expression matches from here to the end.
partition_here : Text → Bool
unfolding skip_space skip_opener starts_with_space has_prefix
partition_here s =
    let word = skip_space (skip_opener (skip_space s)) in
    let behind = drop 9 word in
    has_prefix (to_lower word) (txt "partition")
    && starts_with_space behind
    && has_prefix (to_lower (skip_space behind)) (txt "by ")

-- The statement in front of the leftmost match, and the match.
unfoldable pub parse_create_partitioning : Text → Text × Text
unfolding partition_here
parse_create_partitioning [] = ([], [])
parse_create_partitioning (c ∷ s) =
    let rest = parse_create_partitioning s in
    if partition_here (c ∷ s) then ([], c ∷ s) else (c ∷ rest.0, rest.1)

-- UnpartitionedCreateStatement
unfoldable pub unpartitioned_create_statement : Table → Flavor → Text
unfolding has_suffix parse_create_partitioning
unpartitioned_create_statement t flavor =
    let part_clause = partitioning_definition t.partitioning flavor in
    elim t.partitioning [
      | none ↦ t.create_statement
      | some tp ↦
          if has_suffix t.create_statement part_clause
          then take (length t.create_statement - length part_clause) t.create_statement
          else (parse_create_partitioning t.create_statement).0
    ]
