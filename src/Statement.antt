-- ===== src/Statement.antt =====
-- Statement of internal/tengo/statement.go.
pub mod Trim
pub mod Trailer
pub mod Normal
use skeema.Prelude.{
  ℕ, ◌+◌, Bool, true, false, not, ◌&&◌, ◌||◌, List, [], ◌∷◌, ◌++◌, Option, none, some, Text, txt,
  text_eq, ◌==◌, ◌!=◌, if◌then◌else◌, is_empty, nat_beq, contains, has_suffix, take, drop, length,
  ◌-◌, replace_first, itoa,
}
use skeema.Escape.{escape_identifier}
use skeema.Objects.{ObjectType, object_nil, ObjectKey}

pub data StatementType : Type 0 where
  statement_unknown statement_noop statement_command statement_create statement_alter :
      StatementType

pub record Statement : Type 0 where
  pub file : Text
  pub line_no : ℕ
  pub char_no : ℕ
  pub text : Text
  pub default_database : Text
  pub type : StatementType
  pub object_type : ObjectType
  pub object_name : Text
  pub object_qualifier : Text
  pub delimiter : Text
  pub compound : Bool
  pub name_clause : Text

abbrev colons : Text → ℕ → ℕ → Text
colons file line_no char_no = file ++ (txt ":" ++ (itoa line_no ++ (txt ":" ++ itoa char_no)))

-- Location
unfoldable pub location : Statement → Text
location stmt =
    if is_empty stmt.file && nat_beq stmt.line_no 0 && nat_beq stmt.char_no 0
    then []
    else if is_empty stmt.file
    then colons (txt "unknown") stmt.line_no stmt.char_no
    else colons stmt.file stmt.line_no stmt.char_no

abbrev pub statement_key : Statement → ObjectKey
statement_key stmt = record { type = stmt.object_type; name = stmt.object_name }

-- Statement.Schema
unfoldable pub statement_schema : Statement → Text
statement_schema stmt =
    if not (is_empty stmt.object_qualifier) then stmt.object_qualifier else stmt.default_database

abbrev pub is_blank : ℕ → Bool
is_blank c = nat_beq c b'\n' || nat_beq c b'\r' || nat_beq c b'\t' || nat_beq c b' '

-- strings.TrimRight(s, "\n\r\t ")
unfoldable pub trim_right : Text → Text
trim_right [] = []
trim_right (c ∷ s) = let rest = trim_right s in if is_blank c && is_empty rest then [] else c ∷ rest

-- strings.TrimSuffix
unfoldable pub trim_suffix : Text → Text → Text
unfolding has_suffix
trim_suffix s suffix = if has_suffix s suffix then take (length s - length suffix) s else s

abbrev null_delimiter : Text
null_delimiter = 0 ∷ []

-- No delimiter, or the one that stands for none.
abbrev pub no_delimiter : Statement → Bool
no_delimiter stmt = is_empty stmt.delimiter || stmt.delimiter == null_delimiter

-- The body of SplitTextBody.
unfoldable pub text_body : Statement → Text
unfolding trim_right trim_suffix text_eq
text_body stmt =
    if not (no_delimiter stmt)
    then trim_right (trim_suffix (trim_right stmt.text) stmt.delimiter)
    else trim_right stmt.text

-- SplitTextBody
unfoldable pub split_text_body : Statement → Text × Text
unfolding text_body
split_text_body stmt = (text_body stmt, drop (length (text_body stmt)) stmt.text)

-- Body
unfoldable pub statement_body : Statement → Text
unfolding split_text_body replace_first escape_identifier
statement_body stmt =
    let body = (split_text_body stmt).0 in
    if is_empty stmt.object_qualifier || is_empty stmt.name_clause
    then body
    else replace_first body stmt.name_clause (escape_identifier stmt.object_name)

abbrev unknown_or_noop : StatementType → Bool
unknown_or_noop statement_unknown = true
unknown_or_noop statement_noop = true
unknown_or_noop _ = false

-- Adds a newline to the text unless the trailer has one.
abbrev ends_line : Text → Text → Text
ends_line trailer text = if not (contains trailer (txt "\n")) then text ++ txt "\n" else text

-- NormalizeTrailer: the new text
unfoldable pub normalized_text : Statement → Text
unfolding split_text_body contains text_eq
normalized_text stmt =
    let (body, trailer) = split_text_body stmt in
    if no_delimiter stmt || unknown_or_noop stmt.type
    then ends_line trailer stmt.text
    else if not (contains trailer stmt.delimiter)
    then ends_line trailer (body ++ (stmt.delimiter ++ trailer))
    else ends_line trailer stmt.text

abbrev pub normalize_trailer : Statement → Statement
normalize_trailer stmt = record stmt { text = normalized_text stmt }
