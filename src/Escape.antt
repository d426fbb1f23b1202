-- ===== src/Escape.antt =====
-- EscapeIdentifier and EscapeValueForCreateTable of internal/tengo/util.go.
pub mod Laws
use skeema.Prelude.{ℕ, List, [], ◌∷◌, ◌++◌, Text, txt, replace_byte}

-- Doubles every backtick and wraps the result in backticks.
unfoldable pub escape_identifier : Text → Text
unfolding replace_byte
escape_identifier input = b'`' ∷ (replace_byte input b'`' (txt "``") ++ txt "`")

-- The table of replacements, in the source's order; every `old` is one byte.
abbrev pub replacements : List (ℕ × Text)
replacements =
    (b'\\', txt "\\\\")
    ∷ (0, txt "\\0")
    ∷ (b'\'', txt "''")
    ∷ (b'\n', txt "\\n")
    ∷ (b'\r', txt "\\r")
    ∷ []

unfoldable pub replace_all : Text → List (ℕ × Text) → Text
replace_all input [] = input
replace_all input ((old, new) ∷ rest) = replace_all (replace_byte input old new) rest

unfoldable pub escape_value_for_create_table : Text → Text
unfolding replace_byte replace_all
escape_value_for_create_table input = replace_all input replacements
