-- ===== src/Shell.antt =====
-- ShellOut of internal/util/shellout.go and shellout_unix.go: commands with placeholders of format
-- {VARNAME}, and the quoting of their values.
pub mod Quoting
pub mod Placeholders
pub mod Suffix
pub mod Hidden
pub mod Failures
use skeema.Prelude.{
  ℕ, Bool, true, false, not, ◌&&◌, ◌||◌, List, [], ◌∷◌, ◌++◌, Option, none, some, Text, txt,
  text_eq, ◌==◌, if◌then◌else◌, is_empty, nat_beq, leb, to_upper, contains, replace_byte, is_digit,
}

pub record ShellOut : Type 0 where
  pub command : Text
  pub printable_command : Text
  pub dir : Text
  pub timeout : ℕ
  pub combine_output : Bool

-- ShellOut.String
abbrev pub shell_out_text : ShellOut → Text
shell_out_text s = if not (is_empty s.printable_command) then s.printable_command else s.command

-- A byte of the class [\w/@%=:.,+-]
unfoldable pub is_plain : ℕ → Bool
is_plain c =
    ((leb b'a' c && leb c b'z') || (leb b'A' c && leb c b'Z') || is_digit c || nat_beq c b'_')
    || (nat_beq c b'/' || nat_beq c b'@' || nat_beq c b'%' || nat_beq c b'=' || nat_beq c b':')
    || (nat_beq c b'.' || nat_beq c b',' || nat_beq c b'+' || nat_beq c b'-')

-- The regular expression noQuotesNeeded.
unfoldable pub no_quotes_needed : Text → Bool
unfolding is_plain
no_quotes_needed [] = true
no_quotes_needed (c ∷ s) = is_plain c && no_quotes_needed s

-- The four quotes that stand for a single quote, with the quotes that end and begin again.
abbrev pub escaped_quote : Text
escaped_quote = txt "'\"'\"'"

unfoldable pub escape_var_value : Text → Text
unfolding no_quotes_needed replace_byte
escape_var_value value =
    if no_quotes_needed value
    then value
    else txt "'" ++ (replace_byte value b'\'' escaped_quote ++ txt "'")

-- The map of variables.
unfoldable pub find_variable : Text → List (Text × Text) → Option Text
unfolding text_eq
find_variable name [] = none
find_variable name (v ∷ vs) = if name == v.0 then some v.1 else find_variable name vs

-- What the replacer does with a placeholder.
pub data Replacement : Type 0 where
  value_of hidden_value : Text → Replacement
  unknown_variable : Replacement
  index_panic : Replacement

-- The name with its last byte taken off, where that is an X; no name is empty, or the index panics.
unfoldable pub without_x : Text → Option Text
without_x [] = none
without_x (c ∷ []) = if nat_beq c b'X' then some [] else none
without_x (c ∷ d ∷ s) = elim (without_x (d ∷ s)) [ none ↦ none | some r ↦ some (c ∷ r) ]

abbrev pub hidden_or_unknown : Option Text → Replacement
hidden_or_unknown none = unknown_variable
hidden_or_unknown (some value) = hidden_value value

abbrev pub replace_shorter : Option Text → List (Text × Text) → Replacement
replace_shorter none variables = unknown_variable
replace_shorter (some shorter) variables = hidden_or_unknown (find_variable shorter variables)

abbrev pub replace_known : Option Text → Text → List (Text × Text) → Replacement
replace_known (some value) name variables = value_of value
replace_known none name variables =
    if is_empty name then index_panic else replace_shorter (without_x name) variables

unfoldable pub replacement : List (Text × Text) → Text → Replacement
unfolding find_variable without_x
replacement variables name =
    let upper = to_upper name in replace_known (find_variable upper variables) upper variables

-- What a pass over the command makes: its text, the error variable, and whether it panics.
pub record Pass : Type 0 where
  pub text : Text
  pub error : Option Text
  pub panics : Bool

abbrev pub literal : Text → Pass → Pass
literal s p = record p { text = s ++ p.text }

abbrev pub braced : Text → Text
braced name = b'{' ∷ (name ++ b'}' ∷ [])

-- A later error replaces an earlier one.
abbrev pub unknown_error : Text → Option Text → Option Text
unknown_error name none = some (txt "Unknown variable " ++ braced name)
unknown_error name (some later) = some later

abbrev pub replaced : Bool → Text → Replacement → Pass → Pass
replaced for_display name (value_of value) p = record p { text = escape_var_value value ++ p.text }
replaced true name (hidden_value value) p = record p { text = txt "XXXXX" ++ p.text }
replaced false name (hidden_value value) p = record p { text = escape_var_value value ++ p.text }
replaced for_display name unknown_variable p = record p {
  text = braced name ++ p.text;
  error = unknown_error name p.error;
}
replaced for_display name index_panic p = record p { panics = true }

-- varPlaceholder.ReplaceAllStringFunc(command, replacer); `name` is what was read since an opening
-- brace that is not closed.
unfoldable pub interpolate : Bool → List (Text × Text) → Option Text → Text → Pass
unfolding replacement
interpolate for_display variables none [] = record { text = []; error = none; panics = false }
interpolate for_display variables (some name) [] = record {
  text = b'{' ∷ name;
  error = none;
  panics = false;
}
interpolate for_display variables none (c ∷ s) =
    let opened = interpolate for_display variables (some []) s in
    let more = literal (c ∷ []) (interpolate for_display variables none s) in
    if nat_beq c b'{' then opened else more
interpolate for_display variables (some name) (c ∷ s) =
    let closed =
      replaced for_display name (replacement variables name)
        (interpolate for_display variables none s) in
    let more = interpolate for_display variables (some (name ++ c ∷ [])) s in
    if nat_beq c b'}' then closed else more

abbrev pub last_error : Option Text → Option Text → Option Text
last_error first none = first
last_error first (some second) = some second

pub record Interpolated : Type 0 where
  pub shell_out : ShellOut
  pub error : Option Text
  pub panics : Bool

abbrev pub plain_shell_out : Text → Text → ShellOut
plain_shell_out command printable = record {
  command = command;
  printable_command = printable;
  dir = [];
  timeout = 0;
  combine_output = false;
}

-- NewInterpolatedShellOut
unfoldable pub new_interpolated_shell_out : Text → List (Text × Text) → Interpolated
unfolding interpolate contains
new_interpolated_shell_out command variables =
    let run = interpolate false variables none command in
    let shown = interpolate true variables none command in
    if contains (to_upper command) (txt "X}")
    then record {
      shell_out = plain_shell_out run.text shown.text;
      error = last_error run.error shown.error;
      panics = run.panics || shown.panics;
    }
    else record { shell_out = plain_shell_out run.text []; error = run.error; panics = run.panics }
