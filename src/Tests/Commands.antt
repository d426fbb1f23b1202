-- ===== src/Tests/Commands.antt =====
-- Runs of commands with placeholders.
use skeema.Prelude.{
  true, false, List, [], ◌∷◌, ◌++◌, none, some, Text, txt, text_eq, ◌==◌, ◌≡◌, refl, is_empty,
  has_prefix, contains, replace_byte,
}
use skeema.Shell.{
  shell_out_text, find_variable, without_x, replacement, escape_var_value, no_quotes_needed,
  is_plain, interpolate, new_interpolated_shell_out,
}
use skeema.Shell.Placeholders.{some_name, is_some}
use skeema.Shell.Quoting.{unquoted, shell_word, ends_word, is_blank, shell_word-escape_var_value}
use skeema.Shell.Hidden.{AgreeBut, shell_out_text_hides_secret}
use skeema.Shell.Failures.{unknown_name, new_interpolated_shell_out_failures}

abbrev login : Text
login = txt "mysql -p{PASSWORDX} {SCHEMA} {}"

abbrev with_password : Text → List (Text × Text)
with_password p = (txt "PASSWORD", p) ∷ (txt "SCHEMA", txt "it's") ∷ []

login_shown :
    shell_out_text
      (new_interpolated_shell_out
        (txt "mysql -p{PASSWORDX} {SCHEMA}")
        (with_password (txt "hunter2"))).shell_out
    ≡ txt "mysql -pXXXXX 'it'\"'\"'s'"
unfolding new_interpolated_shell_out interpolate contains has_prefix replacement find_variable
    without_x escape_var_value no_quotes_needed is_plain replace_byte text_eq
login_shown = refl

space-ends_word : ends_word (txt " x") ≡ true
unfolding ends_word is_blank
space-ends_word = refl

login-unnamed : some_name (λ u. u == txt "PASSWORD") none login ≡ false
unfolding some_name text_eq
login-unnamed = refl

no_empty_name : find_variable [] (with_password (txt "hunter2")) ≡ none
unfolding find_variable text_eq
no_empty_name = refl

same_others :
    (name v w : Text)
    → (name == txt "PASSWORD") ≡ false
    → find_variable name (with_password v) ≡ find_variable name (with_password w)
unfolding find_variable
same_others name v w other = simp other

shell_word-escape_var_value_example :
    shell_word unquoted (escape_var_value (txt "it's; rm -rf /") ++ txt " x")
    ≡ some (txt "it's; rm -rf /", txt " x")
shell_word-escape_var_value_example =
    shell_word-escape_var_value (txt "it's; rm -rf /") (txt " x") space-ends_word

passwords-AgreeBut :
    AgreeBut (txt "PASSWORD") (with_password (txt "hunter2")) (with_password (txt "s3cret"))
unfolding find_variable text_eq
passwords-AgreeBut = record {
  others = λ name. same_others name (txt "hunter2") (txt "s3cret");
  left = (txt "hunter2", refl);
  right = (txt "s3cret", refl);
}

shell_out_text_hides_secret_example :
    shell_out_text (new_interpolated_shell_out login (with_password (txt "hunter2"))).shell_out
    ≡ shell_out_text (new_interpolated_shell_out login (with_password (txt "s3cret"))).shell_out
shell_out_text_hides_secret_example =
    shell_out_text_hides_secret (txt "PASSWORD") login (with_password (txt "hunter2"))
      (with_password (txt "s3cret")) passwords-AgreeBut login-unnamed

new_interpolated_shell_out_failures_example :
    ((new_interpolated_shell_out login (with_password (txt "hunter2"))).panics
      ≡ some_name is_empty none login)
    × (is_some (new_interpolated_shell_out login (with_password (txt "hunter2"))).error
        ≡ some_name (unknown_name (with_password (txt "hunter2"))) none login)
new_interpolated_shell_out_failures_example =
    new_interpolated_shell_out_failures login (with_password (txt "hunter2")) no_empty_name
