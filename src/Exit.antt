-- ===== src/Exit.antt =====
-- Exit codes, of exit.go.
pub mod Highest
use skeema.Prelude.{ℕ, Bool, List, [], ◌∷◌, Option, none, some, Text, ltb, if◌then◌else◌}

-- An error value, as ExitCode tells them apart: an ExitCoder with its code, such as an ExitValue; a
-- nil *ExitValue; an error that wraps another one; and any other error. An exit code is not negative.
pub data Error : Type 0 where
  exit_coder : (code : ℕ) (message : Text) → Error
  nil_exit_value : Error
  wrapping : (message : Text) → Error → Error
  other_error : (message : Text) → Error

abbrev pub code_success : ℕ
code_success = 0

abbrev pub code_fatal_error : ℕ
code_fatal_error = 2

-- The ExitCode of the first ExitCoder in the chain of wrapped errors
unfoldable pub error_code : Error → ℕ
error_code (exit_coder code message) = code
error_code nil_exit_value = code_success
error_code (wrapping message err) = error_code err
error_code (other_error message) = code_fatal_error

-- ExitCode
unfoldable pub exit_code : Option Error → ℕ
unfolding error_code
exit_code none = code_success
exit_code (some err) = error_code err

-- The loop of HighestExitCode.
unfoldable pub highest_loop : Option Error → ℕ → List (Option Error) → Option Error
unfolding exit_code
highest_loop highest_err highest_code [] = highest_err
highest_loop highest_err highest_code (err ∷ errs) =
    let higher = highest_loop err (exit_code err) errs in
    let same = highest_loop highest_err highest_code errs in
    if ltb highest_code (exit_code err) then higher else same

-- HighestExitCode
unfoldable pub highest_exit_code : List (Option Error) → Option Error
unfolding highest_loop
highest_exit_code errs = highest_loop none 0 errs
