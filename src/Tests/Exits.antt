-- ===== src/Tests/Exits.antt =====
-- A run of HighestExitCode, and the theorem applied to it.
use skeema.Prelude.{◌<◌, List, [], ◌∷◌, Option, none, some, txt, ◌≡◌, ◌⊎◌, refl}
use skeema.Exit.{Error, exit_coder, other_error, wrapping, exit_code, highest_exit_code}
use skeema.Exit.Highest.{AtMost, First, highest_exit_code-First}

abbrev outcomes : List (Option Error)
outcomes =
    none
    ∷ some (exit_coder 1 (txt "differences found"))
    ∷ some (other_error (txt "connection refused"))
    ∷ some (wrapping (txt "skipped") (exit_coder 2 (txt "partial")))
    ∷ []

first_fatal : highest_exit_code outcomes ≡ some (other_error (txt "connection refused"))
unfolding highest_exit_code
first_fatal = refl

highest_exit_code-First_example :
    ((highest_exit_code outcomes ≡ none) × AtMost 0 outcomes)
    ⊎ ((0 < exit_code (highest_exit_code outcomes)) × First (highest_exit_code outcomes) outcomes)
highest_exit_code-First_example = highest_exit_code-First outcomes
