-- ===== src/Exit/Highest.antt =====
-- HighestExitCode returns the first of the errors with the highest exit code.
use mathlib.Core.Path.{subst}
use skeema.Prelude.{
  ℕ, ◌<◌, ◌≤◌, List, [], ◌∷◌, ◌++◌, Option, none, ◌≡◌, ◌⊎◌, inl, inr, refl, sym, ap, arith,
  Bool-cases, ltb, All,
}
use skeema.Exit.{Error, exit_code, highest_loop, highest_exit_code}

-- All codes are below, or at most, the given one.
abbrev pub Below : ℕ → List (Option Error) → Type 0
Below code = All (λ err. exit_code err < code)

abbrev pub AtMost : ℕ → List (Option Error) → Type 0
AtMost code = All (λ err. exit_code err ≤ code)

-- The error stands in the list, the ones before it have lower codes, and the ones behind it have no
-- higher ones.
abbrev pub First : Option Error → List (Option Error) → Type 0
First err errs =
    (before : List (Option Error)) × (after : List (Option Error)) × (errs ≡ before ++ err ∷ after)
    × Below (exit_code err) before
    × AtMost (exit_code err) after

-- The loop keeps what it has unless something higher comes.
Loop : Option Error → ℕ → List (Option Error) → Option Error → Type 0
Loop kept code errs result =
    ((result ≡ kept) × AtMost code errs) ⊎ ((code < exit_code result) × First result errs)

take_higher :
    (kept : Option Error) (code : ℕ) (err : Option Error) (errs : List (Option Error))
    → code < exit_code err
    → (result : Option Error) → Loop err (exit_code err) errs result
    → Loop kept code (err ∷ errs) result
unfolding Loop
take_higher kept code err errs h result (inl (same, rest)) =
    subst (λ r. Loop kept code (err ∷ errs) r) (sym same) (inr (h, ([], errs, refl, tt, rest)))
take_higher kept code err errs h result (inr (more, (before, after, split, low, high))) =
    inr (omega arith, (err ∷ before, after, ap (◌∷◌ err) split, (more, low), high))

pass_lower :
    (kept : Option Error) (code : ℕ) (err : Option Error) (errs : List (Option Error))
    → exit_code err ≤ code
    → (result : Option Error) → Loop kept code errs result
    → Loop kept code (err ∷ errs) result
unfolding Loop
pass_lower kept code err errs h result (inl (same, rest)) = inl (same, (h, rest))
pass_lower kept code err errs h result (inr (more, (before, after, split, low, high))) =
    inr (more, (err ∷ before, after, ap (◌∷◌ err) split, (omega arith, low), high))

highest_loop-Loop :
    (kept : Option Error) (code : ℕ) (errs : List (Option Error))
    → Loop kept code errs (highest_loop kept code errs)
unfolding highest_loop Loop
highest_loop-Loop kept code [] = inl (refl, tt)
highest_loop-Loop kept code (err ∷ errs) = elim (Bool-cases (ltb code (exit_code err))) [
  | inl e ↦
      rw e (
        take_higher kept code err errs (ground arith) _
          (highest_loop-Loop err (exit_code err) errs))
  | inr e ↦ rw e (pass_lower kept code err errs (ground arith) _ (highest_loop-Loop kept code errs))
]

-- HighestExitCode returns nil where every exit code is 0, and otherwise the first of its arguments
-- with the highest exit code: those before it have lower ones, those behind it no higher ones.
pub highest_exit_code-First :
    (errs : List (Option Error))
    → ((highest_exit_code errs ≡ none) × AtMost 0 errs)
      ⊎ ((0 < exit_code (highest_exit_code errs)) × First (highest_exit_code errs) errs)
unfolding highest_exit_code Loop
highest_exit_code-First errs = highest_loop-Loop none 0 errs
