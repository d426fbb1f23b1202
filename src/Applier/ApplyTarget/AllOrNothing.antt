-- ===== src/Applier/ApplyTarget/AllOrNothing.antt =====
-- What ApplyTarget runs, when something of its plan fails.
use skeema.Prelude.{
  ℕ, Bool, true, false, ◌||◌, List, [], ◌++◌, Option, none, some, Text, txt, if◌then◌else◌, length,
  ltb, ◌≡◌, refl, ap, ◌∙◌, Bool-cases, inl, inr,
}
use skeema.Clause.{StatementModifiers}
use skeema.Diff.Schema.{ObjectDiff, SchemaDiff, object_diffs}
use skeema.Applier.Ddl.{Target, DdlStatement}
use skeema.Applier.Ddl.Plan.{new_ddl_statement}
use skeema.Applier.Apply.{Plans, no_plans, process_sql}
use skeema.Applier.Apply.Counting.{
  any_fails, planned_of, ended, plan_loop-effect, process_sql_runs_a_prefix,
}
use skeema.Applier.ApplyTarget.{Environment, finish, lint_plans, plans_of, apply_diff}

-- The first list is the beginning of the second.
abbrev pub PrefixOf : List DdlStatement → List DdlStatement → Type 0
PrefixOf a b = (rest : List DdlStatement) × (a ++ rest ≡ b)

nil-PrefixOf : (b : List DdlStatement) → PrefixOf [] b
nil-PrefixOf b = (b, refl)

process_sql-PrefixOf :
    (dry_run : Bool) (execute : ℕ → DdlStatement → Option Text) (n : ℕ) (stmts : List DdlStatement)
    → PrefixOf (process_sql dry_run execute n stmts).done stmts
process_sql-PrefixOf true execute n stmts = (
  stmts,
  ap (λ (l : List DdlStatement). l ++ stmts) (process_sql_runs_a_prefix execute n stmts).0.1.0,
)
process_sql-PrefixOf false execute n stmts =
    let run = (process_sql_runs_a_prefix execute n stmts).1 in (run.0, run.1.0)

lint_plans-PrefixOf :
    (env : Environment) (target : Target) (total : ℕ) (plans : Plans) (e : Option Text)
    → PrefixOf (lint_plans env target total plans e).done plans.stmts
lint_plans-PrefixOf env target total plans (some e) = nil-PrefixOf plans.stmts
lint_plans-PrefixOf env target total plans none =
    elim (Bool-cases (ltb 0 (env.lint_errors plans.keys))) [
      | inl bad ↦ simp (bad) (nil-PrefixOf plans.stmts)
      | inr good ↦
          simp (good) (
            process_sql-PrefixOf (target.config.get_bool (txt "dry-run")) env.execute 0 plans.stmts)
    ]

finish-PrefixOf :
    (env : Environment) (target : Target) (total : ℕ) (plans : Plans)
    → PrefixOf (finish env target total plans).done plans.stmts
unfolding finish
finish-PrefixOf env target total plans = elim (Bool-cases plans.panics) [
  | inl crash ↦ simp (crash) (nil-PrefixOf plans.stmts)
  | inr calm ↦ elim (Bool-cases plans.stopped) [
    | inl stop ↦ simp (calm, stop) (nil-PrefixOf plans.stmts)
    | inr go ↦ elim (Bool-cases (target.config.get_bool (txt "lint"))) [
      | inl lint ↦
          simp (calm, go, lint) (lint_plans-PrefixOf env target total plans env.lint_options)
      | inr skip ↦
          simp (calm, go, skip)
            (process_sql-PrefixOf (target.config.get_bool (txt "dry-run")) env.execute 0
              plans.stmts)
    ]
  ]
]

finish-ended :
    (env : Environment) (target : Target) (total : ℕ) (plans : Plans)
    → ended plans ≡ true
    → (finish env target total plans).done ≡ []
unfolding finish
finish-ended env target total plans stop = elim (Bool-cases plans.panics) [
  | inl crash ↦ simp crash
  | inr calm ↦ elim (Bool-cases plans.stopped) [
    | inl stopped ↦ simp (calm, stopped)
    | inr go ↦ absurd (cc (stop, ap (λ (b : Bool). b || plans.panics) go, calm))
  ]
]

plan-PrefixOf :
    (bad : Bool) (done stmts plan : List DdlStatement)
    → (bad ≡ true → done ≡ [])
    → (bad ≡ false → stmts ≡ plan)
    → PrefixOf done stmts
    → PrefixOf done (if bad then [] else plan)
plan-PrefixOf true done stmts plan none' all prefix =
    ([], ap (λ (l : List DdlStatement). l ++ []) (none' refl))
plan-PrefixOf false done stmts plan none' all prefix = (prefix.0, prefix.1 ∙ all refl)

-- ApplyTarget, from a verified diff on, for the plan that NewDDLStatement makes of each object diff:
-- the statements that are run with success are the first ones of a list. If for some diff that plan
-- is a panic, or an error which is not about an unsupported table, this list is empty. Otherwise it
-- has the statements planned for the diffs, in the order of the diffs.
pub apply_diff_runs_all_or_nothing :
    (env : Environment) (target : Target) (mods : StatementModifiers) (diff : SchemaDiff)
    → let plan = λ (d : ObjectDiff). new_ddl_statement env.surroundings d mods target in
      PrefixOf
        (apply_diff env target mods diff none).done
        (if any_fails plan (object_diffs diff) then [] else planned_of plan (object_diffs diff))
apply_diff_runs_all_or_nothing env target mods diff =
    let plan = λ (d : ObjectDiff). new_ddl_statement env.surroundings d mods target in
    let ds = object_diffs diff in
    let plans = plans_of env target mods ds in
    let effect = plan_loop-effect plan (length ds) ds no_plans refl in
    plan-PrefixOf (any_fails plan ds) (finish env target (length ds) plans).done plans.stmts
      (planned_of plan ds) (λ bad. finish-ended env target (length ds) plans (effect.0 ∙ bad))
      effect.1 (finish-PrefixOf env target (length ds) plans)
