-- ===== src/Applier/ApplyTarget.antt =====
-- ApplyTarget of internal/applier/applier.go. Parameters: what the instance answers to introspection,
-- what the linter returns, and what the execution of each statement returns.
pub mod AllOrNothing
use skeema.Prelude.{
  ℕ, ◌+◌, Bool, true, false, ◌||◌, List, [], Option, none, some, Text, txt, if◌then◌else◌, length,
  ltb,
}
use skeema.Objects.{Schema, ObjectKey}
use skeema.Flavor.{Flavor}
use skeema.Clause.{
  StatementModifiers, PartitioningMode, partitioning_permissive, partitioning_remove,
  partitioning_keep,
}
use skeema.Diff.Schema.{MapOrder, ObjectDiff, SchemaDiff, new_schema_diff, object_diffs}
use skeema.Applier.Modifiers.{Config, statement_modifiers_for_dir}
use skeema.Applier.Ddl.{Target, DdlStatement}
use skeema.Applier.Ddl.Plan.{Surroundings, Planning, new_ddl_statement}
use skeema.Applier.Verify.{VerifyEnv, VerifyError, missing_table_panic, verify_diff}
use skeema.Applier.Apply.{
  Result, no_result, strip_partition_clauses, Plans, no_plans, plan_loop, Processed, process_sql,
}

pub record Environment : Type 0 where
  pub surroundings : Surroundings
  pub order : MapOrder
  pub flavor : Flavor
  pub schema_from_instance : Option Schema × Option Text
  pub verify : VerifyEnv
  pub lint_options : Option Text
  pub lint_errors : List ObjectKey → ℕ
  pub execute : ℕ → DdlStatement → Option Text

-- An error of introspection, one of the configuration, and one of VerifyDiff.
pub data ApplyError : Type 0 where
  instance_error config_error : Text → ApplyError
  verify_error : VerifyError → ApplyError

pub record Applied : Type 0 where
  pub result : Result
  pub error : Option ApplyError
  pub printed : List DdlStatement
  pub done : List DdlStatement
  pub panics : Bool

abbrev pub returned : Result → Option ApplyError → Applied
returned result error = record {
  result = result;
  error = error;
  printed = [];
  done = [];
  panics = false;
}

abbrev pub add_skips : ℕ → Result → Result
add_skips n r = record r { skip_count = r.skip_count + n }

abbrev pub processed : Result → Processed → Applied
processed result p = record {
  result = add_skips p.skip_count result;
  error = none;
  printed = p.printed;
  done = p.done;
  panics = false;
}

-- The end of ApplyTarget, after the linter.
abbrev pub run_plans : Environment → Target → Plans → Applied
run_plans env target plans =
    processed plans.result
      (process_sql (target.config.get_bool (txt "dry-run")) env.execute 0 plans.stmts)

abbrev pub lint_plans : Environment → Target → ℕ → Plans → Option Text → Applied
lint_plans env target total plans (some e) = returned plans.result (some (config_error e))
lint_plans env target total plans none =
    if ltb 0 (env.lint_errors plans.keys)
    then returned (add_skips total plans.result) none
    else run_plans env target plans

-- From the planned statements on.
unfoldable pub finish : Environment → Target → ℕ → Plans → Applied
unfolding process_sql
finish env target total plans =
    if plans.panics
    then record (returned plans.result none) { panics = true }
    else if plans.stopped
    then returned plans.result none
    else if target.config.get_bool (txt "lint")
    then lint_plans env target total plans env.lint_options
    else run_plans env target plans

-- The schema of the directory without its partition clauses, where partitioning=remove.
unfoldable pub desired_schema : StatementModifiers → Schema → Schema
unfolding strip_partition_clauses
desired_schema mods to = elim mods.partitioning [
  | partitioning_remove ↦ record to { tables = strip_partition_clauses to.tables mods.flavor }
  | partitioning_permissive ↦ to
  | partitioning_keep ↦ to
]

abbrev pub plans_of : Environment → Target → StatementModifiers → List ObjectDiff → Plans
plans_of env target mods diffs =
    plan_loop (λ diff. new_ddl_statement env.surroundings diff mods target) (length diffs) diffs
      no_plans

abbrev pub apply_diff :
    Environment → Target → StatementModifiers → SchemaDiff → Option VerifyError → Applied
apply_diff env target mods diff (some (missing_table_panic table)) =
    record (returned no_result none) { panics = true }
apply_diff env target mods diff (some e) = returned no_result (some (verify_error e))
apply_diff env target mods diff none =
    let diffs = object_diffs diff in
    finish env target (length diffs) (plans_of env target mods diffs)

-- Of env.verify, what the workspace answers.
abbrev verify_env : Environment → Target → VerifyEnv
verify_env env target = record (env.verify) {
  config = target.config;
  flavor = env.flavor;
  order = env.order.foreign_keys;
}

abbrev pub apply_modified :
    Environment → Target → Option Schema → Schema → StatementModifiers × Option Text → Applied
apply_modified env target from to (mods, some e) = returned no_result (some (config_error e))
apply_modified env target from to (mods, none) =
    let diff = new_schema_diff env.order from (some (desired_schema mods to)) in
    apply_diff env target mods diff (verify_diff (verify_env env target) diff)

abbrev pub apply_introspected :
    Environment → Target → Schema → Option Schema × Option Text → Applied
apply_introspected env target to (from, some e) =
    returned (add_skips 1 no_result) (some (instance_error e))
apply_introspected env target to (from, none) =
    apply_modified env target from to (statement_modifiers_for_dir target.config env.flavor)

-- ApplyTarget, for a schema of the directory.
unfoldable pub apply_target : Environment → Target → Schema → Applied
unfolding finish new_ddl_statement desired_schema verify_diff
apply_target env target to = apply_introspected env target to env.schema_from_instance
