-- ===== src/Applier/Apply.antt =====
-- Result and ApplyTarget of internal/applier/applier.go, and processSQL of target.go.
pub mod Counting
use skeema.Prelude.{
  ℕ, ◌+◌, ◌-◌, Bool, true, false, not, ◌&&◌, ◌||◌, List, [], ◌∷◌, ◌++◌, map, Option, none, some,
  Text, txt, text_eq, if◌then◌else◌, is_empty, length, ltb, nat_beq, itoa,
}
use skeema.Flavor.{Flavor}
use skeema.Objects.{Table, Schema, ObjectKey}
use skeema.Clause.{
  StatementModifiers, PartitioningMode, partitioning_permissive, partitioning_remove,
  partitioning_keep,
}
use skeema.Diff.{DiffError, forbidden, unsupported, other_error}
use skeema.Diff.Parse.{unpartitioned_create_statement}
use skeema.Diff.Schema.{MapOrder, ObjectDiff, SchemaDiff, new_schema_diff, object_diffs}
use skeema.Applier.Modifiers.{Config, statement_modifiers_for_dir}
use skeema.Applier.Ddl.{
  Target, DdlStatement, DdlError, diff_error, message, config_error, object_diff_key,
}
use skeema.Applier.Ddl.Plan.{
  Surroundings, Planning, noop, planned, failed, panicked, new_ddl_statement,
}

pub record Result : Type 0 where
  pub differences : Bool
  pub skip_count : ℕ
  pub unsupported_count : ℕ

abbrev pub no_result : Result
no_result = record { differences = false; skip_count = 0; unsupported_count = 0 }

-- Result.Merge
unfoldable pub merge : Result → Result → Result
merge r other = record {
  differences = r.differences || other.differences;
  skip_count = r.skip_count + other.skip_count;
  unsupported_count = r.unsupported_count + other.unsupported_count;
}

-- Result.Summary
unfoldable pub summary : Result → Text
summary r =
    let total = r.skip_count + r.unsupported_count in
    let plural = if ltb 1 total then txt "s" else [] in
    let reason =
      if nat_beq r.skip_count 0
      then txt "unsupported feature"
      else if nat_beq r.unsupported_count 0
      then txt "problem"
      else txt "problems or unsupported feature" in
    if nat_beq total 0
    then []
    else txt "Skipped "
      ++ (itoa total ++ (txt " operation" ++ (plural ++ (txt " due to " ++ (reason ++ plural)))))

-- countAndNoun
unfoldable pub count_and_noun : ℕ → Text → List Text → Text
count_and_noun n noun [] =
    if nat_beq n 1 then txt "1 " ++ noun else itoa n ++ (txt " " ++ (noun ++ txt "s"))
count_and_noun n noun (plural ∷ _) =
    if nat_beq n 1 then txt "1 " ++ noun else itoa n ++ (txt " " ++ plural)

strip_partition_clause : Flavor → Table → Table
strip_partition_clause flavor t = elim t.partitioning [
  | none ↦ t
  | some tp ↦ record t {
    create_statement = unpartitioned_create_statement t flavor;
    partitioning = none;
  }
]

-- stripPartitionClauses
unfoldable pub strip_partition_clauses : List Table → Flavor → List Table
unfolding strip_partition_clause
strip_partition_clauses tables flavor = map (strip_partition_clause flavor) tables

-- The variables of the loop over the diffs; `stopped` is the return in its last branch.
pub record Plans : Type 0 where
  pub stmts : List DdlStatement
  pub keys : List ObjectKey
  pub result : Result
  pub stopped : Bool
  pub panics : Bool

abbrev pub skip_all : ℕ → Result → Result
skip_all total r = record r { differences = true; skip_count = r.skip_count + total }

-- One round of the loop, over `total` diffs.
unfoldable pub plan_step : ℕ → ObjectDiff → Planning → Plans → Plans
plan_step total diff noop p = p
plan_step total diff (planned ddl) p = record p {
  stmts = p.stmts ++ ddl ∷ [];
  keys = p.keys ++ object_diff_key diff ∷ [];
  result = record (p.result) { differences = true };
}
plan_step total diff (failed (diff_error (unsupported key reason expected actual))) p = record p {
  result = record (p.result) {
    differences = true;
    unsupported_count = p.result.unsupported_count + 1;
  };
}
plan_step total diff (failed (diff_error (forbidden reason stmt))) p = record p {
  result = skip_all total p.result;
  stopped = true;
}
plan_step total diff (failed (diff_error (other_error e))) p = record p {
  result = skip_all total p.result;
  stopped = true;
}
plan_step total diff (failed (message e)) p = record p {
  result = skip_all total p.result;
  stopped = true;
}
plan_step total diff (failed (config_error e)) p = record p {
  result = skip_all total p.result;
  stopped = true;
}
plan_step total diff panicked p = record p { panics = true }

-- The loop, given what NewDDLStatement makes of each diff.
unfoldable pub plan_loop : (ObjectDiff → Planning) → ℕ → List ObjectDiff → Plans → Plans
unfolding plan_step
plan_loop plan total [] p = p
plan_loop plan total (diff ∷ diffs) p =
    let rest = plan_loop plan total diffs (plan_step total diff (plan diff) p) in
    if p.stopped || p.panics then p else rest

abbrev pub no_plans : Plans
no_plans = record { stmts = []; keys = []; result = no_result; stopped = false; panics = false }

-- What processSQL prints, runs with success, and counts as skipped.
pub record Processed : Type 0 where
  pub printed : List DdlStatement
  pub done : List DdlStatement
  pub skip_count : ℕ

abbrev pub processed_one : DdlStatement → Bool → Processed → Processed
processed_one stmt ran p = record {
  printed = stmt ∷ p.printed;
  done = if ran then stmt ∷ p.done else p.done;
  skip_count = p.skip_count;
}

-- processSQL; `execute` gives the error, if any, of the n-th statement that is run.
unfoldable pub process_sql :
    Bool → (ℕ → DdlStatement → Option Text) → ℕ → List DdlStatement → Processed
process_sql dry_run execute n [] = record { printed = []; done = []; skip_count = 0 }
process_sql dry_run execute n (stmt ∷ stmts) =
    let shown = processed_one stmt false (process_sql dry_run execute n stmts) in
    let more = processed_one stmt true (process_sql dry_run execute (n + 1) stmts) in
    if dry_run then shown else elim (execute n stmt) [
      | some e ↦ record { printed = stmt ∷ []; done = []; skip_count = length (stmt ∷ stmts) }
      | none ↦ more
    ]
