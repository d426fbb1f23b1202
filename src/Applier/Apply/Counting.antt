-- ===== src/Applier/Apply/Counting.antt =====
-- What processSQL runs and counts, and which statements the loop of ApplyTarget plans.
use skeema.Prelude.{
  ℕ, ◌+◌, Bool, true, false, ◌||◌, List, [], ◌∷◌, ◌++◌, Option, Text, length, ◌≡◌, refl, ap, sym,
  ◌∙◌, arith, Bool-cases, Option-cases, inl, inr,
}
use skeema.Diff.{forbidden, unsupported, other_error}
use skeema.Diff.Schema.{ObjectDiff}
use skeema.Applier.Ddl.{DdlStatement, diff_error, message, config_error}
use skeema.Applier.Ddl.Plan.{Planning, noop, planned, failed, panicked}
use skeema.Applier.Apply.{Plans, plan_step, plan_loop, process_sql}

dry_run :
    (execute : ℕ → DdlStatement → Option Text) (n : ℕ) (stmts : List DdlStatement)
    → ((process_sql true execute n stmts).printed ≡ stmts)
      × (((process_sql true execute n stmts).done ≡ [])
          × ((process_sql true execute n stmts).skip_count ≡ 0))
unfolding process_sql
dry_run execute n [] = (refl, (refl, refl))
dry_run execute n (stmt ∷ stmts) =
    let rest = dry_run execute n stmts in (ap (◌∷◌ stmt) rest.0, (rest.1.0, rest.1.1))

live_run :
    (execute : ℕ → DdlStatement → Option Text) (n : ℕ) (stmts : List DdlStatement)
    → (rest : List DdlStatement) × (((process_sql false execute n stmts).done ++ rest ≡ stmts)
        × ((process_sql false execute n stmts).skip_count ≡ length rest))
unfolding process_sql
live_run execute n [] = ([], (refl, refl))
live_run execute n (stmt ∷ stmts) = elim (Option-cases (execute n stmt)) [
  | inr error ↦ (stmt ∷ stmts, (simp error.1, simp error.1))
  | inl ran ↦
      let more = live_run execute (n + 1) stmts in
      (more.0, (simp (ran) (ap (◌∷◌ stmt) more.1.0), simp (ran) (more.1.1)))
]

-- processSQL: in a dry run it prints every statement, runs none and skips none; otherwise the
-- statements that run with success are the first ones, in their order, and all others are counted as
-- skipped.
pub process_sql_runs_a_prefix :
    (execute : ℕ → DdlStatement → Option Text) (n : ℕ) (stmts : List DdlStatement)
    → (((process_sql true execute n stmts).printed ≡ stmts)
        × (((process_sql true execute n stmts).done ≡ [])
            × ((process_sql true execute n stmts).skip_count ≡ 0)))
      × ((rest : List DdlStatement) × (((process_sql false execute n stmts).done ++ rest ≡ stmts)
            × ((process_sql false execute n stmts).skip_count ≡ length rest)))
process_sql_runs_a_prefix execute n stmts = (dry_run execute n stmts, live_run execute n stmts)

-- An error that is not about an unsupported table, or a panic.
unfoldable pub fails : Planning → Bool
fails noop = false
fails (planned ddl) = false
fails (failed (diff_error (unsupported key reason expected actual))) = false
fails (failed (diff_error (forbidden reason stmt))) = true
fails (failed (diff_error (other_error e))) = true
fails (failed (message e)) = true
fails (failed (config_error e)) = true
fails panicked = true

unfoldable pub any_fails : (ObjectDiff → Planning) → List ObjectDiff → Bool
unfolding fails
any_fails plan [] = false
any_fails plan (d ∷ ds) = fails (plan d) || any_fails plan ds

abbrev pub planned_one : Planning → List DdlStatement
planned_one (planned ddl) = ddl ∷ []
planned_one noop = []
planned_one (failed e) = []
planned_one panicked = []

-- The statements that are planned for the diffs.
unfoldable pub planned_of : (ObjectDiff → Planning) → List ObjectDiff → List DdlStatement
planned_of plan [] = []
planned_of plan (d ∷ ds) = planned_one (plan d) ++ planned_of plan ds

abbrev pub ended : Plans → Bool
ended p = p.stopped || p.panics

append_nil : (l : List DdlStatement) → l ≡ l ++ []
append_nil [] = refl
append_nil (x ∷ l) = ap (◌∷◌ x) (append_nil l)

append_assoc : (a b c : List DdlStatement) → (a ++ b) ++ c ≡ a ++ (b ++ c)
append_assoc [] b c = refl
append_assoc (x ∷ a) b c = ap (◌∷◌ x) (append_assoc a b c)

plan_step-effect :
    (total : ℕ) (d : ObjectDiff) (r : Planning) (p : Plans)
    → ended p ≡ false
    → (ended (plan_step total d r p) ≡ fails r)
      × ((plan_step total d r p).stmts ≡ p.stmts ++ planned_one r)
unfolding plan_step fails
plan_step-effect total d noop p go = (go, append_nil p.stmts)
plan_step-effect total d (planned ddl) p go = (go, refl)
plan_step-effect total d (failed (diff_error (unsupported a b c e))) p go = (go, append_nil p.stmts)
plan_step-effect total d (failed (diff_error (forbidden a b))) p go = (refl, append_nil p.stmts)
plan_step-effect total d (failed (diff_error (other_error a))) p go = (refl, append_nil p.stmts)
plan_step-effect total d (failed (message a)) p go = (refl, append_nil p.stmts)
plan_step-effect total d (failed (config_error a)) p go = (refl, append_nil p.stmts)
plan_step-effect total d panicked p go = (ground arith, append_nil p.stmts)

plan_loop-ended :
    (plan : ObjectDiff → Planning) (total : ℕ) (ds : List ObjectDiff) (p : Plans)
    → ended p ≡ true
    → plan_loop plan total ds p ≡ p
unfolding plan_loop
plan_loop-ended plan total [] p stop = refl
plan_loop-ended plan total (d ∷ ds) p stop = simp stop

-- The loop ends early exactly if the planning of some diff fails; else it has the statements that
-- are planned for the diffs.
pub plan_loop-effect :
    (plan : ObjectDiff → Planning) (total : ℕ) (ds : List ObjectDiff) (p : Plans)
    → ended p ≡ false
    → (ended (plan_loop plan total ds p) ≡ any_fails plan ds)
      × (any_fails plan ds ≡ false
          → (plan_loop plan total ds p).stmts ≡ p.stmts ++ planned_of plan ds)
unfolding plan_loop any_fails planned_of
plan_loop-effect plan total [] p go = (go, λ none'. append_nil p.stmts)
plan_loop-effect plan total (d ∷ ds) p go =
    let step = plan_step-effect total d (plan d) p go in
    let next = plan_step total d (plan d) p in
    elim (Bool-cases (fails (plan d))) [
      | inl failing ↦
          let stop = plan_loop-ended plan total ds next (step.0 ∙ failing) in
          (simp (go, failing) (ap ended stop ∙ (step.0 ∙ failing)), λ none'. cc (none', failing))
      | inr fine ↦
          let rest = plan_loop-effect plan total ds next (step.0 ∙ fine) in
          (
            simp (go, fine) (rest.0),
            λ none'. simp (go) (
                rest.1 (sym (ap (λ (b : Bool). b || any_fails plan ds) fine) ∙ none')
                ∙ (ap (λ (l : List DdlStatement). l ++ planned_of plan ds) step.1
                    ∙ append_assoc p.stmts (planned_one (plan d)) (planned_of plan ds))),
          )
    ]
