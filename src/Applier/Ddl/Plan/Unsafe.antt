-- ===== src/Applier/Ddl/Plan/Unsafe.antt =====
-- Which statements NewDDLStatement refuses to plan.
use skeema.Prelude.{
  ℕ, Bool, true, false, not, ◌&&◌, [], ◌∷◌, Option, none, some, Text, txt, if◌then◌else◌, is_empty,
  ltb, ◌≡◌, refl, ap, sym, ◌∙◌, arith, Bool-cases, ◌⊎◌, inl, inr, ◌≢◌,
}
use skeema.Objects.{object_table}
use skeema.Clause.{StatementModifiers}
use skeema.Diff.{
  DiffError, forbidden, unsupported, other_error, is_forbidden_diff, AlterTable, TableDiff,
  create_table, drop_table, alter_table,
}
use skeema.Diff.Statement.{alter_statement, table_diff_statement}
use skeema.Diff.Statement.Safety.{any_unsafe, alter_statement_forbidden_iff_unsafe}
use skeema.Diff.Schema.{ObjectDiff, table_object_diff}
use skeema.Applier.Modifiers.{Config}
use skeema.Applier.Ddl.{
  Target, DdlStatement, DdlError, or_message, or_config_error, object_diff_key,
  object_diff_statement, need_table_size, get_table_size, size_below, sized_modifiers, get_wrapper,
  key_is, is_alter_diff, object_diff_type,
}
use skeema.Applier.Ddl.Plan.{
  Surroundings, planned, plan_result, plan_wrapped, plan_sized, new_ddl_statement,
}

-- A diff of a table that may lose data.
unfoldable pub destructive : TableDiff → Bool
destructive (create_table to) = false
destructive (drop_table from) = true
destructive (alter_table td) = any_unsafe td.alter_clauses

planned-clean :
    (s : Surroundings) (diff : ObjectDiff) (mods : StatementModifiers) (target : Target) (size : ℕ)
    (wrapper : Text) (r : Text × Option DiffError) {ddl : DdlStatement}
    → plan_result s diff mods target size wrapper r ≡ planned ddl
    → (r.1 ≡ none) × (is_empty r.0 ≡ false)
unfolding plan_result
planned-clean s diff mods target size wrapper (stmt, some (forbidden reason text)) e = cc
planned-clean s diff mods target size wrapper (stmt, some (unsupported a b c d)) e = cc
planned-clean s diff mods target size wrapper (stmt, some (other_error m)) e = cc
planned-clean s diff mods target size wrapper ([], none) e = cc
planned-clean s diff mods target size wrapper (c ∷ stmt, none) e = (refl, refl)

unsupported-fails :
    (td : AlterTable) (mods : StatementModifiers)
    → td.supported ≡ false
    → (alter_statement td mods).1 ≢ none
unfolding alter_statement
unsupported-fails td mods no' e = ground arith

-- Without permission the statement of a destructive diff is empty, or has an error.
refused :
    (td : TableDiff) (mods : StatementModifiers)
    → destructive td ≡ true
    → mods.allow_unsafe ≡ false
    → (table_diff_statement td mods).1 ≡ none
    → is_empty (table_diff_statement td mods).0 ≡ false
    → ⊥
unfolding destructive table_diff_statement
refused (create_table to) mods d a e n = cc
refused (drop_table from) mods d a e n = ground arith
refused (alter_table td) mods d a e n = elim (Bool-cases td.supported) [
  | inr no' ↦ unsupported-fails td mods no' e
  | inl yes' ↦
      let verdict = alter_statement_forbidden_iff_unsafe td mods yes' in
      let fine = ap is_forbidden_diff e in cc (verdict, fine, n, a, d)
]

or_config_error-allow :
    (e : Option Text) (mods : StatementModifiers)
    (next : (Text × StatementModifiers) × Option DdlError)
    → next.0.1.allow_unsafe ≡ mods.allow_unsafe
    → (or_config_error e mods next).0.1.allow_unsafe ≡ mods.allow_unsafe
or_config_error-allow none mods next same = same
or_config_error-allow (some e) mods next same = refl

-- A wrapper does not change what is allowed.
get_wrapper-allow :
    (config : Config) (diff : ObjectDiff) (size : ℕ) (mods : StatementModifiers)
    → (get_wrapper config diff size mods).0.1.allow_unsafe ≡ mods.allow_unsafe
unfolding get_wrapper
get_wrapper-allow config diff size mods =
    let min_size = config.get_bytes (txt "alter-wrapper-min-size") in
    let alters = key_is diff object_table && is_alter_diff (object_diff_type diff) in
    elim (Bool-cases (alters && config.changed (txt "alter-wrapper"))) [
      | inr no' ↦ simp no'
      | inl yes' ↦ simp (yes') (
          or_config_error-allow min_size.1 mods
            (if not (size_below size min_size.0)
              then (
                (
                  config.get (txt "alter-wrapper"),
                  if ltb 0 min_size.0
                      then record mods { algorithm_clause = []; lock_clause = [] }
                      else mods,
                ),
                none,
              )
              else ((config.get (txt "ddl-wrapper"), mods), none))
            (elim (Bool-cases (size_below size min_size.0)) [
              | inl small ↦ simp small
              | inr large ↦ elim (Bool-cases (ltb 0 min_size.0)) [
                | inl set ↦ simp (large, set)
                | inr unset ↦ simp (large, unset)
              ]
            ]))
    ]

-- The table is smaller than --safe-below-size, and its size was asked for without an error.
pub record SafelySmall (diff : ObjectDiff) (target : Target) : Type 0 where
  pub sized : need_table_size diff target.config ≡ true
  pub answered : (get_table_size target (object_diff_key diff).name).1 ≡ none
  pub configured : (target.config.get_bytes (txt "safe-below-size")).1 ≡ none
  pub small :
      size_below
        (get_table_size target (object_diff_key diff).name).0
        (target.config.get_bytes (txt "safe-below-size")).0
      ≡ true

or_message-none :
    (e : Option Text) (mods : StatementModifiers)
    (next : (ℕ × StatementModifiers) × Option DdlError)
    → (or_message e mods next).1 ≡ none
    → (e ≡ none) × (or_message e mods next ≡ next)
or_message-none none mods next fine = (refl, refl)
or_message-none (some e) mods next fine = cc

sized_modifiers-allow :
    (diff : ObjectDiff) (mods : StatementModifiers) (target : Target)
    → (sized_modifiers diff mods target).1 ≡ none
    → (sized_modifiers diff mods target).0.1.allow_unsafe ≡ true
    → (mods.allow_unsafe ≡ true) ⊎ SafelySmall diff target
unfolding sized_modifiers
sized_modifiers-allow diff mods target fine allowed =
    let size = get_table_size target (object_diff_key diff).name in
    let below = target.config.get_bytes (txt "safe-below-size") in
    let raised : StatementModifiers =
      if size_below size.0 below.0 then record mods { allow_unsafe = true } else mods in
    let result : (ℕ × StatementModifiers) × Option DdlError = ((size.0, raised), none) in
    let nested = or_message below.1 mods result in
    let pick = λ (b : Bool). if b then or_message size.1 mods nested else ((0, mods), none) in
    elim (Bool-cases (need_table_size diff target.config)) [
      | inr no' ↦ inl (sym (ap (λ (b : Bool). (pick b).0.1.allow_unsafe) no') ∙ allowed)
      | inl need ↦
          let fine' = sym (ap (λ (b : Bool). (pick b).1) need) ∙ fine in
          let allowed' = sym (ap (λ (b : Bool). (pick b).0.1.allow_unsafe) need) ∙ allowed in
          let outer = or_message-none size.1 mods nested fine' in
          let inner =
            or_message-none below.1 mods result (
              sym (ap (λ (r : (ℕ × StatementModifiers) × Option DdlError). r.1) outer.1) ∙ fine') in
          let raised_allows : raised.allow_unsafe ≡ true =
            sym (
              ap (λ (r : (ℕ × StatementModifiers) × Option DdlError). r.0.1.allow_unsafe)
                (outer.1 ∙ inner.1))
            ∙ allowed' in
          elim (Bool-cases (size_below size.0 below.0)) [
            | inl small ↦
                inr
                  (record { sized = need; answered = outer.0; configured = inner.0; small = small })
            | inr large ↦ inl (
                sym (
                  ap
                    (λ (b : Bool).
                      (if b then record mods { allow_unsafe = true } else mods).allow_unsafe)
                    large)
                ∙ raised_allows)
          ]
    ]

plan_wrapped-allow :
    (s : Surroundings) (td : TableDiff) (target : Target) (size : ℕ)
    (wrapped : (Text × StatementModifiers) × Option DdlError) {ddl : DdlStatement}
    → destructive td ≡ true
    → plan_wrapped s (table_object_diff td) target size wrapped ≡ planned ddl
    → wrapped.0.1.allow_unsafe ≡ true
unfolding object_diff_statement
plan_wrapped-allow s td target size (wrapped, some e) d p = cc
plan_wrapped-allow s td target size (wrapped, none) d p =
    let clean =
      planned-clean s (table_object_diff td) wrapped.1 target size wrapped.0
        (table_diff_statement td wrapped.1) p in
    elim (Bool-cases wrapped.1.allow_unsafe) [
      | inl yes' ↦ yes'
      | inr no' ↦ absurd (refused td wrapped.1 d no' clean.0 clean.1)
    ]

plan_sized-allow :
    (s : Surroundings) (td : TableDiff) (target : Target)
    (sized : (ℕ × StatementModifiers) × Option DdlError) {ddl : DdlStatement}
    → destructive td ≡ true
    → plan_sized s (table_object_diff td) target sized ≡ planned ddl
    → (sized.1 ≡ none) × (sized.0.1.allow_unsafe ≡ true)
plan_sized-allow s td target (sized, some e) d p = cc
plan_sized-allow s td target (sized, none) d p = (
  refl,
  sym (get_wrapper-allow target.config (table_object_diff td) sized.0 sized.1)
      ∙ plan_wrapped-allow s td target sized.0
          (get_wrapper target.config (table_object_diff td) sized.0 sized.1) d p,
)

-- NewDDLStatement plans a DROP TABLE, or an ALTER TABLE with an unsafe clause, only if the modifiers
-- allow unsafe statements, or the size of the table was asked for and is below --safe-below-size;
-- no wrapper changes that.
pub new_ddl_statement_plans_unsafe_only_if_allowed :
    (s : Surroundings) (td : TableDiff) (mods : StatementModifiers) (target : Target)
    {ddl : DdlStatement}
    → destructive td ≡ true
    → new_ddl_statement s (table_object_diff td) mods target ≡ planned ddl
    → (mods.allow_unsafe ≡ true) ⊎ SafelySmall (table_object_diff td) target
unfolding new_ddl_statement
new_ddl_statement_plans_unsafe_only_if_allowed s td mods target d p =
    let allowed =
      plan_sized-allow s td target (sized_modifiers (table_object_diff td) mods target) d p in
    sized_modifiers-allow (table_object_diff td) mods target allowed.0 allowed.1
