-- ===== src/Applier/Modifiers.antt =====
-- Options of a directory that package applier reads, and StatementModifiersForDir of applier.go.
use skeema.Prelude.{
  ℕ, Bool, false, List, [], ◌∷◌, Option, none, some, Text, txt, text_eq, ◌==◌, if◌then◌else◌,
}
use skeema.Flavor.{Flavor}
use skeema.Clause.{
  StatementModifiers, auto_inc_ignore, auto_inc_if_increased, PartitioningMode,
  partitioning_permissive, partitioning_remove, partitioning_keep,
}

-- What a mybase.Config answers; get_bytes and get_enum also return an error or none.
pub record Config : Type 0 where
  pub get : Text → Text
  pub get_allow_env_var : Text → Text
  pub get_bool : Text → Bool
  pub changed : Text → Bool
  pub get_bytes : Text → ℕ × Option Text
  pub get_enum : Text → List Text → Text × Option Text

-- The zero value, whose flavor the caller sets later.
abbrev pub no_modifiers : Flavor → StatementModifiers
no_modifiers flavor = record {
  next_auto_inc = auto_inc_ignore;
  partitioning = partitioning_permissive;
  allow_unsafe = false;
  lock_clause = [];
  algorithm_clause = [];
  strict_index_order = false;
  strict_check_order = false;
  strict_foreign_key_naming = false;
  strict_column_definition = false;
  compare_metadata = false;
  virtual_col_validation = false;
  skip_pre_drop_alters = false;
  flavor = flavor;
}

-- The map partMap; a value that is not there gives the zero mode.
unfoldable pub partitioning_mode : Text → PartitioningMode
unfolding text_eq
partitioning_mode value =
    if value == txt "keep"
    then partitioning_keep
    else if value == txt "remove"
    then partitioning_remove
    else partitioning_permissive

-- The modifiers that need no check of a value.
unfoldable pub boolean_modifiers : Config → Flavor → StatementModifiers
boolean_modifiers config flavor =
    let exact = config.get_bool (txt "exact-match") in
    record (no_modifiers flavor) {
      next_auto_inc = auto_inc_if_increased;
      allow_unsafe = config.get_bool (txt "allow-unsafe");
      compare_metadata = config.get_bool (txt "compare-metadata");
      virtual_col_validation = config.get_bool (txt "alter-validate-virtual");
      strict_index_order = exact;
      strict_check_order = exact;
      strict_foreign_key_naming = exact;
      strict_column_definition = exact;
    }

abbrev pub unless_error {ℓ} : {A : Type ℓ} → Option Text → A → A → A
unless_error none next failed = next
unless_error (some e) next failed = failed

-- StatementModifiersForDir; the modifiers are returned as they are where it stops.
unfoldable pub statement_modifiers_for_dir : Config → Flavor → StatementModifiers × Option Text
unfolding boolean_modifiers partitioning_mode
statement_modifiers_for_dir config flavor =
    let algorithm =
      config.get_enum (txt "alter-algorithm")
        (txt "inplace" ∷ txt "copy" ∷ txt "instant" ∷ txt "nocopy" ∷ txt "default" ∷ []) in
    let lock =
      config.get_enum (txt "alter-lock")
        (txt "none" ∷ txt "shared" ∷ txt "exclusive" ∷ txt "default" ∷ []) in
    let partitioning =
      config.get_enum (txt "partitioning") (txt "keep" ∷ txt "remove" ∷ txt "modify" ∷ []) in
    let first = record (boolean_modifiers config flavor) { algorithm_clause = algorithm.0 } in
    let second = record first { lock_clause = lock.0 } in
    let third = record second { partitioning = partitioning_mode partitioning.0 } in
    let last = unless_error partitioning.1 (third, none) (second, partitioning.1) in
    unless_error algorithm.1 (unless_error lock.1 last (second, lock.1)) (first, algorithm.1)
