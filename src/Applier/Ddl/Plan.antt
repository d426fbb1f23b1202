-- ===== src/Applier/Ddl/Plan.antt =====
-- NewDDLStatement of internal/applier/ddlstatement.go, and the methods of a DDLStatement.
pub mod Unsafe
use skeema.Prelude.{
  ℕ, Bool, true, false, not, List, [], ◌∷◌, ◌++◌, Option, none, some, Text, txt, if◌then◌else◌,
  is_empty,
}
use skeema.Objects.{object_database}
use skeema.Clause.{StatementModifiers}
use skeema.Diff.{DiffError, forbidden, unsupported, other_error}
use skeema.Diff.Schema.{ObjectDiff}
use skeema.Shell.{ShellOut, shell_out_text, new_interpolated_shell_out, Interpolated}
use skeema.Applier.Modifiers.{Config}
use skeema.Applier.Printer.{ClientState}
use skeema.Applier.Ddl.{
  Instance, instance_text, Target, DdlStatement, DdlError, diff_error, message, config_error,
  object_diff_statement, is_compound_statement, key_is, sized_modifiers, get_wrapper,
  get_connect_params, wrapper_variables,
}

-- RealConnectOptions of internal/util/config.go, and the word wrap of an error's statement, whose
-- lines after the first begin with "  # ".
pub record Surroundings : Type 0 where
  pub real_connect_options : Text → Text × Option Text
  pub wrap : Text → Text

-- What NewDDLStatement returns: nil for a statement that the modifiers leave empty, a statement, or
-- an error; it panics where the interpolation of a wrapper does.
pub data Planning : Type 0 where
  noop : Planning
  planned : DdlStatement → Planning
  failed : DdlError → Planning
  panicked : Planning

abbrev pub preventing : Text → Text
preventing stmt =
    txt "Preventing execution of unsafe or potentially destructive statement:\n  # "
    ++ (stmt
        ++ txt
            "\nUse --allow-unsafe or --safe-below-size to permit this operation. For more information, see Safety Options section of --help.")

abbrev pub plan_interpolated : DdlStatement → Interpolated → Planning
plan_interpolated ddl i = if i.panics then panicked else elim i.error [
  | some e ↦ failed (
      message
        (txt "A fatal error occurred with pre-processing a DDL statement: " ++ (e ++ txt ".")))
  | none ↦ planned (record ddl { shell_out = some i.shell_out })
]

unfoldable pub plan_wrapper :
    Surroundings → ObjectDiff → StatementModifiers → Target → ℕ → Text → DdlStatement → Planning
unfolding wrapper_variables new_interpolated_shell_out
plan_wrapper s diff mods target size wrapper ddl =
    let options = s.real_connect_options (target.config.get (txt "connect-options")) in
    elim options.1 [
      | some e ↦ failed (config_error e)
      | none ↦ plan_interpolated ddl (
          new_interpolated_shell_out wrapper
            (wrapper_variables target diff mods ddl.schema_name ddl.stmt size options.0))
    ]

-- A statement that is not empty and has no error.
unfoldable pub plan_statement :
    Surroundings → ObjectDiff → StatementModifiers → Target → ℕ → Text → Text → Planning
unfolding is_compound_statement key_is get_connect_params plan_wrapper
plan_statement s diff mods target size wrapper stmt =
    let ddl : DdlStatement = record {
      stmt = stmt;
      compound = is_compound_statement diff;
      shell_out = none;
      instance_ = target.instance_;
      schema_name = if key_is diff object_database then [] else target.schema_name;
      connect_params = [];
    } in
    if is_empty wrapper
    then planned (record ddl { connect_params = get_connect_params diff target.config })
    else plan_wrapper s diff mods target size wrapper ddl

unfoldable pub plan_result :
    Surroundings
    → ObjectDiff
    → StatementModifiers
    → Target
    → ℕ
    → Text
    → Text × Option DiffError
    → Planning
unfolding plan_statement
plan_result s diff mods target size wrapper (stmt, some (forbidden reason text)) =
    failed (message (preventing (s.wrap stmt)))
plan_result s diff mods target size wrapper (stmt, some (unsupported key reason expected actual)) =
    failed (diff_error (unsupported key reason expected actual))
plan_result s diff mods target size wrapper (stmt, some (other_error e)) =
    failed (diff_error (other_error e))
plan_result s diff mods target size wrapper ([], none) = noop
plan_result s diff mods target size wrapper (c ∷ stmt, none) =
    plan_statement s diff mods target size wrapper (c ∷ stmt)

abbrev pub plan_wrapped :
    Surroundings
    → ObjectDiff
    → Target
    → ℕ
    → (Text × StatementModifiers) × Option DdlError
    → Planning
plan_wrapped s diff target size (wrapped, some e) = failed e
plan_wrapped s diff target size (wrapped, none) =
    plan_result s diff wrapped.1 target size wrapped.0 (object_diff_statement diff wrapped.1)

abbrev pub plan_sized :
    Surroundings → ObjectDiff → Target → (ℕ × StatementModifiers) × Option DdlError → Planning
plan_sized s diff target (sized, some e) = failed e
plan_sized s diff target (sized, none) =
    plan_wrapped s diff target sized.0 (get_wrapper target.config diff sized.0 sized.1)

-- NewDDLStatement
unfoldable pub new_ddl_statement :
    Surroundings → ObjectDiff → StatementModifiers → Target → Planning
unfolding sized_modifiers get_wrapper object_diff_statement plan_result
new_ddl_statement s diff mods target = plan_sized s diff target (sized_modifiers diff mods target)

-- DDLStatement.Statement
unfoldable pub ddl_text : DdlStatement → Text
ddl_text ddl = elim ddl.shell_out [ none ↦ ddl.stmt | some o ↦ txt "\\! " ++ shell_out_text o ]

-- DDLStatement.ClientState
unfoldable pub client_state : DdlStatement → ClientState
unfolding instance_text
client_state ddl = record {
  instance_name = instance_text ddl.instance_;
  schema_name = ddl.schema_name;
  delimiter = elim ddl.shell_out [
    | some o ↦ []
    | none ↦ if ddl.compound then txt "//" else txt ";"
  ];
}
