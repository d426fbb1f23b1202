-- ===== src/Fs.antt =====
-- LogicalSchema of internal/fs/logicalschema.go. The map Creates is the list of its entries, in the
-- order in which a range over it comes to them.
pub mod Adding
pub mod Contents
pub mod WellKeyed
pub mod LowerCase
use skeema.Prelude.{
  ℕ, ◌+◌, Bool, true, false, ◌&&◌, List, [], ◌∷◌, ◌++◌, Option, none, some, Text, txt, text_eq,
  ◌==◌, if◌then◌else◌, length, nat_beq, to_lower, itoa,
}
use skeema.Objects.{ObjectType, object_type_eq, object_table, ObjectKey}
use skeema.Objects.Keys.{same_key, key_text}
use skeema.Statement.{Statement, StatementType, statement_create, statement_alter, statement_key}

-- The values of lower_case_table_names, NameCaseMode of internal/tengo/instance.go.
pub data NameCaseMode : Type 0 where
  name_case_unknown name_case_as_is name_case_lower name_case_insensitive : NameCaseMode

pub record DuplicateDefinitionError : Type 0 where
  pub object_key : ObjectKey
  pub first_file : Text
  pub first_line : ℕ
  pub dupe_file : Text
  pub dupe_line : ℕ

-- An entry of Creates.
pub record Create : Type 0 where
  pub key : ObjectKey
  pub stmt : Statement

pub record LogicalSchema : Type 0 where
  pub name : Text
  pub char_set : Text
  pub collation : Text
  pub creates : List Create
  pub alters : List Statement

abbrev pub new_logical_schema : LogicalSchema
new_logical_schema = record { name = []; char_set = []; collation = []; creates = []; alters = [] }

-- The entry of a key in Creates.
unfoldable pub find_create : ObjectKey → List Create → Option Statement
find_create k [] = none
find_create k (c ∷ cs) = if same_key k c.key then some c.stmt else find_create k cs

-- Creates[k] = stmt
unfoldable pub put_create : ObjectKey → Statement → List Create → List Create
put_create k stmt [] = record { key = k; stmt = stmt } ∷ []
put_create k stmt (c ∷ cs) =
    if same_key k c.key then record c { stmt = stmt } ∷ cs else c ∷ put_create k stmt cs

-- The error for a statement whose key `k` another one has, where there is such a one.
unfoldable pub duplicate_of :
    ObjectKey → Option Statement → Statement → Option DuplicateDefinitionError
duplicate_of k none stmt = none
duplicate_of k (some orig) stmt = some (record {
  object_key = k;
  first_file = orig.file;
  first_line = orig.line_no;
  dupe_file = stmt.file;
  dupe_line = stmt.line_no;
})

abbrev pub unless_duplicate {ℓ} : {A : Type ℓ} → Option DuplicateDefinitionError → A → A → A
unless_duplicate none new old = new
unless_duplicate (some e) new old = old

abbrev pub add_create :
    LogicalSchema
    → Statement
    → Option DuplicateDefinitionError
    → LogicalSchema × Option DuplicateDefinitionError
add_create s stmt (some e) = (s, some e)
add_create s stmt none =
    (record s { creates = put_create (statement_key stmt) stmt s.creates }, none)

unfoldable pub add_of_type :
    StatementType → LogicalSchema → Statement → LogicalSchema × Option DuplicateDefinitionError
unfolding find_create duplicate_of
add_of_type statement_create s stmt =
    let k = statement_key stmt in add_create s stmt (duplicate_of k (find_create k s.creates) stmt)
add_of_type statement_alter s stmt = (record s { alters = s.alters ++ stmt ∷ [] }, none)
add_of_type _ s stmt = (s, none)

-- AddStatement
unfoldable pub add_statement :
    LogicalSchema → Statement → LogicalSchema × Option DuplicateDefinitionError
unfolding add_of_type
add_statement s stmt = add_of_type stmt.type s stmt

-- Empty
unfoldable pub is_empty_schema : LogicalSchema → Bool
is_empty_schema s = nat_beq (length s.creates + length s.alters) 0

unfoldable pub is_table : ObjectKey → Bool
unfolding object_type_eq
is_table k = k.type == object_table

-- What the loop writes into the key and the statement of an entry.
unfoldable pub lower_create : Create → Create
unfolding is_table
lower_create c =
    if is_table c.key
    then record {
      key = record (c.key) { name = to_lower c.key.name };
      stmt = record (c.stmt) { object_name = to_lower c.stmt.object_name };
    }
    else c

-- The old map, whose statements the loop changes in place, the new one, and the error.
pub record Lowering : Type 0 where
  pub old : List Create
  pub new : List Create
  pub error : Option DuplicateDefinitionError

abbrev pub lowering_step :
    Option DuplicateDefinitionError → Create → List Create → List Create → Lowering → Lowering
lowering_step (some e) c cs new rest = record { old = c ∷ cs; new = new; error = some e }
lowering_step none c cs new rest = record rest { old = c ∷ rest.old }

-- The loop of LowerCaseNames that builds newCreates.
unfoldable pub lower_creates : List Create → List Create → Lowering
unfolding lower_create find_create duplicate_of put_create is_table
lower_creates [] new = record { old = []; new = new; error = none }
lower_creates (c ∷ cs) new =
    let low = lower_create c in
    let dupe =
      if is_table c.key
      then duplicate_of (statement_key low.stmt) (find_create low.key new) low.stmt
      else none in
    lowering_step dupe (record c { stmt = low.stmt }) cs new
      (lower_creates cs (put_create low.key low.stmt new))

-- The map lowerTables.
unfoldable pub find_lower : Text → List (Text × Statement) → Option Statement
unfolding text_eq
find_lower name [] = none
find_lower name (t ∷ ts) = if name == t.0 then some t.1 else find_lower name ts

abbrev pub check_step :
    Option DuplicateDefinitionError
    → Option DuplicateDefinitionError
    → Option DuplicateDefinitionError
check_step (some e) rest = some e
check_step none rest = rest

-- The loop of LowerCaseNames that looks for tables whose names differ in case only.
unfoldable pub check_lower_tables :
    List Create → List (Text × Statement) → Option DuplicateDefinitionError
unfolding find_lower duplicate_of is_table
check_lower_tables [] seen = none
check_lower_tables (c ∷ cs) seen =
    let name = to_lower c.key.name in
    if is_table c.key
    then check_step (duplicate_of (statement_key c.stmt) (find_lower name seen) c.stmt)
        (check_lower_tables cs ((name, c.stmt) ∷ seen))
    else check_lower_tables cs seen

abbrev pub lowered_schema :
    LogicalSchema → Lowering → LogicalSchema × Option DuplicateDefinitionError
lowered_schema s l =
    (record s { name = to_lower s.name; creates = unless_duplicate l.error l.new l.old }, l.error)

-- LowerCaseNames
unfoldable pub lower_case_names :
    LogicalSchema → NameCaseMode → LogicalSchema × Option DuplicateDefinitionError
unfolding lower_creates check_lower_tables
lower_case_names s name_case_lower = lowered_schema s (lower_creates s.creates [])
lower_case_names s name_case_insensitive = (s, check_lower_tables s.creates [])
lower_case_names s name_case_as_is = (s, none)
lower_case_names s name_case_unknown = (s, none)

-- DuplicateDefinitionError.Error
unfoldable pub duplicate_error_text : DuplicateDefinitionError → Text
duplicate_error_text e =
    key_text e.object_key
    ++ (txt " defined multiple times in same directory: "
        ++ (e.first_file
            ++ (txt " line "
                ++ (itoa e.first_line
                    ++ (txt " and " ++ (e.dupe_file ++ (txt " line " ++ itoa e.dupe_line)))))))
