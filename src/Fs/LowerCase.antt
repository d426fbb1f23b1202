-- ===== src/Fs/LowerCase.antt =====
-- LowerCaseNames: when it fails, and what it leaves.
pub mod Result
use skeema.Prelude.{
  ℕ, Bool, true, false, not, ◌&&◌, ◌||◌, List, [], ◌∷◌, Option, none, some, Text, text_eq, ◌==◌,
  if◌then◌else◌, ◌≡◌, refl, ap, sym, ◌∙◌, arith, Bool-cases, Option-cases, inl, inr, to_lower,
  eq_of_==,
}
use skeema.Objects.{ObjectType, object_type_eq, object_table, ObjectKey}
use skeema.Objects.Keys.{same_key, same_key_eq}
use skeema.Statement.{Statement, statement_key}
use skeema.Fs.{
  Create, LogicalSchema, DuplicateDefinitionError, NameCaseMode, name_case_lower,
  name_case_insensitive, find_create, put_create, duplicate_of, is_table, lower_create,
  lower_creates, find_lower, check_lower_tables, lower_case_names, lowering_step, Lowering,
  check_step, unless_duplicate,
}
use skeema.Fs.Adding.{is_some, find_create-put}

-- The lower-case name of a table of the list.
unfoldable pub any_lower : Text → List Create → Bool
unfolding text_eq is_table
any_lower name [] = false
any_lower name (c ∷ cs) = (is_table c.key && to_lower c.key.name == name) || any_lower name cs

-- Two tables whose names differ in case only.
unfoldable pub same_lower : List Create → Bool
unfolding any_lower is_table
same_lower [] = false
same_lower (c ∷ cs) = (is_table c.key && any_lower (to_lower c.key.name) cs) || same_lower cs

-- Some table has a lower-case name that was seen.
any_seen : (Text → Bool) → List Create → Bool
unfolding is_table
any_seen seen [] = false
any_seen seen (c ∷ cs) = (is_table c.key && seen (to_lower c.key.name)) || any_seen seen cs

shuffle : (t e s x y : Bool) → ((t && (e || s)) || (x || y)) ≡ (((t && s) || x) || ((t && e) || y))
shuffle t e s x y = ground arith

any_seen-more :
    (name : Text) (seen more : Text → Bool) (cs : List Create)
    → ((n : Text) → more n ≡ ((n == name) || seen n))
    → any_seen more cs ≡ (any_seen seen cs || any_lower name cs)
unfolding any_seen any_lower
any_seen-more name seen more [] same = refl
any_seen-more name seen more (c ∷ cs) same =
    simp (same (to_lower c.key.name), any_seen-more name seen more cs same)
      (shuffle (is_table c.key) (to_lower c.key.name == name) (seen (to_lower c.key.name))
        (any_seen seen cs) (any_lower name cs))

any_seen-none : (cs : List Create) → any_seen (λ n. false) cs ≡ false
unfolding any_seen
any_seen-none [] = refl
any_seen-none (c ∷ cs) = ground (arith, any_seen-none cs)

duplicate_of-is_some :
    (k : ObjectKey) (o : Option Statement) (stmt : Statement)
    → is_some (duplicate_of k o stmt) ≡ is_some o
unfolding duplicate_of
duplicate_of-is_some k none stmt = refl
duplicate_of-is_some k (some orig) stmt = refl

-- What one table adds to the failures of the rest.
seen_table : (s a x y : Bool) → (s || ((a || x) || y)) ≡ ((s || a) || (x || y))
seen_table s a x y = ground arith

seen_lower : List (Text × Statement) → Text → Bool
seen_lower seen n = is_some (find_lower n seen)

seen_lower-more :
    (name : Text) (stmt : Statement) (seen : List (Text × Statement)) (n : Text)
    → seen_lower ((name, stmt) ∷ seen) n ≡ ((n == name) || seen_lower seen n)
unfolding seen_lower find_lower
seen_lower-more name stmt seen n = elim (Bool-cases (n == name)) [
  | inl same ↦ simp same
  | inr other ↦ simp other
]

check_step-is_some :
    (d e : Option DuplicateDefinitionError) → is_some (check_step d e) ≡ (is_some d || is_some e)
check_step-is_some none e = refl
check_step-is_some (some d) e = refl

check_lower_tables-is_some :
    (cs : List Create) (seen : List (Text × Statement))
    → is_some (check_lower_tables cs seen) ≡ (any_seen (seen_lower seen) cs || same_lower cs)
unfolding check_lower_tables any_seen same_lower seen_lower
check_lower_tables-is_some [] seen = refl
check_lower_tables-is_some (c ∷ cs) seen =
    let name = to_lower c.key.name in
    let more = (name, c.stmt) ∷ seen in
    let found = find_lower name seen in
    elim (Bool-cases (is_table c.key)) [
      | inr other ↦ simp (other) (check_lower_tables-is_some cs seen)
      | inl table ↦
          simp
            (
              table,
              check_step-is_some (duplicate_of (statement_key c.stmt) found c.stmt)
                  (check_lower_tables cs more),
              duplicate_of-is_some (statement_key c.stmt) found c.stmt,
              check_lower_tables-is_some cs more,
              any_seen-more name (seen_lower seen) (seen_lower more) cs
                  (seen_lower-more name c.stmt seen),
            )
            (seen_table (seen_lower seen name) (any_seen (seen_lower seen) cs) (any_lower name cs)
              (same_lower cs))
    ]

abbrev pub table_named : Text → ObjectKey
table_named n = record { type = object_table; name = n }

seen_create : List Create → Text → Bool
seen_create new n = is_some (find_create (table_named n) new)

seen_create-table :
    (name : Text) (stmt : Statement) (new : List Create) (n : Text)
    → seen_create (put_create (table_named name) stmt new) n ≡ ((n == name) || seen_create new n)
unfolding seen_create same_key object_type_eq
seen_create-table name stmt new n =
    let put = find_create-put (table_named n) (table_named name) stmt new in
    elim (Bool-cases (n == name)) [ inl same ↦ simp (put, same) | inr other ↦ simp (put, other) ]

pub is_table-table_named : (n : Text) → is_table (table_named n) ≡ true
unfolding is_table object_type_eq
is_table-table_named n = refl

-- The key of a table is that of no other object.
pub same_key-other :
    (n : Text) (k : ObjectKey) → is_table k ≡ false → same_key (table_named n) k ≡ false
same_key-other n k other = elim (Bool-cases (same_key (table_named n) k)) [
  | inr differ ↦ differ
  | inl same ↦
      absurd (cc (other, is_table-table_named n, ap is_table (same_key_eq (table_named n) k same)))
]

seen_create-other :
    (k : ObjectKey) (stmt : Statement) (new : List Create) (n : Text)
    → is_table k ≡ false
    → seen_create (put_create k stmt new) n ≡ seen_create new n
unfolding seen_create
seen_create-other k stmt new n other =
    simp (find_create-put (table_named n) k stmt new, same_key-other n k other)

lowering_step-is_some :
    (d : Option DuplicateDefinitionError) (c : Create) (cs new : List Create) (rest : Lowering)
    → is_some (lowering_step d c cs new rest).error ≡ (is_some d || is_some rest.error)
lowering_step-is_some none c cs new rest = refl
lowering_step-is_some (some d) c cs new rest = refl

any_seen-same :
    (seen more : Text → Bool) (cs : List Create)
    → ((n : Text) → more n ≡ seen n)
    → any_seen more cs ≡ any_seen seen cs
unfolding any_seen
any_seen-same seen more [] same = refl
any_seen-same seen more (c ∷ cs) same =
    simp (same (to_lower c.key.name), any_seen-same seen more cs same)

-- The key of a table in lower case.
pub lower_create-table :
    (c : Create) → is_table c.key ≡ true → (lower_create c).key ≡ table_named (to_lower c.key.name)
unfolding lower_create is_table
lower_create-table c table =
    let type = eq_of_== c.key.type object_table table in
    rw table (λ i. record { type = type i; name = to_lower c.key.name })

pub lower_create-other : (c : Create) → is_table c.key ≡ false → lower_create c ≡ c
unfolding lower_create
lower_create-other c other = simp other

lower_creates-is_some :
    (cs new : List Create)
    → is_some (lower_creates cs new).error ≡ (any_seen (seen_create new) cs || same_lower cs)
unfolding lower_creates any_seen same_lower seen_create
lower_creates-is_some [] new = refl
lower_creates-is_some (c ∷ cs) new =
    let low = lower_create c in
    let next = put_create low.key low.stmt new in
    let ih = lower_creates-is_some cs next in
    let name = to_lower c.key.name in
    let dupe =
      if is_table c.key
      then duplicate_of (statement_key low.stmt) (find_create low.key new) low.stmt
      else none in
    lowering_step-is_some dupe (record c { stmt = low.stmt }) cs new (lower_creates cs next)
    ∙ elim (Bool-cases (is_table c.key)) [
      | inr other ↦
          let unchanged = λ (n : Text).
            ap (λ (x : Create). seen_create (put_create x.key x.stmt new) n)
              (lower_create-other c other)
            ∙ seen_create-other c.key c.stmt new n other in
          let orig = find_create low.key new in
          let dupe_is =
            ap
              (λ (b : Bool).
                is_some (if b then duplicate_of (statement_key low.stmt) orig low.stmt else none))
              other in
          let rest_is =
            ih
            ∙ ap (λ (b : Bool). b || same_lower cs)
                (any_seen-same (seen_create new) (seen_create next) cs unchanged) in
          (λ i. dupe_is i || rest_is i)
          ∙ ap
              (λ (b : Bool).
                ((b && seen_create new name) || any_seen (seen_create new) cs)
                || ((b && any_lower name cs) || same_lower cs))
              (sym other)
      | inl table ↦
          let key = lower_create-table c table in
          let more = λ (n : Text).
            ap (λ (k : ObjectKey). seen_create (put_create k low.stmt new) n) key
            ∙ seen_create-table name low.stmt new n in
          let orig = find_create low.key new in
          let dupe_is =
            ap
              (λ (b : Bool).
                is_some (if b then duplicate_of (statement_key low.stmt) orig low.stmt else none))
              table
            ∙ (duplicate_of-is_some (statement_key low.stmt) orig low.stmt
                ∙ ap (λ (k : ObjectKey). is_some (find_create k new)) key) in
          let rest_is =
            ih
            ∙ ap (λ (b : Bool). b || same_lower cs)
                (any_seen-more name (seen_create new) (seen_create next) cs more) in
          let seen = seen_create new name in
          let before = any_seen (seen_create new) cs in
          (λ i. dupe_is i || rest_is i)
          ∙ (seen_table seen before (any_lower name cs) (same_lower cs)
              ∙ ap
                  (λ (b : Bool).
                    ((b && seen) || before) || ((b && any_lower name cs) || same_lower cs))
                  (sym table))
    ]

lowered_error :
    (s : LogicalSchema) → is_some (lower_case_names s name_case_lower).1 ≡ same_lower s.creates
unfolding lower_case_names seen_create find_create
lowered_error s =
    lower_creates-is_some s.creates []
    ∙ ap (λ (b : Bool). b || same_lower s.creates) (any_seen-none s.creates)

-- LowerCaseNames fails in either of the modes that lower_case_table_names = 1 and = 2 stand for
-- exactly if two tables have names that are the same in lower case, whatever the order of the range.
pub lower_case_names_fails_iff_same_lower :
    (s : LogicalSchema)
    → (is_some (lower_case_names s name_case_lower).1 ≡ same_lower s.creates)
      × (is_some (lower_case_names s name_case_insensitive).1 ≡ same_lower s.creates)
unfolding lower_case_names seen_lower find_lower
lower_case_names_fails_iff_same_lower s = (
  lowered_error s,
  check_lower_tables-is_some s.creates []
      ∙ ap (λ (b : Bool). b || same_lower s.creates) (any_seen-none s.creates),
)
