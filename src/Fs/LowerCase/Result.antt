-- ===== src/Fs/LowerCase/Result.antt =====
-- What LowerCaseNames leaves where it succeeds.
use skeema.Prelude.{
  Bool, false, List, [], ◌∷◌, ◌++◌, map, Option, none, some, if◌then◌else◌, ◌≡◌, refl, ap, sym, ◌∙◌,
  Bool-cases, inl, inr, to_lower,
}
use skeema.Objects.{ObjectKey}
use skeema.Objects.Keys.{same_key}
use skeema.Statement.{Statement, statement_key}
use skeema.Fs.{
  Create, LogicalSchema, DuplicateDefinitionError, name_case_lower, find_create, put_create,
  duplicate_of, is_table, lower_create, lower_creates, lower_case_names, lowering_step, Lowering,
  unless_duplicate,
}
use skeema.Fs.Adding.{find_create-put}
use skeema.Fs.WellKeyed.{
  KeysOfStatements, Distinct, WellKeyed, other_key, same_key_flip, put_create-missing,
  Distinct-append,
}
use skeema.Fs.LowerCase.{
  table_named, is_table-table_named, same_key-other, lower_create-table, lower_create-other,
}

-- The keys of the objects that are no tables are new.
abbrev Fresh : List Create → List Create → Type 0
Fresh new [] = Unit
Fresh new (c ∷ cs) = (is_table c.key ≡ false → find_create c.key new ≡ none) × Fresh new cs

lower_create-is_table : (c : Create) → is_table (lower_create c).key ≡ is_table c.key
lower_create-is_table c = elim (Bool-cases (is_table c.key)) [
  | inr other ↦ ap (λ (x : Create). is_table x.key) (lower_create-other c other)
  | inl table ↦
      ap is_table (lower_create-table c table)
      ∙ (is_table-table_named (to_lower c.key.name) ∙ sym table)
]

-- A key that is no table's, and not that of the entry, is not that of the lowered entry.
lowered_key-other :
    (k : ObjectKey) (c : Create)
    → is_table k ≡ false
    → same_key k c.key ≡ false
    → same_key k (lower_create c).key ≡ false
lowered_key-other k c plain differ = elim (Bool-cases (is_table c.key)) [
  | inr other ↦ ap (λ (x : Create). same_key k x.key) (lower_create-other c other) ∙ differ
  | inl table ↦
      ap (same_key k) (lower_create-table c table)
      ∙ same_key_flip (table_named (to_lower c.key.name)) k
          (same_key-other (to_lower c.key.name) k plain)
]

Fresh-put :
    (c : Create) (new cs : List Create)
    → Fresh new cs
    → find_create c.key cs ≡ none
    → Fresh (put_create (lower_create c).key (lower_create c).stmt new) cs
Fresh-put c new [] fresh missing = _
Fresh-put c new (d ∷ cs) fresh missing =
    let other = other_key c.key d cs missing in
    let low = lower_create c in
    (
      λ plain.
          find_create-put d.key low.key low.stmt new
          ∙ rw (lowered_key-other d.key c plain (same_key_flip c.key d.key other.0))
              (fresh.0 plain),
      Fresh-put c new cs fresh.1 other.1,
    )

abbrev dupe : Create → List Create → Option DuplicateDefinitionError
dupe c new =
    if is_table c.key
    then duplicate_of (statement_key (lower_create c).stmt) (find_create (lower_create c).key new)
        (lower_create c).stmt
    else none

none_of_duplicate :
    (k : ObjectKey) (o : Option Statement) (stmt : Statement)
    → duplicate_of k o stmt ≡ none
    → o ≡ none
unfolding duplicate_of
none_of_duplicate k none stmt e = refl
none_of_duplicate k (some orig) stmt e = cc

-- No error means that the lowered key is new.
missing_key :
    (c : Create) (new : List Create)
    → (is_table c.key ≡ false → find_create c.key new ≡ none)
    → dupe c new ≡ none
    → find_create (lower_create c).key new ≡ none
missing_key c new fresh fine = elim (Bool-cases (is_table c.key)) [
  | inr other ↦
      ap (λ (x : Create). find_create x.key new) (lower_create-other c other) ∙ fresh other
  | inl table ↦
      none_of_duplicate (statement_key (lower_create c).stmt) (find_create (lower_create c).key new)
        (lower_create c).stmt
        (sym (
            ap
              (λ (b : Bool).
                if b
                then duplicate_of (statement_key (lower_create c).stmt)
                    (find_create (lower_create c).key new) (lower_create c).stmt
                else none)
              table)
          ∙ fine)
]

append_assoc : (a : List Create) (b : Create) (c : List Create) → (a ++ b ∷ []) ++ c ≡ a ++ b ∷ c
append_assoc [] b c = refl
append_assoc (x ∷ a) b c = ap (◌∷◌ x) (append_assoc a b c)

append_nil : (a : List Create) → a ≡ a ++ []
append_nil [] = refl
append_nil (x ∷ a) = ap (◌∷◌ x) (append_nil a)

step-none :
    (d : Option DuplicateDefinitionError) (c : Create) (cs new : List Create) (rest : Lowering)
    → (lowering_step d c cs new rest).error ≡ none
    → (d ≡ none) × ((rest.error ≡ none) × ((lowering_step d c cs new rest).new ≡ rest.new))
step-none none c cs new rest fine = (refl, (fine, refl))
step-none (some e) c cs new rest fine = cc

lower_creates-new :
    (cs new : List Create)
    → Distinct cs
    → Distinct new
    → Fresh new cs
    → (lower_creates cs new).error ≡ none
    → ((lower_creates cs new).new ≡ new ++ map lower_create cs)
      × Distinct (lower_creates cs new).new
unfolding lower_creates
lower_creates-new [] new distinct own fresh fine = (append_nil new, own)
lower_creates-new (c ∷ cs) new distinct own fresh fine =
    let low = lower_create c in
    let next = put_create low.key low.stmt new in
    let step =
      step-none (dupe c new) (record c { stmt = low.stmt }) cs new (lower_creates cs next) fine in
    let missing = missing_key c new fresh.0 step.0 in
    let appended = put_create-missing low.key low.stmt new missing in
    let own' : Distinct next = rw appended (Distinct-append low.key low.stmt new own missing) in
    let rest =
      lower_creates-new cs next distinct.1 own' (Fresh-put c new cs fresh.1 distinct.0) step.1.0 in
    (
      step.1.1
          ∙ (rest.0
              ∙ (ap (λ (x : List Create). x ++ map lower_create cs) appended
                  ∙ append_assoc new low (map lower_create cs))),
      rw step.1.1 rest.1,
    )

lower_create-keys :
    (c : Create)
    → c.key ≡ statement_key c.stmt
    → (lower_create c).key ≡ statement_key (lower_create c).stmt
unfolding lower_create
lower_create-keys c key = elim (Bool-cases (is_table c.key)) [
  | inr other ↦ rw other key
  | inl table ↦ rw table (λ i. record { type = (key i).type; name = to_lower (key i).name })
]

map-lower_create-KeysOfStatements :
    (cs : List Create) → KeysOfStatements cs → KeysOfStatements (map lower_create cs)
map-lower_create-KeysOfStatements [] keys = _
map-lower_create-KeysOfStatements (c ∷ cs) keys =
    (lower_create-keys c keys.0, map-lower_create-KeysOfStatements cs keys.1)

Fresh-nil : (cs : List Create) → Fresh [] cs
unfolding find_create
Fresh-nil [] = _
Fresh-nil (c ∷ cs) = (λ plain. refl, Fresh-nil cs)

-- LowerCaseNames in the mode of lower_case_table_names = 1, where no key stands twice, each entry
-- stands under the key of its statement, and no error is returned: the new Creates have each old
-- entry, in the order of the range, with the name of a table in lower case both in its key and in
-- its statement; again no key stands twice, and each entry stands under its statement's key.
pub lower_case_names_lowers_each_table :
    (s : LogicalSchema)
    → WellKeyed s.creates
    → (lower_case_names s name_case_lower).1 ≡ none
    → ((lower_case_names s name_case_lower).0.creates ≡ map lower_create s.creates)
      × WellKeyed (lower_case_names s name_case_lower).0.creates
unfolding lower_case_names
lower_case_names_lowers_each_table s well fine =
    let lowered = lower_creates-new s.creates [] well.distinct _ (Fresh-nil s.creates) fine in
    let result : (lower_case_names s name_case_lower).0.creates ≡ map lower_create s.creates =
      ap
        (λ (e : Option DuplicateDefinitionError).
          unless_duplicate e (lower_creates s.creates []).new (lower_creates s.creates []).old)
        fine
      ∙ lowered.0 in
    (
      result,
      rw result (record {
        distinct = rw⁻¹ lowered.0 lowered.1;
        keys = map-lower_create-KeysOfStatements s.creates well.keys;
      }),
    )
