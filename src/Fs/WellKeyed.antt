-- ===== src/Fs/WellKeyed.antt =====
-- The invariant of a LogicalSchema: one entry for each key, under the key of its statement.
use skeema.Prelude.{
  Bool, false, List, [], ◌∷◌, ◌++◌, none, some, if◌then◌else◌, ◌≡◌, refl, ap, sym, ◌∙◌, Bool-cases,
  Option-cases, inl, inr,
}
use skeema.Objects.{ObjectKey}
use skeema.Objects.Keys.{same_key, same_key_refl, same_key_eq}
use skeema.Statement.{
  Statement, StatementType, statement_unknown, statement_noop, statement_command, statement_create,
  statement_alter, statement_key,
}
use skeema.Fs.{
  Create, LogicalSchema, find_create, put_create, duplicate_of, add_statement, add_of_type,
}

-- Each entry stands under the key of its statement.
abbrev pub KeysOfStatements : List Create → Type 0
KeysOfStatements [] = Unit
KeysOfStatements (c ∷ cs) = (c.key ≡ statement_key c.stmt) × KeysOfStatements cs

-- No key stands twice.
abbrev pub Distinct : List Create → Type 0
Distinct [] = Unit
Distinct (c ∷ cs) = (find_create c.key cs ≡ none) × Distinct cs

pub record WellKeyed (cs : List Create) : Type 0 where
  pub distinct : Distinct cs
  pub keys : KeysOfStatements cs

abbrev entry : ObjectKey → Statement → Create
entry k stmt = record { key = k; stmt = stmt }

pub other_key :
    (k : ObjectKey) (c : Create) (cs : List Create)
    → find_create k (c ∷ cs) ≡ none
    → (same_key k c.key ≡ false) × (find_create k cs ≡ none)
unfolding find_create
other_key k c cs missing = elim (Bool-cases (same_key k c.key)) [
  | inl same ↦
      absurd (cc (missing, ap (λ (b : Bool). if b then some c.stmt else find_create k cs) same))
  | inr other ↦
      (other, sym (ap (λ (b : Bool). if b then some c.stmt else find_create k cs) other) ∙ missing)
]

pub same_key_flip : (a b : ObjectKey) → same_key a b ≡ false → same_key b a ≡ false
same_key_flip a b other = elim (Bool-cases (same_key b a)) [
  | inr other' ↦ other'
  | inl same ↦ absurd (cc (other, same_key_refl a, ap (same_key a) (same_key_eq b a same)))
]

pub put_create-missing :
    (k : ObjectKey) (stmt : Statement) (cs : List Create)
    → find_create k cs ≡ none
    → put_create k stmt cs ≡ cs ++ entry k stmt ∷ []
unfolding put_create
put_create-missing k stmt [] missing = refl
put_create-missing k stmt (c ∷ cs) missing =
    let other = other_key k c cs missing in
    rw other.0 (ap (◌∷◌ c) (put_create-missing k stmt cs other.1))

find_create-append :
    (j k : ObjectKey) (stmt : Statement) (cs : List Create)
    → find_create j cs ≡ none
    → same_key j k ≡ false
    → find_create j (cs ++ entry k stmt ∷ []) ≡ none
unfolding find_create
find_create-append j k stmt [] missing other = rw other refl
find_create-append j k stmt (c ∷ cs) missing other =
    let more = other_key j c cs missing in rw more.0 (find_create-append j k stmt cs more.1 other)

pub Distinct-append :
    (k : ObjectKey) (stmt : Statement) (cs : List Create)
    → Distinct cs
    → find_create k cs ≡ none
    → Distinct (cs ++ entry k stmt ∷ [])
unfolding find_create
Distinct-append k stmt [] distinct missing = (refl, _)
Distinct-append k stmt (c ∷ cs) distinct missing =
    let other = other_key k c cs missing in
    (
      find_create-append c.key k stmt cs distinct.0 (same_key_flip k c.key other.0),
      Distinct-append k stmt cs distinct.1 other.1,
    )

KeysOfStatements-append :
    (stmt : Statement) (cs : List Create)
    → KeysOfStatements cs
    → KeysOfStatements (cs ++ entry (statement_key stmt) stmt ∷ [])
KeysOfStatements-append stmt [] keys = (refl, _)
KeysOfStatements-append stmt (c ∷ cs) keys = (keys.0, KeysOfStatements-append stmt cs keys.1)

add_of_type-WellKeyed :
    (type : StatementType) (s : LogicalSchema) (stmt : Statement)
    → WellKeyed s.creates
    → WellKeyed (add_of_type type s stmt).0.creates
unfolding add_of_type duplicate_of
add_of_type-WellKeyed statement_create s stmt well =
    elim (Option-cases (find_create (statement_key stmt) s.creates)) [
      | inr there ↦ rw there.1 well
      | inl missing ↦
          rw (missing, put_create-missing (statement_key stmt) stmt s.creates missing)
            (record {
              distinct = Distinct-append (statement_key stmt) stmt s.creates well.distinct missing;
              keys = KeysOfStatements-append stmt s.creates well.keys;
            })
    ]
add_of_type-WellKeyed statement_alter s stmt well = well
add_of_type-WellKeyed statement_unknown s stmt well = well
add_of_type-WellKeyed statement_noop s stmt well = well
add_of_type-WellKeyed statement_command s stmt well = well

-- AddStatement keeps this invariant of Creates: no key stands twice, and each entry stands under the
-- key of its statement.
add_statement_keeps_WellKeyed :
    (s : LogicalSchema) (stmt : Statement)
    → WellKeyed s.creates
    → WellKeyed (add_statement s stmt).0.creates
unfolding add_statement
add_statement_keeps_WellKeyed s stmt well = add_of_type-WellKeyed stmt.type s stmt well
