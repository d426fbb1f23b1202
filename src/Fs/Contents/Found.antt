-- ===== src/Fs/Contents/Found.antt =====
-- What a run of the loop over statements finds, by name of schema and by key of object.
use skeema.Prelude.{
  ◌&&◌, List, [], ◌∷◌, ◌++◌, Option, none, some, Text, text_eq, ◌==◌, if◌then◌else◌, ◌≡◌, refl, ap,
  sym, ◌∙◌, arith, Bool-cases, inl, inr, eq_of_==,
}
use skeema.Objects.{ObjectKey}
use skeema.Objects.Keys.{same_key}
use skeema.Statement.{Statement, statement_key, statement_schema}
use skeema.Fs.{LogicalSchema, DuplicateDefinitionError, find_create, add_statement}
use skeema.Fs.Adding.{
  or_else, is_some, is_create, is_alter, first_create, alters_of, add_statement-Added,
}
use skeema.Fs.Contents.{
  Named, Contents, schema_named, put_schema, note_statement, add_error, place_statement,
}

schema_named-put :
    (j name : Text) (s : LogicalSchema) (ns : List Named)
    → schema_named j (put_schema name s ns) ≡ (if j == name then s else schema_named j ns)
unfolding schema_named put_schema
schema_named-put j name s [] = refl
schema_named-put j name s (n ∷ ns) = elim (Bool-cases (name == n.name)) [
  | inl same ↦
      let e = eq_of_== name n.name same in rw same (ground (arith, ap (λ (x : Text). j == x) e))
  | inr other ↦ elim (Bool-cases (j == name)) [
    | inl jn ↦
        let e = eq_of_== j name jn in
        rw other
          (ground (arith, schema_named-put j name s ns, jn, ap (λ (x : Text). x == n.name) e))
    | inr nn ↦ rw other (ground (arith, schema_named-put j name s ns, nn))
  ]
]

add_error-schemas :
    (stmt : Statement) (e : Option DuplicateDefinitionError) (c : Contents)
    → (add_error stmt e c).schemas ≡ c.schemas
unfolding add_error note_statement
add_error-schemas stmt none c = ground arith
add_error-schemas stmt (some e) c = refl

pub add_error-is_some :
    (stmt : Statement) (e : Option DuplicateDefinitionError) (c : Contents)
    → c.parse_error ≡ none
    → is_some (add_error stmt e c).parse_error ≡ is_some e
unfolding add_error note_statement
add_error-is_some stmt none c ok = ground arith
add_error-is_some stmt (some e) c ok = refl

-- The statements of a schema.
unfoldable pub of_schema : Text → List Statement → List Statement
unfolding text_eq
of_schema name [] = []
of_schema name (s ∷ ss) =
    if name == statement_schema s then s ∷ of_schema name ss else of_schema name ss

-- The contents `c'` are those of `c` with the statements of the list.
pub record Found (c : Contents) (ss : List Statement) (c' : Contents) : Type 0 where
  pub creates :
      (name : Text) (k : ObjectKey)
      → find_create k (schema_named name c'.schemas).creates
        ≡ or_else
            (find_create k (schema_named name c.schemas).creates)
            (first_create k (of_schema name ss))
  pub alters :
      (name : Text)
      → (schema_named name c'.schemas).alters
        ≡ (schema_named name c.schemas).alters ++ alters_of (of_schema name ss)

or_else-none {ℓ} : {A : Type ℓ} (o : Option A) → or_else o none ≡ o
or_else-none none = refl
or_else-none (some a) = refl

append_nil : (l : List Statement) → l ++ [] ≡ l
append_nil [] = refl
append_nil (s ∷ l) = ap (◌∷◌ s) (append_nil l)

pub place_statement-Found :
    (stmt : Statement) (c : Contents) → Found c (stmt ∷ []) (place_statement stmt c)
unfolding place_statement of_schema first_create alters_of
place_statement-Found stmt c =
    let own = statement_schema stmt in
    let added = add_statement-Added (schema_named own c.schemas) stmt in
    let result = add_statement (schema_named own c.schemas) stmt in
    let moved = λ (name : Text).
      ap (λ (ns : List Named). schema_named name ns)
        (add_error-schemas stmt result.1 (record c { schemas = put_schema own result.0 c.schemas }))
      ∙ schema_named-put name own result.0 c.schemas in
    record {
      creates = λ name k. elim (Bool-cases (name == own)) [
        | inl same ↦
            let e = eq_of_== name own same in
            simp (moved name, same, added.finds k, ap (λ (x : Text). schema_named x c.schemas) e)
        | inr other ↦
            simp (
              moved name,
              other,
              or_else-none (find_create k (schema_named name c.schemas).creates),
            )
      ];
      alters = λ name. elim (Bool-cases (name == own)) [
        | inl same ↦
            let e = eq_of_== name own same in
            simp (moved name, same, added.alters, ap (λ (x : Text). schema_named x c.schemas) e)
        | inr other ↦ simp (moved name, other, append_nil (schema_named name c.schemas).alters)
      ];
    }

append_assoc : (a b c : List Statement) → (a ++ b) ++ c ≡ a ++ (b ++ c)
append_assoc [] b c = refl
append_assoc (x ∷ a) b c = ap (◌∷◌ x) (append_assoc a b c)

or_else_assoc {ℓ} :
    {A : Type ℓ} (a b c : Option A) → or_else (or_else a b) c ≡ or_else a (or_else b c)
or_else_assoc none b c = refl
or_else_assoc (some a) b c = refl

of_schema-append :
    (name : Text) (a b : List Statement)
    → of_schema name (a ++ b) ≡ of_schema name a ++ of_schema name b
unfolding of_schema
of_schema-append name [] b = refl
of_schema-append name (s ∷ a) b = elim (Bool-cases (name == statement_schema s)) [
  | inl same ↦ simp (same, of_schema-append name a b)
  | inr other ↦ simp (other, of_schema-append name a b)
]

first_create-append :
    (k : ObjectKey) (a b : List Statement)
    → first_create k (a ++ b) ≡ or_else (first_create k a) (first_create k b)
unfolding first_create
first_create-append k [] b = refl
first_create-append k (s ∷ a) b =
    elim (Bool-cases (is_create s.type && same_key k (statement_key s))) [
      | inl same ↦ simp same
      | inr other ↦ simp (other, first_create-append k a b)
    ]

alters_of-append : (a b : List Statement) → alters_of (a ++ b) ≡ alters_of a ++ alters_of b
unfolding alters_of
alters_of-append [] b = refl
alters_of-append (s ∷ a) b = elim (Bool-cases (is_alter s.type)) [
  | inl same ↦ simp (same, alters_of-append a b)
  | inr other ↦ simp (other, alters_of-append a b)
]

pub Found-nil : (c : Contents) → Found c [] c
unfolding of_schema first_create alters_of
Found-nil c = record {
  creates = λ name k. sym (or_else-none (find_create k (schema_named name c.schemas).creates));
  alters = λ name. sym (append_nil (schema_named name c.schemas).alters);
}

pub Found-trans :
    {a b c : Contents} {xs ys : List Statement} → Found a xs b → Found b ys c → Found a (xs ++ ys) c
Found-trans {a} {b} {c} {xs} {ys} p q = record {
  creates = λ name k.
      simp
        (
          q.creates name k,
          p.creates name k,
          of_schema-append name xs ys,
          first_create-append k (of_schema name xs) (of_schema name ys),
        )
        (or_else_assoc (find_create k (schema_named name a.schemas).creates)
          (first_create k (of_schema name xs)) (first_create k (of_schema name ys)));
  alters = λ name.
      simp
        (
          q.alters name,
          p.alters name,
          of_schema-append name xs ys,
          alters_of-append (of_schema name xs) (of_schema name ys),
        )
        (append_assoc (schema_named name a.schemas).alters (alters_of (of_schema name xs))
          (alters_of (of_schema name ys)));
}
