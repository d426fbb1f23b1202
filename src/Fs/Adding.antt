-- ===== src/Fs/Adding.antt =====
-- Which statements a LogicalSchema keeps.
use skeema.Prelude.{
  Bool, true, false, ◌&&◌, List, [], ◌∷◌, ◌++◌, Option, none, some, ◌≡◌, refl, ap, ◌∙◌, arith,
  Bool-cases, Option-cases, inl, inr, if◌then◌else◌,
}
use skeema.Objects.{ObjectKey}
use skeema.Objects.Keys.{same_key, same_key_eq}
use skeema.Statement.{
  Statement, StatementType, statement_unknown, statement_noop, statement_command, statement_create,
  statement_alter, statement_key,
}
use skeema.Fs.{
  Create, LogicalSchema, find_create, put_create, duplicate_of, add_statement, add_of_type,
}

-- A write changes what is found at its key, and nothing else.
pub find_create-put :
    (j k : ObjectKey) (stmt : Statement) (cs : List Create)
    → find_create j (put_create k stmt cs) ≡ (if same_key j k then some stmt else find_create j cs)
unfolding find_create put_create
find_create-put j k stmt [] = refl
find_create-put j k stmt (c ∷ cs) = elim (Bool-cases (same_key k c.key)) [
  | inl same ↦ let e = same_key_eq k c.key same in rw same (ground (arith, ap (same_key j) e))
  | inr other ↦ elim (Bool-cases (same_key j k)) [
    | inl jk ↦
        let e = same_key_eq j k jk in
        rw other (
          ground
            (arith, find_create-put j k stmt cs, jk, ap (λ (x : ObjectKey). same_key x c.key) e))
    | inr nk ↦ rw other (ground (arith, find_create-put j k stmt cs, nk))
  ]
]

unfoldable pub is_create : StatementType → Bool
is_create statement_create = true
is_create _ = false

unfoldable pub is_alter : StatementType → Bool
is_alter statement_alter = true
is_alter _ = false

-- The first CREATE statement of an object.
unfoldable pub first_create : ObjectKey → List Statement → Option Statement
unfolding is_create
first_create k [] = none
first_create k (s ∷ ss) =
    if is_create s.type && same_key k (statement_key s) then some s else first_create k ss

-- The ALTER statements.
unfoldable pub alters_of : List Statement → List Statement
unfolding is_alter
alters_of [] = []
alters_of (s ∷ ss) = if is_alter s.type then s ∷ alters_of ss else alters_of ss

abbrev pub or_else {ℓ} : {A : Type ℓ} → Option A → Option A → Option A
or_else none b = b
or_else (some a) b = some a

abbrev pub is_some {ℓ} : {A : Type ℓ} → Option A → Bool
is_some none = false
is_some (some a) = true

-- What one AddStatement does: a CREATE is kept unless its object is there.
pub record Added (s : LogicalSchema) (stmt : Statement) : Type 0 where
  pub finds :
      (k : ObjectKey)
      → find_create k (add_statement s stmt).0.creates
        ≡ or_else (find_create k s.creates) (first_create k (stmt ∷ []))
  pub alters : (add_statement s stmt).0.alters ≡ s.alters ++ alters_of (stmt ∷ [])
  pub fails :
      is_some (add_statement s stmt).1
      ≡ (is_create stmt.type && is_some (find_create (statement_key stmt) s.creates))

new_create-finds :
    (s : LogicalSchema) (stmt : Statement) (k : ObjectKey)
    → find_create (statement_key stmt) s.creates ≡ none
    → (if same_key k (statement_key stmt) then some stmt else find_create k s.creates)
      ≡ or_else
          (find_create k s.creates)
          (if same_key k (statement_key stmt) then some stmt else none)
new_create-finds s stmt k missing = elim (Bool-cases (same_key k (statement_key stmt))) [
  | inl same ↦
      let e = same_key_eq k (statement_key stmt) same in
      let missing' = ap (λ (x : ObjectKey). find_create x s.creates) e ∙ missing in
      rw (same, missing') refl
  | inr other ↦ elim (Option-cases (find_create k s.creates)) [
    | inl e ↦ rw (other, e) refl
    | inr e ↦ rw (other, e.1) refl
  ]
]

old_create-finds :
    (s : LogicalSchema) (stmt orig : Statement) (k : ObjectKey)
    → find_create (statement_key stmt) s.creates ≡ some orig
    → find_create k s.creates
      ≡ or_else
          (find_create k s.creates)
          (if same_key k (statement_key stmt) then some stmt else none)
old_create-finds s stmt orig k there = elim (Bool-cases (same_key k (statement_key stmt))) [
  | inl same ↦
      let e = same_key_eq k (statement_key stmt) same in
      let there' = ap (λ (x : ObjectKey). find_create x s.creates) e ∙ there in
      rw (same, there') refl
  | inr other ↦ elim (Option-cases (find_create k s.creates)) [
    | inl e ↦ rw (other, e) refl
    | inr e ↦ rw (other, e.1) refl
  ]
]

or_else-none {ℓ} : {A : Type ℓ} (o : Option A) → o ≡ or_else o none
or_else-none none = refl
or_else-none (some a) = refl

no_alters : (l : List Statement) → l ≡ l ++ []
no_alters [] = refl
no_alters (s ∷ l) = ap (◌∷◌ s) (no_alters l)

add_of_type-Added :
    (s : LogicalSchema) (stmt : Statement) (type : StatementType) → stmt.type ≡ type → Added s stmt
unfolding add_statement add_of_type duplicate_of first_create is_create alters_of is_alter
add_of_type-Added s stmt statement_create e =
    elim (Option-cases (find_create (statement_key stmt) s.creates)) [
      | inl missing ↦ record {
        finds = λ k.
            simp (e, missing)
              (find_create-put k (statement_key stmt) stmt s.creates
                ∙ new_create-finds s stmt k missing);
        alters = simp (e, missing) (no_alters s.alters);
        fails = simp (e, missing);
      }
      | inr there ↦ record {
        finds = λ k. simp (e, there.1) (old_create-finds s stmt there.0 k there.1);
        alters = simp (e, there.1) (no_alters s.alters);
        fails = simp (e, there.1);
      }
    ]
add_of_type-Added s stmt statement_alter e = record {
  finds = λ k. simp (e) (or_else-none (find_create k s.creates));
  alters = simp e;
  fails = simp e;
}
add_of_type-Added s stmt statement_unknown e = record {
  finds = λ k. simp (e) (or_else-none (find_create k s.creates));
  alters = simp (e) (no_alters s.alters);
  fails = simp e;
}
add_of_type-Added s stmt statement_noop e = record {
  finds = λ k. simp (e) (or_else-none (find_create k s.creates));
  alters = simp (e) (no_alters s.alters);
  fails = simp e;
}
add_of_type-Added s stmt statement_command e = record {
  finds = λ k. simp (e) (or_else-none (find_create k s.creates));
  alters = simp (e) (no_alters s.alters);
  fails = simp e;
}

pub add_statement-Added : (s : LogicalSchema) (stmt : Statement) → Added s stmt
add_statement-Added s stmt = add_of_type-Added s stmt stmt.type refl
