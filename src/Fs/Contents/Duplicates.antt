-- ===== src/Fs/Contents/Duplicates.antt =====
-- When the loop over statements stops at a duplicate definition.
use skeema.Prelude.{
  Bool, false, ◌&&◌, ◌||◌, List, [], ◌∷◌, Option, none, some, text_eq, ◌==◌, ◌≡◌, refl, ap, sym,
  ◌∙◌, arith, Bool-cases, Option-cases, inl, inr,
}
use skeema.Objects.Keys.{same_key}
use skeema.Statement.{Statement, statement_key, statement_schema}
use skeema.Fs.{find_create, add_statement}
use skeema.Fs.Adding.{or_else, is_some, is_create, first_create, add_statement-Added}
use skeema.Fs.Contents.{Contents, schema_named, put_schema, place_statement, place_statements}
use skeema.Fs.Contents.Found.{of_schema, place_statement-Found, add_error-is_some}
use skeema.Fs.Contents.Finding.{kept, place_statements-next, place_statements-stops}

-- The statement is a CREATE of an object that the contents have.
abbrev pub clashes_with : Contents → Statement → Bool
clashes_with c s =
    is_create s.type
    && is_some (find_create (statement_key s) (schema_named (statement_schema s) c.schemas).creates)

unfoldable pub any_clash : Contents → List Statement → Bool
any_clash c [] = false
any_clash c (s ∷ ss) = clashes_with c s || any_clash c ss

-- Two statements create the same object of the same schema.
abbrev pub same_object : Statement → Statement → Bool
same_object s t =
    (is_create s.type && is_create t.type)
    && (statement_schema t == statement_schema s && same_key (statement_key t) (statement_key s))

unfoldable pub any_same : Statement → List Statement → Bool
unfolding text_eq
any_same s [] = false
any_same s (t ∷ ts) = same_object s t || any_same s ts

-- Some statement creates an object that an earlier one creates.
unfoldable pub has_duplicate : List Statement → Bool
unfolding any_same
has_duplicate [] = false
has_duplicate (s ∷ ss) = any_same s ss || has_duplicate ss

place_statement-is_some :
    (s : Statement) (c : Contents)
    → c.parse_error ≡ none
    → is_some (place_statement s c).parse_error ≡ clashes_with c s
unfolding place_statement
place_statement-is_some s c fine =
    let ls = schema_named (statement_schema s) c.schemas in
    let result = add_statement ls s in
    add_error-is_some s result.1
      (record c { schemas = put_schema (statement_schema s) result.0 c.schemas }) fine
    ∙ (add_statement-Added ls s).fails

or_else-is_some {ℓ} :
    {A : Type ℓ} (a b : Option A) → is_some (or_else a b) ≡ (is_some a || is_some b)
or_else-is_some none b = refl
or_else-is_some (some a) b = refl

one_create-is_some :
    (s t : Statement)
    → (is_create t.type
        && is_some (first_create (statement_key t) (of_schema (statement_schema t) (s ∷ []))))
      ≡ same_object s t
unfolding first_create of_schema
one_create-is_some s t = ground arith

shuffle : (m a b x y : Bool) → ((m && (a || b)) || (x || y)) ≡ (((m && a) || x) || ((m && b) || y))
shuffle m a b x y = ground arith

any_clash-place_statement :
    (s : Statement) (c : Contents) (ts : List Statement)
    → any_clash (place_statement s c) ts ≡ (any_clash c ts || any_same s ts)
unfolding any_clash any_same
any_clash-place_statement s c [] = refl
any_clash-place_statement s c (t ∷ ts) =
    let name = statement_schema t in
    let k = statement_key t in
    let found = (place_statement-Found s c).creates name k in
    simp
      (
        found,
        any_clash-place_statement s c ts,
        or_else-is_some (find_create k (schema_named name c.schemas).creates)
            (first_create k (of_schema name (s ∷ []))),
        sym (one_create-is_some s t),
      )
      (shuffle (is_create t.type) (is_some (find_create k (schema_named name c.schemas).creates))
        (is_some (first_create k (of_schema name (s ∷ [])))) (any_clash c ts) (any_same s ts))

or_assoc : (a b d : Bool) → (a || (b || d)) ≡ ((a || b) || d)
or_assoc a b d = ground arith

place_statements-nil :
    (should_ignore : Statement → Bool) (c : Contents)
    → c.parse_error ≡ none
    → (place_statements should_ignore [] c).parse_error ≡ none
unfolding place_statements
place_statements-nil should_ignore c fine = fine

-- The loop of parseContents over the statements of a file, begun with no error: it ends with an
-- error exactly if some statement that is not ignored is a CREATE of an object that the schema it
-- names had before, or that an earlier one of these statements creates there.
pub place_statements_fails_on_duplicates :
    (should_ignore : Statement → Bool) (ss : List Statement) (c : Contents)
    → c.parse_error ≡ none
    → is_some (place_statements should_ignore ss c).parse_error
      ≡ (any_clash c (kept should_ignore ss) || has_duplicate (kept should_ignore ss))
unfolding kept any_clash has_duplicate
place_statements_fails_on_duplicates should_ignore [] c fine =
    ap is_some (place_statements-nil should_ignore c fine)
place_statements_fails_on_duplicates should_ignore (s ∷ ss) c fine =
    let next = place_statements-next should_ignore s ss c fine in
    elim (Bool-cases (should_ignore s)) [
      | inl ignored ↦
          rw (next, ignored) (place_statements_fails_on_duplicates should_ignore ss c fine)
      | inr placed ↦ elim (Option-cases (place_statement s c).parse_error) [
        | inr failed ↦
            let clash = sym (place_statement-is_some s c fine) ∙ ap is_some failed.1 in
            let stops =
              place_statements-stops should_ignore ss (place_statement s c) failed.0 failed.1 in
            rw (next, placed, stops, failed.1, clash) refl
        | inl fine' ↦
            let clear = sym (place_statement-is_some s c fine) ∙ ap is_some fine' in
            let rest =
              place_statements_fails_on_duplicates should_ignore ss (place_statement s c) fine' in
            rw (next, placed, clear)
              (rest
                ∙ rw (any_clash-place_statement s c (kept should_ignore ss)) (
                    sym (
                      or_assoc (any_clash c (kept should_ignore ss))
                        (any_same s (kept should_ignore ss))
                        (has_duplicate (kept should_ignore ss)))))
      ]
    ]
