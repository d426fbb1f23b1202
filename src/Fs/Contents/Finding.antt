-- ===== src/Fs/Contents/Finding.antt =====
-- Which objects the logical schemas of a directory have, and when it has one twice.
use skeema.Prelude.{
  Bool, List, [], ◌∷◌, ◌++◌, Option, none, some, Text, text_eq, if◌then◌else◌, ◌≡◌, refl, ap, sym,
  ◌∙◌, Bool-cases, Option-cases, inl, inr,
}
use skeema.Objects.{ObjectKey}
use skeema.Statement.{Statement}
use skeema.Fs.{find_create}
use skeema.Fs.Adding.{first_create, alters_of}
use skeema.Fs.Contents.{
  SqlFile, ParseError, Contents, no_contents, schema_named, place_statements, contents_step,
  read_parsed, read_file, read_files, file_done,
}
use skeema.Fs.Contents.Found.{of_schema, Found, Found-nil, Found-trans, place_statement-Found}

-- The statements of the files.
unfoldable pub all_statements : List SqlFile → List Statement
all_statements [] = []
all_statements (f ∷ fs) = f.statements ++ all_statements fs

module _ (should_ignore : Statement → Bool) where
  -- The statements that are not ignored.
  unfoldable pub kept : List Statement → List Statement
  kept [] = []
  kept (s ∷ ss) = if should_ignore s then kept ss else s ∷ kept ss

  kept-append : (a b : List Statement) → kept (a ++ b) ≡ kept a ++ kept b
  unfolding kept
  kept-append [] b = refl
  kept-append (s ∷ a) b = elim (Bool-cases (should_ignore s)) [
    | inl ignored ↦ simp (ignored, kept-append a b)
    | inr fine ↦ simp (fine, kept-append a b)
  ]

  pub place_statements-stops :
      (ss : List Statement) (c : Contents) (e : ParseError)
      → c.parse_error ≡ some e
      → place_statements should_ignore ss c ≡ c
  unfolding place_statements
  place_statements-stops [] c e failed = refl
  place_statements-stops (s ∷ ss) c e failed = simp failed

  pub place_statements-next :
      (s : Statement) (ss : List Statement) (c : Contents)
      → c.parse_error ≡ none
      → place_statements should_ignore (s ∷ ss) c
        ≡ place_statements should_ignore ss (contents_step should_ignore s c)
  unfolding place_statements
  place_statements-next s ss c fine = simp fine

  contents_step-Found :
      (s : Statement) (c : Contents) → Found c (kept (s ∷ [])) (contents_step should_ignore s c)
  unfolding kept
  contents_step-Found s c = elim (Bool-cases (should_ignore s)) [
    | inl ignored ↦ rw ignored (Found-nil c)
    | inr placed ↦ rw placed (place_statement-Found s c)
  ]

  place_statements-Found :
      (ss : List Statement) (c : Contents)
      → (place_statements should_ignore ss c).parse_error ≡ none
      → Found c (kept ss) (place_statements should_ignore ss c)
  unfolding place_statements kept
  place_statements-Found [] c ok = Found-nil c
  place_statements-Found (s ∷ ss) c ok = elim (Option-cases c.parse_error) [
    | inr failed ↦ absurd (cc (ok, failed.1, place_statements-stops (s ∷ ss) c failed.0 failed.1))
    | inl fine ↦
        let next = place_statements-next s ss c fine in
        let ok' = sym (ap (λ (x : Contents). x.parse_error) next) ∙ ok in
        let rest = place_statements-Found ss (contents_step should_ignore s c) ok' in
        rw (next, kept-append (s ∷ []) ss) (Found-trans (contents_step-Found s c) rest)
  ]

  read_files-stops :
      (fs : List SqlFile) (c : Contents) (e : ParseError)
      → c.parse_error ≡ some e
      → read_files should_ignore fs c ≡ c
  unfolding read_files
  read_files-stops [] c e failed = refl
  read_files-stops (f ∷ fs) c e failed = simp failed

  read_files-next :
      (f : SqlFile) (fs : List SqlFile) (c : Contents)
      → c.parse_error ≡ none
      → read_files should_ignore (f ∷ fs) c
        ≡ read_files should_ignore fs (read_file should_ignore f c)
  unfolding read_files
  read_files-next f fs c fine = simp fine

  file_done-same :
      (path : Text) (c : Contents)
      → ((file_done should_ignore path c).parse_error ≡ c.parse_error)
        × ((file_done should_ignore path c).schemas ≡ c.schemas)
  file_done-same path c = elim (Option-cases c.parse_error) [
    | inl fine ↦ (simp fine, simp fine)
    | inr failed ↦ (simp failed.1, simp failed.1)
  ]

  Found-schemas :
      (c : Contents) (ss : List Statement) (a b : Contents)
      → Found c ss a
      → b.schemas ≡ a.schemas
      → Found c ss b
  Found-schemas c ss a b found same = record {
    creates = λ name k. simp same (found.creates name k);
    alters = λ name. simp same (found.alters name);
  }

  read_parsed-Found :
      (failure : Option Text) (f : SqlFile) (c : Contents)
      → (read_parsed should_ignore failure f c).parse_error ≡ none
      → Found c (kept f.statements) (read_parsed should_ignore failure f c)
  read_parsed-Found (some e) f c ok = cc
  read_parsed-Found none f c ok =
      let placed = place_statements should_ignore f.statements c in
      let same = file_done-same f.file_path placed in
      Found-schemas c (kept f.statements) placed (file_done should_ignore f.file_path placed)
        (place_statements-Found f.statements c (sym same.0 ∙ ok)) same.1

  read_files-Found :
      (fs : List SqlFile) (c : Contents)
      → (read_files should_ignore fs c).parse_error ≡ none
      → Found c (kept (all_statements fs)) (read_files should_ignore fs c)
  unfolding read_files kept all_statements
  read_files-Found [] c ok = Found-nil c
  read_files-Found (f ∷ fs) c ok = elim (Option-cases c.parse_error) [
    | inr failed ↦ absurd (cc (ok, failed.1, read_files-stops (f ∷ fs) c failed.0 failed.1))
    | inl fine ↦
        let next = read_files-next f fs c fine in
        let ok' = sym (ap (λ (x : Contents). x.parse_error) next) ∙ ok in
        let rest = read_files-Found fs (read_file should_ignore f c) ok' in
        elim (Option-cases (read_file should_ignore f c).parse_error) [
          | inr failed ↦ absurd (
              cc (
                ok',
                failed.1,
                read_files-stops fs (read_file should_ignore f c) failed.0 failed.1,
              ))
          | inl fine' ↦
              rw (next, kept-append f.statements (all_statements fs))
                (Found-trans (read_parsed-Found f.failure f c fine') rest)
        ]
  ]

-- parseContents, where the loop over the *.sql files ends with no error: an object is in the logical
-- schema of a name exactly if some statement of that schema, not ignored, is a CREATE of it, and
-- then its entry is the first such statement; the alters of that schema are its ALTER statements
-- that are not ignored, in their order.
pub read_files_finds_first_creates :
    (should_ignore : Statement → Bool) (fs : List SqlFile)
    → (read_files should_ignore fs no_contents).parse_error ≡ none
    → (name : Text) (k : ObjectKey)
    → (find_create k (schema_named name (read_files should_ignore fs no_contents).schemas).creates
        ≡ first_create k (of_schema name (kept should_ignore (all_statements fs))))
      × ((schema_named name (read_files should_ignore fs no_contents).schemas).alters
          ≡ alters_of (of_schema name (kept should_ignore (all_statements fs))))
unfolding find_create schema_named
read_files_finds_first_creates should_ignore fs ok name k =
    let found = read_files-Found should_ignore fs no_contents ok in
    (found.creates name k, found.alters name)
