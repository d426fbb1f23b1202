-- ===== src/Table/Indexes/Placing.antt =====
-- An index of the new table put in the place of the old one with its name.
use mathlib.Core.List.{append-nil}
use mathlib.Core.Path.{subst}
use skeema.Prelude.{
  Bool, true, false, not, ◌&&◌, ◌||◌, List, [], ◌∷◌, ◌++◌, Option, none, some, Text, text_eq,
  bool_eq, ◌==◌, if◌then◌else◌, ◌≡◌, refl, sym, ap, ◌∙◌, inl, inr, arith, All, Bool-cases,
  both_true, Option-cases, eq_of_==,
}
use skeema.Objects.{Index, IndexPart, index_part_eq}
use skeema.Objects.Compare.{index_equals_ignoring_visibility, index_equivalent, same_part_list}
use skeema.Clause.{TableAlterClause}
use skeema.Table.ByName.{find_named}
use skeema.Table.Indexes.{index_name, kept_index}
use skeema.Table.Indexes.Replay.{
  set_invisible, apply_index, apply_indexes, Fresh, Distinct, pending, settled, settled-append,
  differ_sym, Fresh-has_name, pending-other,
}

abbrev pub Pending : List Index → List Index → Index → Type 0
Pending tos from i = pending tos from i ≡ true

abbrev pub Settled : List Index → List Index → Index → Type 0
Settled tos from i = pending tos from i ≡ false

pub settled-Settled : (tos from l : List Index) → All (Settled tos from) l → settled tos from l ≡ l
unfolding settled
settled-Settled tos from [] h = refl
settled-Settled tos from (i ∷ l) h = rw h.0 (ap (◌∷◌ i) (settled-Settled tos from l h.1))

settled-Pending : (tos from l : List Index) → All (Pending tos from) l → settled tos from l ≡ []
unfolding settled
settled-Pending tos from [] h = refl
settled-Pending tos from (i ∷ l) h = rw h.0 (settled-Pending tos from l h.1)

pub settled-parts :
    (tos from done still : List Index)
    → All (Settled tos from) done
    → All (Pending tos from) still
    → settled tos from (done ++ still) ≡ done
settled-parts tos from done still d s =
    settled-append tos from done still
    ∙ rw (settled-Settled tos from done d, settled-Pending tos from still s) (append-nil done)

-- The index in the place of the one with its name.
unfoldable pub put_named : Index → List Index → List Index
put_named t [] = []
put_named t (i ∷ l) = let rest = put_named t l in if i.name == t.name then t ∷ rest else i ∷ rest

pub put_named-Fresh : (t : Index) (l : List Index) → Fresh t.name l → put_named t l ≡ l
unfolding put_named
put_named-Fresh t [] h = refl
put_named-Fresh t (i ∷ l) h = rw h.0 (ap (◌∷◌ i) (put_named-Fresh t l h.1))

set_invisible-Fresh :
    (key : Text) (v : Bool) (l : List Index) → Fresh key l → set_invisible key v l ≡ l
unfolding set_invisible
set_invisible-Fresh key v [] h = refl
set_invisible-Fresh key v (i ∷ l) h = rw h.0 (ap (◌∷◌ i) (set_invisible-Fresh key v l h.1))

set_invisible-append :
    (key : Text) (v : Bool) (l m : List Index)
    → set_invisible key v (l ++ m) ≡ set_invisible key v l ++ set_invisible key v m
unfolding set_invisible
set_invisible-append key v [] m = refl
set_invisible-append key v (i ∷ l) m = elim (Bool-cases (i.name == key)) [
  | inl e ↦ simp (e, set_invisible-append key v l m)
  | inr e ↦ simp (e, set_invisible-append key v l m)
]

pub Fresh-renamed : (a b : Text) (l : List Index) → a ≡ b → Fresh a l → Fresh b l
Fresh-renamed a b l e h = subst (λ key. Fresh key l) e h

pub find_named-other :
    (key : Text) (i : Index) (l : List Index)
    → (i.name == key) ≡ false
    → find_named index_name key (i ∷ l) ≡ find_named index_name key l
unfolding find_named
find_named-other key i l e = elim (Option-cases (find_named index_name key l)) [
  | inl p ↦ rw (find_named, p, e) refl
  | inr q ↦ rw (find_named, q.1) refl
]

find_named-Fresh : (key : Text) (l : List Index) → Fresh key l → find_named index_name key l ≡ none
unfolding find_named
find_named-Fresh key [] h = refl
find_named-Fresh key (i ∷ l) h = find_named-other key i l h.0 ∙ find_named-Fresh key l h.1

first_found :
    (o : Option Index) (b : Bool) (i f : Index)
    → o ≡ none
    → b ≡ true
    → (elim o as (λ x. Option Index) [ some y ↦ some y | none ↦ if b then some i else none ])
      ≡ some f
    → i ≡ f
first_found none true i f q e p = cc
first_found none false i f q e p = absurd (cc)
first_found (some y) b i f q e p = absurd (cc)

-- In a list of distinct names the first index with the name is the one that is found.
find_named-first :
    (key : Text) (i f : Index) (l : List Index)
    → Fresh i.name l
    → (i.name == key) ≡ true
    → find_named index_name key (i ∷ l) ≡ some f
    → i ≡ f
unfolding find_named
find_named-first key i f l fresh e p =
    let none_left =
      find_named-Fresh key l (Fresh-renamed i.name key l (eq_of_== i.name key e) fresh) in
    first_found (find_named index_name key l) (i.name == key) i f none_left e p

pub not_pending : (t : Index) (ts from : List Index) → Fresh t.name ts → pending ts from t ≡ false
unfolding pending
not_pending t ts from new = rw (Fresh-has_name t.name ts new) refl

pub still_Pending :
    (t : Index) (ts from l : List Index)
    → Fresh t.name l
    → All (Pending (t ∷ ts) from) l
    → All (Pending ts from) l
still_Pending t ts from [] fresh h = tt
still_Pending t ts from (i ∷ l) fresh h = (
  sym (pending-other t ts from i (differ_sym i.name t.name fresh.0)) ∙ h.0,
  still_Pending t ts from l fresh.1 h.1,
)

module _ (t f : Index) where
  -- Setting the visibility of the one index with the name is putting the new one there.
  set_invisible-put_named :
      (l : List Index)
      → Distinct l
      → find_named index_name t.name l ≡ some f
      → record f { invisible = t.invisible } ≡ t
      → set_invisible t.name t.invisible l ≡ put_named t l
  unfolding set_invisible put_named
  set_invisible-put_named [] d p e = refl
  set_invisible-put_named (i ∷ l) (fresh, d) p e = elim (Bool-cases (i.name == t.name)) [
    | inl n ↦
        let here = find_named-first t.name i f l fresh n p in
        let gone = Fresh-renamed i.name t.name l (eq_of_== i.name t.name n) fresh in
        let put : record i { invisible = t.invisible } ≡ t =
          subst (λ x. record x { invisible = t.invisible } ≡ t) (sym here) e in
        simp (n, put, set_invisible-Fresh t.name t.invisible l gone, put_named-Fresh t l gone)
    | inr n ↦
        let later = sym (find_named-other t.name i l n) ∙ p in
        simp (n, set_invisible-put_named l d later e)
  ]

  put_named_same :
      (l : List Index)
      → Distinct l
      → find_named index_name t.name l ≡ some f
      → f ≡ t
      → put_named t l ≡ l
  unfolding put_named
  put_named_same [] d p e = refl
  put_named_same (i ∷ l) (fresh, d) p e = elim (Bool-cases (i.name == t.name)) [
    | inl n ↦
        let here : i ≡ t = find_named-first t.name i f l fresh n p ∙ e in
        let gone = Fresh-renamed i.name t.name l (eq_of_== i.name t.name n) fresh in
        rw (n, put_named-Fresh t l gone) (ap (λ x. x ∷ l) (sym here))
    | inr n ↦
        let later = sym (find_named-other t.name i l n) ∙ p in
        rw (n, put_named_same l d later e) refl
  ]

  -- Of the pending ones, the index just put is settled.
  pub settled-put_named :
      (ts from l : List Index)
      → Fresh t.name ts
      → Distinct l
      → find_named index_name t.name l ≡ some f
      → All (Pending (t ∷ ts) from) l
      → settled ts from (put_named t l) ≡ t ∷ []
  unfolding settled put_named find_named
  settled-put_named ts from [] new d p h = absurd (cc)
  settled-put_named ts from (i ∷ l) new (fresh, d) p h = elim (Bool-cases (i.name == t.name)) [
    | inl n ↦
        let gone = Fresh-renamed i.name t.name l (eq_of_== i.name t.name n) fresh in
        let rest = settled-Pending ts from l (still_Pending t ts from l gone h.1) in
        simp (n, put_named-Fresh t l gone, rest, not_pending t ts from new)
    | inr n ↦
        let later = sym (find_named-other t.name i l n) ∙ p in
        let waits = sym (pending-other t ts from i (differ_sym i.name t.name n)) ∙ h.0 in
        simp (n, waits, settled-put_named ts from l new d later h.1)
  ]

-- The tests of index_equals_ignoring_visibility.
all_true :
    (a b c d e g h : Bool)
    → (a && b && (if not c || not d || not e || not g then false else h)) ≡ true
    → (a ≡ true) × (b ≡ true) × (c ≡ true) × (d ≡ true) × (e ≡ true) × (g ≡ true) × (h ≡ true)
all_true a b c d e g h p = ground arith

-- What equal indexes, visibility aside, have in common.
same_parts_eq : (ps qs : List IndexPart) → same_part_list ps qs ≡ true → ps ≡ qs
unfolding same_part_list
same_parts_eq [] [] h = refl
same_parts_eq [] (q ∷ qs) h = absurd (cc)
same_parts_eq (p ∷ ps) [] h = absurd (cc)
same_parts_eq (p ∷ ps) (q ∷ qs) h =
    let (first, rest) = both_true (p == q) (same_part_list ps qs) h in
    rw (eq_of_== p q first, same_parts_eq ps qs rest) refl

pub equals_ignoring_visibility :
    (f t : Index)
    → index_equals_ignoring_visibility f t ≡ true
    → record f { invisible = t.invisible } ≡ t
unfolding index_equals_ignoring_visibility index_equivalent
equals_ignoring_visibility f t h =
    let tests =
      all_true (f.name == t.name) (f.comment == t.comment) (f.primary_key == t.primary_key)
        (f.unique == t.unique) (f.type == t.type) (f.full_text_parser == t.full_text_parser)
        (same_part_list f.parts t.parts) h in
    simp (
      eq_of_== f.name t.name tests.0,
      eq_of_== f.comment t.comment tests.1,
      eq_of_== f.primary_key t.primary_key tests.2,
      eq_of_== f.unique t.unique tests.3,
      eq_of_== f.type t.type tests.4,
      eq_of_== f.full_text_parser t.full_text_parser tests.5,
      same_parts_eq f.parts t.parts tests.6,
    )

-- A kept index that stays where it is takes its new visibility.
pub apply-kept_in_place :
    (f t : Index) (rest : List TableAlterClause) (done still : List Index)
    → Fresh t.name done
    → Distinct still
    → find_named index_name t.name still ≡ some f
    → f.name ≡ t.name
    → record f { invisible = t.invisible } ≡ t
    → apply_indexes (kept_index f t false ++ rest) (done ++ still)
      ≡ apply_indexes rest (done ++ put_named t still)
unfolding kept_index apply_indexes apply_index
apply-kept_in_place f t rest done still new d p name e =
    elim (Bool-cases (f.invisible == t.invisible)) [
      | inl same ↦
          let v : f.invisible ≡ t.invisible = eq_of_== f.invisible t.invisible same in
          let whole : f ≡ t = subst (λ b. record f { invisible = b } ≡ t) (sym v) e in
          simp (same, put_named_same t f still d p whole)
      | inr differ ↦ simp (
        differ,
        name,
        set_invisible-append t.name t.invisible done still,
        set_invisible-Fresh t.name t.invisible done new,
        set_invisible-put_named t f still d p e,
      )
    ]
