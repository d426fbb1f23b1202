-- ===== src/Table/Indexes/Reordered.antt =====
-- The loop over the indexes once some index was added, replaced or found out of its place.
use mathlib.Core.List.{append_assoc, append-nil}
use mathlib.Core.Path.{subst}
use skeema.Prelude.{
  Bool, true, false, ◌||◌, List, [], ◌∷◌, ◌++◌, Option, none, some, Text, text_eq, bool_eq, ◌==◌,
  ◌!=◌, if◌then◌else◌, ◌≡◌, refl, sym, ap, ◌∙◌, inl, inr, Bool-cases, Option-cases, eq_of_==,
}
use skeema.Objects.{Index}
use skeema.Objects.Compare.{index_equals_ignoring_visibility}
use skeema.Clause.{TableAlterClause, add_index, drop_index}
use skeema.Table.ByName.{find_named, has_name}
use skeema.Table.Indexes.{index_name, kept_index, out_of_place, tail_of, index_step, index_loop}
use skeema.Table.Indexes.Replay.{
  remove_named, set_invisible, apply_index, apply_indexes, Fresh, Distinct, settled, settled-append,
  settled-nothing, settled-new, settled-remove, settled-one,
}

found_name :
    (o : Option Index) (b : Bool) (i f : Index) (key : Text)
    → (elim o as (λ x. Option Index) [ some y ↦ some y | none ↦ if b then some i else none ])
      ≡ some f
    → (o ≡ some f → f.name ≡ key)
    → (b ≡ true → i.name ≡ key)
    → f.name ≡ key
found_name none true i f key p h g =
    let same : i ≡ f = cc in subst (λ x. x.name ≡ key) same (g refl)
found_name none false i f key p h g = absurd (cc)
found_name (some y) b i f key p h g = h p

-- The index that a search finds has the name.
pub find_named_name :
    (key : Text) (l : List Index) (f : Index) → find_named index_name key l ≡ some f → f.name ≡ key
unfolding find_named
find_named_name key [] f p = cc
find_named_name key (i ∷ l) f p =
    found_name (find_named index_name key l) (i.name == key) i f key p (find_named_name key l f)
      (eq_of_== i.name key)

pub find_named-has_name :
    (key : Text) (l : List Index) (f : Index)
    → find_named index_name key l ≡ some f
    → has_name index_name key l ≡ true
unfolding has_name
find_named-has_name key l f p = rw (has_name, p) refl

pub find_named-new :
    (key : Text) (l : List Index)
    → find_named index_name key l ≡ none
    → has_name index_name key l ≡ false
unfolding has_name
find_named-new key l p = rw (has_name, p) refl

remove_named-set_invisible :
    (key : Text) (invisible : Bool) (l : List Index)
    → remove_named key (set_invisible key invisible l) ≡ remove_named key l
unfolding remove_named set_invisible
remove_named-set_invisible key invisible [] = refl
remove_named-set_invisible key invisible (i ∷ l) = elim (Bool-cases (i.name == key)) [
  | inl e ↦ simp (e, remove_named-set_invisible key invisible l)
  | inr e ↦ simp (e, remove_named-set_invisible key invisible l)
]

module _ (from : List Index) (t : Index) (ts : List Index) (fresh : Fresh t.name ts) where
  pub added :
      (l : List Index)
      → has_name index_name t.name from ≡ false
      → settled ts from (l ++ t ∷ []) ++ ts ≡ settled (t ∷ ts) from l ++ t ∷ ts
  added l new = simp (
    settled-append ts from l (t ∷ []),
    settled-one t ts from fresh,
    settled-new t ts from l new,
    append_assoc,
  )

  pub replaced :
      (l : List Index) (f : Index)
      → find_named index_name t.name from ≡ some f
      → settled ts from (remove_named f.name l ++ t ∷ []) ++ ts ≡ settled (t ∷ ts) from l ++ t ∷ ts
  replaced l f found =
      let old = find_named-has_name t.name from f found in
      let name = find_named_name t.name from f found in
      simp (
        name,
        settled-append ts from (remove_named t.name l) (t ∷ []),
        settled-one t ts from fresh,
        settled-remove t ts from l old,
        append_assoc,
      )

-- The clauses for one index in each branch of the loop.
module _ (from still : List Index) (reorder : Bool) (t : Index) (ts : List Index) where
  abbrev when_changed : List TableAlterClause
  when_changed = index_loop from (tail_of still) true ts

  abbrev when_same : List TableAlterClause
  when_same = index_loop from (tail_of still) (reorder || out_of_place t still) ts

  pub loop_step :
      (o : Option Index)
      → find_named index_name t.name from ≡ o
      → index_loop from still reorder (t ∷ ts) ≡ index_step o t reorder when_changed when_same
  unfolding index_loop
  loop_step o p = ap (λ found. index_step found t reorder when_changed when_same) p

pub index_step-new :
    (t : Index) (reorder : Bool) (changed same : List TableAlterClause)
    → index_step none t reorder changed same ≡ add_index t false ∷ changed
unfolding index_step
index_step-new t reorder changed same = refl

pub index_step-changed :
    (f t : Index) (reorder : Bool) (changed same : List TableAlterClause)
    → index_equals_ignoring_visibility f t ≡ false
    → index_step (some f) t reorder changed same ≡ drop_index f false ∷ add_index t false ∷ changed
unfolding index_step
index_step-changed f t reorder changed same e = simp e

pub index_step-kept :
    (f t : Index) (reorder : Bool) (changed same : List TableAlterClause)
    → index_equals_ignoring_visibility f t ≡ true
    → index_step (some f) t reorder changed same ≡ kept_index f t reorder ++ same
unfolding index_step
index_step-kept f t reorder changed same e = simp e

-- A kept index that is dropped and added again, its visibility changed first or not.
apply-kept_reordered :
    (f t : Index) (rest : List TableAlterClause) (l : List Index)
    → apply_indexes (kept_index f t true ++ rest) l
      ≡ apply_indexes rest (remove_named f.name l ++ t ∷ [])
unfolding kept_index apply_indexes apply_index
apply-kept_reordered f t rest l = elim (Bool-cases (f.invisible != t.invisible)) [
  | inl e ↦ simp (e, remove_named-set_invisible f.name t.invisible l)
  | inr e ↦ simp e
]

-- Once indexes are reordered, the loop leaves what is settled, and puts the rest behind it.
pub replay_reordered :
    (from still tos l : List Index)
    → Distinct tos
    → apply_indexes (index_loop from still true tos) l ≡ settled tos from l ++ tos
unfolding apply_indexes apply_index
replay_reordered from still [] l d =
    let nothing : settled [] from l ++ [] ≡ l =
      append-nil (settled [] from l) ∙ settled-nothing from l in
    unfold index_loop in sym nothing
replay_reordered from still (t ∷ ts) l (fresh, d) =
    elim (Option-cases (find_named index_name t.name from)) [
      | inl p ↦
          ap (λ cs. apply_indexes cs l)
            (loop_step from still true t ts none p ∙ index_step-new t true _ _)
          ∙ replay_reordered from (tail_of still) ts (l ++ t ∷ []) d
          ∙ added from t ts fresh l (find_named-new t.name from p)
      | inr (f, p) ↦
          let step = loop_step from still true t ts (some f) p in
          let rest = replay_reordered from (tail_of still) ts (remove_named f.name l ++ t ∷ []) d in
          let there = replaced from t ts fresh l f p in
          elim (Bool-cases (index_equals_ignoring_visibility f t)) [
            | inl e ↦
                ap (λ cs. apply_indexes cs l) (step ∙ index_step-kept f t true _ _ e)
                ∙ apply-kept_reordered f t _ l
                ∙ rest
                ∙ there
            | inr e ↦
                ap (λ cs. apply_indexes cs l) (step ∙ index_step-changed f t true _ _ e)
                ∙ rest
                ∙ there
          ]
    ]
