-- ===== src/Table/Indexes/InPlace.antt =====
-- The loop over the indexes of the new table while every index before is still in its place.
use mathlib.Core.List.{append_assoc}
use mathlib.Core.Path.{subst}
use skeema.Prelude.{
  true, false, List, [], ◌∷◌, ◌++◌, none, some, text_eq, bool_eq, ◌==◌, ◌≡◌, refl, sym, ap, ◌∙◌,
  inl, inr, All, All-append, Bool-cases, Option-cases, eq_of_==,
}
use skeema.Objects.{Index, index_part_eq}
use skeema.Objects.Compare.{index_equals_ignoring_visibility}
use skeema.Clause.{TableAlterClause, add_index, drop_index}
use skeema.Table.ByName.{find_named, has_name}
use skeema.Table.Indexes.{index_name, out_of_place, tail_of, index_loop}
use skeema.Table.Indexes.Replay.{
  remove_named, apply_index, apply_indexes, Fresh, Distinct, pending, settled-append, differ_sym,
  pending-other, pending_now,
}
use skeema.Table.Indexes.Reordered.{
  find_named_name, find_named-has_name, find_named-new, added, replaced, loop_step, index_step-new,
  index_step-changed, index_step-kept, replay_reordered,
}
use skeema.Table.Indexes.Placing.{
  Pending, Settled, settled-Settled, settled-parts, put_named, put_named-Fresh, Fresh-renamed,
  find_named-other, not_pending, still_Pending, settled-put_named, equals_ignoring_visibility,
  apply-kept_in_place,
}

-- What is settled does not have the name of an index that the loop comes to, if that was there.
Settled-Fresh :
    (t : Index) (ts from l : List Index)
    → has_name index_name t.name from ≡ true
    → All (Settled (t ∷ ts) from) l
    → Fresh t.name l
Settled-Fresh t ts from [] old h = tt
Settled-Fresh t ts from (i ∷ l) old h = (
  elim (Bool-cases (i.name == t.name)) [
    | inl e ↦ let waits = pending_now t ts from i old e in absurd (cc)
    | inr e ↦ e
  ],
  Settled-Fresh t ts from l old h.1,
)

Settled-tail :
    (t : Index) (ts from l : List Index)
    → has_name index_name t.name from ≡ true
    → All (Settled (t ∷ ts) from) l
    → All (Settled ts from) l
Settled-tail t ts from [] old h = tt
Settled-tail t ts from (i ∷ l) old h =
    let apart = (Settled-Fresh t ts from (i ∷ l) old h).0 in
    (
      sym (pending-other t ts from i (differ_sym i.name t.name apart)) ∙ h.0,
      Settled-tail t ts from l old h.1,
    )

abbrev pub SameSearch : List Index → List Index → Index → Type 0
SameSearch from still t = find_named index_name t.name from ≡ find_named index_name t.name still

-- The names behind the head are searched for in the tail.
SameSearch-tail :
    (t g : Index) (from still ts : List Index)
    → (g.name == t.name) ≡ true
    → Fresh t.name ts
    → All (SameSearch from (g ∷ still)) ts
    → All (SameSearch from still) ts
SameSearch-tail t g from still [] e fresh h = tt
SameSearch-tail t g from still (u ∷ ts) e fresh h =
    let name : t.name ≡ g.name = sym (eq_of_== g.name t.name e) in
    let apart : (g.name == u.name) ≡ false =
      subst (λ n. (n == u.name) ≡ false) name (differ_sym u.name t.name fresh.0) in
    (h.0 ∙ find_named-other u.name g still apart, SameSearch-tail t g from still ts e fresh.1 h.1)

Pending-nothing : (from l : List Index) → All (Pending [] from) l → l ≡ []
unfolding pending has_name find_named
Pending-nothing from [] h = refl
Pending-nothing from (i ∷ l) h = absurd (cc)

pub record Placed (from done still tos : List Index) : Type 0 where
  pub distinct : Distinct tos
  pub distinct_still : Distinct still
  pub waiting : All (Pending tos from) still
  pub ready : All (Settled tos from) done
  pub search : All (SameSearch from still) tos

in_front : (done ts : List Index) (t : Index) → (done ++ t ∷ []) ++ ts ≡ done ++ t ∷ ts
in_front done ts t = append_assoc done (t ∷ []) ts

-- The index stays at the head of the old ones: the loop goes on with one more in place.
next-Placed :
    (from done rest ts : List Index) (t g f : Index)
    → find_named index_name t.name from ≡ some f
    → (g.name == t.name) ≡ true
    → Placed from done (g ∷ rest) (t ∷ ts)
    → Placed from (done ++ t ∷ []) rest ts
next-Placed from done rest ts t g f p e placed =
    let old = find_named-has_name t.name from f p in
    let gone =
      Fresh-renamed g.name t.name rest (eq_of_== g.name t.name e) placed.distinct_still.0 in
    record {
      distinct = placed.distinct.1;
      distinct_still = placed.distinct_still.1;
      waiting = still_Pending t ts from rest gone placed.waiting.1;
      ready =
          All-append (Settled ts from) done (t ∷ []) (Settled-tail t ts from done old placed.ready)
            (not_pending t ts from placed.distinct.0, tt);
      search = SameSearch-tail t g from rest ts e placed.distinct.0 placed.search.1;
    }

-- The index is not the head of the old ones: those behind it in the new order are moved.
replay_moved :
    (from done still rest ts : List Index) (t f : Index)
    → find_named index_name t.name from ≡ some f
    → Placed from done still (t ∷ ts)
    → apply_indexes (index_loop from rest true ts) (done ++ put_named t still) ≡ done ++ t ∷ ts
replay_moved from done still rest ts t f p placed =
    let old = find_named-has_name t.name from f p in
    let there = sym placed.search.0 ∙ p in
    replay_reordered from rest ts (done ++ put_named t still) placed.distinct.1
    ∙ ap (λ l. l ++ ts)
        (settled-append ts from done (put_named t still)
          ∙ rw
              (
                settled-Settled ts from done (Settled-tail t ts from done old placed.ready),
                settled-put_named t f ts from still placed.distinct.0 placed.distinct_still there
                    placed.waiting,
              )
              refl)
    ∙ in_front done ts t

replay_kept :
    (from done still ts : List Index) (t f : Index)
    → find_named index_name t.name from ≡ some f
    → Placed from done still (t ∷ ts)
    → ((rest : List Index)
        → Placed from (done ++ t ∷ []) rest ts
        → apply_indexes (index_loop from rest false ts) ((done ++ t ∷ []) ++ rest)
          ≡ (done ++ t ∷ []) ++ ts)
    → apply_indexes
        (index_loop from (tail_of still) (out_of_place t still) ts)
        (done ++ put_named t still)
      ≡ done ++ t ∷ ts
unfolding out_of_place
replay_kept from done [] ts t f p placed ih = replay_moved from done [] [] ts t f p placed
replay_kept from done (g ∷ rest) ts t f p placed ih = elim (Bool-cases (g.name == t.name)) [
  | inl e ↦
      let gone =
        Fresh-renamed g.name t.name rest (eq_of_== g.name t.name e) placed.distinct_still.0 in
      let put : put_named t (g ∷ rest) ≡ t ∷ rest =
        unfold put_named in rw (e, put_named-Fresh t rest gone) refl in
      rw (e, put)
        (ap (apply_indexes (index_loop from rest false ts)) (sym (in_front done rest t))
          ∙ ih rest (next-Placed from done rest ts t g f p e placed)
          ∙ in_front done ts t)
  | inr e ↦ rw e (replay_moved from done (g ∷ rest) rest ts t f p placed)
]

apply-added :
    (t : Index) (rest : List TableAlterClause) (l : List Index)
    → apply_indexes (add_index t false ∷ rest) l ≡ apply_indexes rest (l ++ t ∷ [])
unfolding apply_indexes apply_index
apply-added t rest l = refl

apply-replaced :
    (f t : Index) (rest : List TableAlterClause) (l : List Index)
    → apply_indexes (drop_index f false ∷ add_index t false ∷ rest) l
      ≡ apply_indexes rest (remove_named f.name l ++ t ∷ [])
unfolding apply_indexes apply_index
apply-replaced f t rest l = refl

pub replay_in_place :
    (from done still tos : List Index)
    → Placed from done still tos
    → apply_indexes (index_loop from still false tos) (done ++ still) ≡ done ++ tos
replay_in_place from done still [] placed =
    unfold index_loop apply_indexes in
    ap (λ l. done ++ l) (Pending-nothing from still placed.waiting)
replay_in_place from done still (t ∷ ts) placed =
    elim (Option-cases (find_named index_name t.name from)) [
      | inl p ↦
          ap (λ cs. apply_indexes cs (done ++ still))
            (loop_step from still false t ts none p ∙ index_step-new t false _ _)
          ∙ apply-added t _ (done ++ still)
          ∙ replay_reordered from (tail_of still) ts ((done ++ still) ++ t ∷ []) placed.distinct.1
          ∙ added from t ts placed.distinct.0 (done ++ still) (find_named-new t.name from p)
          ∙ ap (λ l. l ++ t ∷ ts)
              (settled-parts (t ∷ ts) from done still placed.ready placed.waiting)
      | inr (f, p) ↦ elim (Bool-cases (index_equals_ignoring_visibility f t)) [
        | inl e ↦
            ap (λ cs. apply_indexes cs (done ++ still))
              (loop_step from still false t ts (some f) p ∙ index_step-kept f t false _ _ e)
            ∙ apply-kept_in_place f t _ done still
                (Settled-Fresh t ts from done (find_named-has_name t.name from f p) placed.ready)
                placed.distinct_still (sym placed.search.0 ∙ p) (find_named_name t.name from f p)
                (equals_ignoring_visibility f t e)
            ∙ replay_kept from done still ts t f p placed
                (λ rest next. replay_in_place from (done ++ t ∷ []) rest ts next)
        | inr e ↦
            ap (λ cs. apply_indexes cs (done ++ still))
              (loop_step from still false t ts (some f) p ∙ index_step-changed f t false _ _ e)
            ∙ apply-replaced f t _ (done ++ still)
            ∙ replay_reordered from (tail_of still) ts
                (remove_named f.name (done ++ still) ++ t ∷ []) placed.distinct.1
            ∙ replaced from t ts placed.distinct.0 (done ++ still) f p
            ∙ ap (λ l. l ++ t ∷ ts)
                (settled-parts (t ∷ ts) from done still placed.ready placed.waiting)
      ]
    ]
