-- ===== src/Table/Indexes/Result.antt =====
-- The result of all clauses on secondary indexes.
use mathlib.Core.List.{append_assoc}
use mathlib.Core.Path.{subst}
use skeema.Prelude.{
  Bool, true, false, ◌||◌, List, [], ◌∷◌, ◌++◌, Option, none, some, Text, text_eq, ◌==◌,
  if◌then◌else◌, ◌≡◌, refl, sym, ap, ◌∙◌, inl, inr, arith, All, All-append, Bool-cases, ==_refl,
  eq_of_==,
}
use skeema.Objects.{Index}
use skeema.Table.ByName.{find_named, has_name}
use skeema.Table.Indexes.{index_name, still_exist, index_drops, index_loop, secondary_index_clauses}
use skeema.Table.Indexes.Replay.{
  remove_named, apply_index, apply_indexes, apply_indexes-append, Fresh, Distinct, pending,
  has_name-cons, differ_sym,
}
use skeema.Table.Indexes.Placing.{Pending, find_named-other}
use skeema.Table.Indexes.InPlace.{SameSearch, replay_in_place}

abbrev Known : List Index → Index → Type 0
Known l i = has_name index_name i.name l ≡ true

All-weaken : (P Q : Index → Type 0) (l : List Index) → ((i : Index) → P i → Q i) → All P l → All Q l
All-weaken P Q [] f h = tt
All-weaken P Q (i ∷ l) f h = (f i h.0, All-weaken P Q l f h.1)

or_true : (a : Bool) → (a || true) ≡ true
or_true a = ground arith

Known-self : (l : List Index) → All (Known l) l
Known-self [] = tt
Known-self (x ∷ xs) = (
  has_name-cons x.name x xs ∙ rw (==_refl x.name) refl,
  All-weaken (Known xs) (Known (x ∷ xs)) xs
      (λ i h. has_name-cons i.name x xs ∙ rw h (or_true (x.name == i.name))) (Known-self xs),
)

-- Filtering keeps what holds of all.
still_exist-All : (P : Index → Type 0) (to l : List Index) → All P l → All P (still_exist to l)
unfolding still_exist
still_exist-All P to [] h = tt
still_exist-All P to (i ∷ l) h = elim (Bool-cases (has_name index_name i.name to)) [
  | inl e ↦ rw e (h.0, still_exist-All P to l h.1)
  | inr e ↦ rw e (still_exist-All P to l h.1)
]

still_exist-Known : (to l : List Index) → All (Known to) (still_exist to l)
unfolding still_exist
still_exist-Known to [] = tt
still_exist-Known to (i ∷ l) = elim (Bool-cases (has_name index_name i.name to)) [
  | inl e ↦ rw e (e, still_exist-Known to l)
  | inr e ↦ rw e (still_exist-Known to l)
]

still_exist-Distinct : (to l : List Index) → Distinct l → Distinct (still_exist to l)
unfolding still_exist
still_exist-Distinct to [] d = tt
still_exist-Distinct to (i ∷ l) d = elim (Bool-cases (has_name index_name i.name to)) [
  | inl e ↦
      rw e
        (still_exist-All (λ x. (x.name == i.name) ≡ false) to l d.0, still_exist-Distinct to l d.1)
  | inr e ↦ rw e (still_exist-Distinct to l d.1)
]

still_exist-Pending :
    (to from l : List Index) → All (Known from) l → All (Known to) l → All (Pending to from) l
unfolding pending
still_exist-Pending to from [] f t = tt
still_exist-Pending to from (i ∷ l) f t =
    (rw (t.0, f.0) refl, still_exist-Pending to from l f.1 t.1)

unknown_apart :
    (to : List Index) (i x : Index)
    → has_name index_name x.name to ≡ false
    → Known to i
    → (i.name == x.name) ≡ false
unknown_apart to i x new known = elim (Bool-cases (i.name == x.name)) [
  | inl e ↦
      let same = subst (λ n. has_name index_name n to ≡ true) (eq_of_== i.name x.name e) known in
      absurd (cc)
  | inr e ↦ e
]

-- A name of the new table is searched for among the indexes that stay.
still_exist-search :
    (to : List Index) (t : Index) (l : List Index)
    → Known to t
    → find_named index_name t.name l ≡ find_named index_name t.name (still_exist to l)
unfolding still_exist find_named
still_exist-search to t [] known = refl
still_exist-search to t (x ∷ xs) known = elim (Bool-cases (has_name index_name x.name to)) [
  | inl e ↦
      let step : (if has_name index_name x.name to
            then x ∷ still_exist to xs
            else still_exist to xs)
          ≡ x ∷ still_exist to xs =
        rw e refl in
      subst (λ l. find_named index_name t.name (x ∷ xs) ≡ find_named index_name t.name l) (sym step)
        (ap
          (λ o. elim o as (λ y. Option Index) [
            | some y ↦ some y
            | none ↦ if x.name == t.name then some x else none
          ])
          (still_exist-search to t xs known))
  | inr e ↦
      let step : (if has_name index_name x.name to
            then x ∷ still_exist to xs
            else still_exist to xs)
          ≡ still_exist to xs =
        rw e refl in
      subst (λ l. find_named index_name t.name (x ∷ xs) ≡ find_named index_name t.name l) (sym step)
        (find_named-other t.name x xs (differ_sym t.name x.name (unknown_apart to t x e known))
          ∙ still_exist-search to t xs known)
]

remove_named-append :
    (key : Text) (l m : List Index)
    → remove_named key (l ++ m) ≡ remove_named key l ++ remove_named key m
unfolding remove_named
remove_named-append key [] m = refl
remove_named-append key (i ∷ l) m = elim (Bool-cases (i.name == key)) [
  | inl e ↦ simp (e, remove_named-append key l m)
  | inr e ↦ simp (e, remove_named-append key l m)
]

remove_named-Fresh : (key : Text) (l : List Index) → Fresh key l → remove_named key l ≡ l
unfolding remove_named
remove_named-Fresh key [] h = refl
remove_named-Fresh key (i ∷ l) h = rw h.0 (ap (◌∷◌ i) (remove_named-Fresh key l h.1))

remove_named-head : (x : Index) (l : List Index) → Fresh x.name l → remove_named x.name (x ∷ l) ≡ l
unfolding remove_named
remove_named-head x l h = rw (==_refl x.name) (remove_named-Fresh x.name l h)

-- The drops leave the indexes that the new table has too.
replay_drops :
    (to pre l : List Index)
    → All (Known to) pre
    → Distinct l
    → apply_indexes (index_drops to l) (pre ++ l) ≡ pre ++ still_exist to l
unfolding apply_indexes apply_index index_drops still_exist
replay_drops to pre [] known d = refl
replay_drops to pre (x ∷ l) known d = elim (Bool-cases (has_name index_name x.name to)) [
  | inl e ↦ rw e (
      ap (apply_indexes (index_drops to l)) (sym (append_assoc pre (x ∷ []) l))
      ∙ replay_drops to (pre ++ x ∷ []) l (All-append (Known to) pre (x ∷ []) known (e, tt)) d.1
      ∙ append_assoc pre (x ∷ []) (still_exist to l))
  | inr e ↦
      let fresh =
        All-weaken (Known to) (λ i. (i.name == x.name) ≡ false) pre
          (λ i h. unknown_apart to i x e h) known in
      rw e (
        ap (apply_indexes (index_drops to l)) (
          remove_named-append x.name pre (x ∷ l)
          ∙ rw (remove_named-Fresh x.name pre fresh, remove_named-head x l d.0) refl)
        ∙ replay_drops to pre l known d.1)
]

-- Table.Diff on secondary indexes, whose names are distinct on either side: carrying out the
-- clauses one after the other on the old indexes, where a new index goes to the end and an altered
-- one keeps its place, gives the new indexes, in their order and with their definitions.
pub secondary_index_clauses_replay :
    (from to : List Index)
    → Distinct from
    → Distinct to
    → apply_indexes (secondary_index_clauses from to) from ≡ to
unfolding secondary_index_clauses
secondary_index_clauses_replay from to df dt =
    apply_indexes-append (index_drops to from) (index_loop from (still_exist to from) false to) from
    ∙ ap (apply_indexes (index_loop from (still_exist to from) false to))
        (replay_drops to [] from tt df)
    ∙ replay_in_place from [] (still_exist to from) to (record {
      distinct = dt;
      distinct_still = still_exist-Distinct to from df;
      waiting =
          still_exist-Pending to from (still_exist to from)
            (still_exist-All (Known from) to from (Known-self from)) (still_exist-Known to from);
      ready = tt;
      search =
          All-weaken (Known to) (SameSearch from (still_exist to from)) to
            (λ t known. still_exist-search to t from known) (Known-self to);
    })
