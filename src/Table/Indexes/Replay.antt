-- ===== src/Table/Indexes/Replay.antt =====
-- What the clauses on secondary indexes do to a table's list of them.
use mathlib.Core.Path.{subst}
use skeema.Prelude.{
  Bool, true, false, ◌&&◌, ◌||◌, List, [], ◌∷◌, ◌++◌, Option, none, some, Text, text_eq, bool_eq,
  ◌==◌, if◌then◌else◌, ◌≡◌, refl, sym, ap, ◌∙◌, inl, inr, arith, All, Bool-cases, ==_refl, eq_of_==,
}
use skeema.Objects.{Index}
use skeema.Clause.{TableAlterClause, add_index, drop_index, alter_index}
use skeema.Table.ByName.{find_named, has_name}
use skeema.Table.Indexes.{index_name}

unfoldable pub remove_named : Text → List Index → List Index
remove_named key [] = []
remove_named key (i ∷ is) =
    let rest = remove_named key is in if i.name == key then rest else i ∷ rest

unfoldable pub set_invisible : Text → Bool → List Index → List Index
set_invisible key invisible [] = []
set_invisible key invisible (i ∷ is) =
    let rest = set_invisible key invisible is in
    if i.name == key then record i { invisible = invisible } ∷ rest else i ∷ rest

-- A new index stands last; an altered one keeps its place.
unfoldable pub apply_index : TableAlterClause → List Index → List Index
apply_index (add_index index reorder_only) l = l ++ index ∷ []
apply_index (drop_index index reorder_only) l = remove_named index.name l
apply_index (alter_index index invisible also_reordering) l = set_invisible index.name invisible l
apply_index _ l = l

unfoldable pub apply_indexes : List TableAlterClause → List Index → List Index
apply_indexes [] l = l
apply_indexes (c ∷ cs) l = apply_indexes cs (apply_index c l)

pub apply_indexes-append :
    (cs ds : List TableAlterClause) (l : List Index)
    → apply_indexes (cs ++ ds) l ≡ apply_indexes ds (apply_indexes cs l)
unfolding apply_indexes
apply_indexes-append [] ds l = refl
apply_indexes-append (c ∷ cs) ds l = apply_indexes-append cs ds (apply_index c l)

-- No index of the list has the name.
abbrev pub Fresh : Text → List Index → Type 0
Fresh key is = All (λ i. (i.name == key) ≡ false) is

-- No two indexes of the list have the same name.
abbrev pub Distinct : List Index → Type 0
Distinct [] = Unit
Distinct (i ∷ is) = Fresh i.name is × Distinct is

-- An index that the loop has still to come to, and that was there before.
unfoldable pub pending : List Index → List Index → Index → Bool
pending tos from i = has_name index_name i.name tos && has_name index_name i.name from

-- What is in place once the pending indexes are left out.
unfoldable pub settled : List Index → List Index → List Index → List Index
settled tos from [] = []
settled tos from (i ∷ is) =
    let rest = settled tos from is in if pending tos from i then rest else i ∷ rest

pub settled-append :
    (tos from l m : List Index)
    → settled tos from (l ++ m) ≡ settled tos from l ++ settled tos from m
unfolding settled
settled-append tos from [] m = refl
settled-append tos from (i ∷ l) m = elim (Bool-cases (pending tos from i)) [
  | inl p ↦ simp (p, settled-append tos from l m)
  | inr p ↦ simp (p, settled-append tos from l m)
]

pub settled-nothing : (from l : List Index) → settled [] from l ≡ l
unfolding settled pending has_name
settled-nothing from [] = refl
settled-nothing from (i ∷ l) = ap (◌∷◌ i) (settled-nothing from l)

found_step :
    (o : Option Index) (b : Bool) (t : Index)
    → ◌≡◌ {A = Bool}
        (elim (elim o as (λ x. Option Index) [
          | some y ↦ some y
          | none ↦ if b then some t else none
        ])
          as (λ x. Bool) [ none ↦ false | some y ↦ true ])
        (b || elim o as (λ x. Bool) [ none ↦ false | some y ↦ true ])
found_step none true t = refl
found_step none false t = refl
found_step (some y) true t = refl
found_step (some y) false t = refl

-- A name looked up in a longer list.
pub has_name-cons :
    (key : Text) (t : Index) (ts : List Index)
    → has_name index_name key (t ∷ ts) ≡ ((t.name == key) || has_name index_name key ts)
unfolding has_name find_named
has_name-cons key t ts = found_step (find_named index_name key ts) (t.name == key) t

pub differ_sym : (a b : Text) → (a == b) ≡ false → (b == a) ≡ false
differ_sym a b h = elim (Bool-cases (b == a)) [
  | inl e ↦
      let same : a ≡ b = sym (eq_of_== b a e) in
      let again : (a == b) ≡ true = subst (λ c. (a == c) ≡ true) same (==_refl a) in absurd (cc)
  | inr e ↦ e
]

pub Fresh-has_name :
    (key : Text) (is : List Index) → Fresh key is → has_name index_name key is ≡ false
unfolding has_name find_named
Fresh-has_name key [] h = refl
Fresh-has_name key (i ∷ is) h = has_name-cons key i is ∙ rw (h.0, Fresh-has_name key is h.1) refl

-- An index whose name is nowhere in the list leaves the search for another as it was.
pub pending-other :
    (t : Index) (ts from : List Index) (i : Index)
    → (t.name == i.name) ≡ false
    → pending (t ∷ ts) from i ≡ pending ts from i
unfolding pending
pending-other t ts from i e = rw (has_name-cons i.name t ts, e) refl

both_false : (a b : Bool) → (a && false) ≡ (b && false)
both_false a b = ground arith

-- A name that `from` lacks is never pending.
pending-new :
    (t : Index) (ts from : List Index) (i : Index)
    → has_name index_name t.name from ≡ false
    → pending (t ∷ ts) from i ≡ pending ts from i
unfolding pending
pending-new t ts from i new = elim (Bool-cases (t.name == i.name)) [
  | inl e ↦
      let same : t.name ≡ i.name = eq_of_== t.name i.name e in
      let gone : has_name index_name i.name from ≡ false =
        subst (λ n. has_name index_name n from ≡ false) same new in
      rw gone (both_false (has_name index_name i.name (t ∷ ts)) (has_name index_name i.name ts))
  | inr e ↦ pending-other t ts from i e
]

pub settled-new :
    (t : Index) (ts from l : List Index)
    → has_name index_name t.name from ≡ false
    → settled ts from l ≡ settled (t ∷ ts) from l
unfolding settled
settled-new t ts from [] new = refl
settled-new t ts from (i ∷ l) new =
    rw (pending-new t ts from i new, settled-new t ts from l new) refl

pub pending_now :
    (t : Index) (ts from : List Index) (i : Index)
    → has_name index_name t.name from ≡ true
    → (i.name == t.name) ≡ true
    → pending (t ∷ ts) from i ≡ true
unfolding pending
pending_now t ts from i old e =
    let same : t.name ≡ i.name = sym (eq_of_== i.name t.name e) in
    let there : has_name index_name i.name from ≡ true =
      subst (λ n. has_name index_name n from ≡ true) same old in
    let first : (t.name == i.name) ≡ true =
      subst (λ n. (t.name == n) ≡ true) same (==_refl t.name) in
    rw (has_name-cons i.name t ts, first, there) refl

-- Removing the index that the loop comes to leaves what is settled.
pub settled-remove :
    (t : Index) (ts from l : List Index)
    → has_name index_name t.name from ≡ true
    → settled ts from (remove_named t.name l) ≡ settled (t ∷ ts) from l
unfolding settled remove_named
settled-remove t ts from [] old = refl
settled-remove t ts from (i ∷ l) old = elim (Bool-cases (i.name == t.name)) [
  | inl e ↦ simp (e, pending_now t ts from i old e, settled-remove t ts from l old)
  | inr e ↦
      simp
        (e, pending-other t ts from i (differ_sym i.name t.name e), settled-remove t ts from l old)
]

pub settled-one :
    (t : Index) (ts from : List Index) → Fresh t.name ts → settled ts from (t ∷ []) ≡ t ∷ []
unfolding settled pending
settled-one t ts from fresh = simp (Fresh-has_name t.name ts fresh)
