-- ===== src/Linter/DupeIndex/Complete.antt =====
-- Which redundant indexes dupeIndexChecker finds, and which it misses.
use skeema.Prelude.{
  ℕ, zero, suc, ◌+◌, ◌≤◌, Bool, true, false, not, ◌&&◌, ◌||◌, List, [], ◌∷◌, ◌++◌, Option, none,
  some, if◌then◌else◌, ltb, nat_beq, get_elem?, txt, ◌≡◌, ◌≢◌, refl, ap, sym, ◌∙◌, arith,
  Bool-cases, inl, inr,
}
use skeema.Objects.{Index, Table}
use skeema.Objects.Compare.{index_equivalent}
use skeema.Objects.Redundant.{redundant_to, Alike, index_equivalent-Alike, redundant_to-Alike}
use skeema.Linter.DupeIndex.{
  DupeNote, first_redundant, notes_of, redundant_to_key, index_notes, notes_from,
  dupe_index_checker,
}

-- Every index of the list is a visible secondary one.
abbrev pub AllVisible : List Index → Type 0
AllVisible [] = Unit
AllVisible (a ∷ as') = ((a.primary_key ≡ false) × (a.invisible ≡ false)) × AllVisible as'

some_injective {ℓ} : {A : Type ℓ} {a b : A} → some a ≡ some b → a ≡ b
some_injective e = cc

visible_at :
    (all : List Index) (i : ℕ) {a : Index}
    → AllVisible all
    → get_elem? all i ≡ some a
    → (a.primary_key ≡ false) × (a.invisible ≡ false)
visible_at [] i v e = cc
visible_at (b ∷ all) zero v e =
    let same = some_injective e in
    (
      sym (ap (λ (x : Index). x.primary_key) same) ∙ v.0.0,
      sym (ap (λ (x : Index). x.invisible) same) ∙ v.0.1,
    )
visible_at (b ∷ all) (suc i) v e = visible_at all i v.1 e

append_nil-left : (a b : List DupeNote) → a ++ b ≡ [] → (a ≡ []) × (b ≡ [])
append_nil-left [] b e = (refl, e)
append_nil-left (n ∷ a) b e = cc

notes_from-nil :
    (key : Option Index) (all rest : List Index) (n k : ℕ) {a : Index}
    → notes_from key all n rest ≡ []
    → get_elem? rest k ≡ some a
    → index_notes key all (n + k) a ≡ []
unfolding notes_from
notes_from-nil key all [] n k none' e = cc
notes_from-nil key all (b ∷ rest) n zero none' e =
    let here = append_nil-left (index_notes key all n b) (notes_from key all (n + 1) rest) none' in
    let at : n ≡ n + 0 = omega arith in
    sym (λ i. index_notes key all (at i) (some_injective e i)) ∙ here.0
notes_from-nil key all (b ∷ rest) n (suc k) none' e =
    let later = append_nil-left (index_notes key all n b) (notes_from key all (n + 1) rest) none' in
    let at : (n + 1) + k ≡ n + suc k = omega arith in
    rw⁻¹ at (notes_from-nil key all rest (n + 1) k later.1 e)

if_nil :
    (b : Bool) (n : DupeNote) (x : List DupeNote)
    → (if b then n ∷ [] else x) ≡ []
    → (b ≡ false) × (x ≡ [])
if_nil true n x e = cc
if_nil false n x e = (refl, e)

index_notes-nil :
    (key : Option Index) (all : List Index) (i : ℕ) (a : Index)
    → index_notes key all i a ≡ []
    → (redundant_to_key a key ≡ false) × (notes_of i a (first_redundant i a 0 all) ≡ [])
unfolding index_notes
index_notes-nil key all i a none' =
    if_nil (redundant_to_key a key)
      (record { dupe_index_name = a.name; better_index_name = txt "PRIMARY"; equivalent = false })
      (notes_of i a (first_redundant i a 0 all)) none'

or_parts : (e l : Bool) → (not e || l) ≡ false → (e ≡ true) × (l ≡ false)
or_parts e l h = (ground arith, ground arith)

notes_of-nil :
    (i : ℕ) (a : Index) (m : ℕ) (o : Index)
    → notes_of i a (some (m, o)) ≡ []
    → (index_equivalent a o ≡ true) × (ltb m i ≡ false)
unfolding notes_of
notes_of-nil i a m o none' =
    let equivalent = index_equivalent a o in
    let quiet =
      (if_nil (not equivalent || ltb m i)
        (record { dupe_index_name = a.name; better_index_name = o.name; equivalent = equivalent })
        [] none').0 in
    or_parts equivalent (ltb m i) quiet

-- What the inner loop finds.
record Hit (i : ℕ) (a : Index) (j : ℕ) (others : List Index) (k : ℕ) : Type 0 where
  at : ℕ
  other : Index
  found : first_redundant i a j others ≡ some (j + at, other)
  place : get_elem? others at ≡ some other
  first : at ≤ k
  apart : i ≢ j + at
  redundant : redundant_to a other ≡ true

not_same : (i j : ℕ) (r : Bool) → (not (nat_beq i j) && r) ≡ true → (i ≢ j) × (r ≡ true)
not_same i j r h = (λ e. ground arith, ground arith)

not_hit : (i j : ℕ) (r : Bool) → i ≢ j → r ≡ true → (not (nat_beq i j) && r) ≡ true
not_hit i j r ne red = ground arith

first_redundant-Hit :
    (i : ℕ) (a : Index) (j : ℕ) (others : List Index) (k : ℕ) {b : Index}
    → get_elem? others k ≡ some b
    → i ≢ j + k
    → redundant_to a b ≡ true
    → Hit i a j others k
unfolding first_redundant
first_redundant-Hit i a j [] k e ne red = cc
first_redundant-Hit i a j (o ∷ others) zero e ne red =
    let at : j + 0 ≡ j = omega arith in
    let same = some_injective e in
    let hits = ap (redundant_to a) same ∙ red in
    let here = not_hit i j (redundant_to a o) (λ e'. ne (e' ∙ sym at)) hits in
    record {
      at = 0;
      other = o;
      found = simp (here, at);
      place = refl;
      first = omega arith;
      apart = ne;
      redundant = hits;
    }
first_redundant-Hit i a j (o ∷ others) (suc k) {b} e ne red =
    elim (Bool-cases (not (nat_beq i j) && redundant_to a o)) [
      | inl here ↦
          let at : j + 0 ≡ j = omega arith in
          let hit = not_same i j (redundant_to a o) here in
          record {
            at = 0;
            other = o;
            found = simp (here, at);
            place = refl;
            first = omega arith;
            apart = λ e'. hit.0 (e' ∙ at);
            redundant = hit.1;
          }
      | inr later ↦
          let shift : j + suc k ≡ (j + 1) + k = omega arith in
          let rest = first_redundant-Hit i a (j + 1) others k e (λ e'. ne (e' ∙ sym shift)) red in
          let at : (j + 1) + rest.at ≡ j + suc rest.at = omega arith in
          record {
            at = suc rest.at;
            other = rest.other;
            found = simp (later) (rest.found ∙ ap (λ (n : ℕ). some (n, rest.other)) at);
            place = rest.place;
            first = omega (arith, rest.first);
            apart = λ e'. rest.apart (e' ∙ sym at);
            redundant = rest.redundant;
          }
    ]

Alike-sym : {a b : Index} → Alike a b → Alike b a
Alike-sym alike = record {
  primary = sym alike.primary;
  unique = sym alike.unique;
  type = sym alike.type;
  parser = sym alike.parser;
  parts = sym alike.parts;
}

visible_both : (a b : Bool) → b ≡ false → (not a && b) ≡ false
visible_both a b h = ground arith

ordered : (i m n : ℕ) → i ≢ m → ltb m i ≡ false → n ≤ i → ltb n m ≡ false → ⊥
ordered i m n ne h le h' = ground arith

zero_plus : (n : ℕ) → 0 + n ≡ n
zero_plus n = omega arith

-- No note at all: then none of the index at a place.
quiet_at :
    (key : Option Index) (all : List Index) (i : ℕ) {a : Index}
    → notes_from key all 0 all ≡ []
    → get_elem? all i ≡ some a
    → (redundant_to_key a key ≡ false) × (notes_of i a (first_redundant i a 0 all) ≡ [])
quiet_at key all i {a} none' e = index_notes-nil key all i a (
    sym (ap (λ (n : ℕ). index_notes key all n a) (zero_plus i))
    ∙ notes_from-nil key all all 0 i none' e)

-- Two of the indexes, one redundant to the other, get a note.
no_pair :
    (key : Option Index) (all : List Index) (i j : ℕ) {a b : Index}
    → AllVisible all
    → notes_from key all 0 all ≡ []
    → get_elem? all i ≡ some a
    → get_elem? all j ≡ some b
    → i ≢ j
    → redundant_to a b ≡ true
    → ⊥
no_pair key all i j {a} {b} visible none' ei ej ne red =
    let hit = first_redundant-Hit i a 0 all j ej (λ e. ne (e ∙ zero_plus j)) red in
    let found = hit.found ∙ ap (λ (n : ℕ). some (n, hit.other)) (zero_plus hit.at) in
    let apart = λ (e : i ≡ hit.at). hit.apart (e ∙ sym (zero_plus hit.at)) in
    let pair =
      notes_of-nil i a hit.at hit.other
        (sym (ap (notes_of i a) found) ∙ (quiet_at key all i none' ei).1) in
    let alike = index_equivalent-Alike a hit.other pair.0 in
    let seen = visible_at all i visible ei in
    let back =
      redundant_to-Alike hit.other a (visible_at all hit.at visible hit.place).0 (Alike-sym alike)
        (visible_both hit.other.invisible a.invisible seen.1) in
    let hit' =
      first_redundant-Hit hit.at hit.other 0 all i ei (λ e. apart (sym (e ∙ zero_plus i))) back in
    let found' = hit'.found ∙ ap (λ (n : ℕ). some (n, hit'.other)) (zero_plus hit'.at) in
    let pair' =
      notes_of-nil hit.at hit.other hit'.at hit'.other (
        sym (ap (notes_of hit.at hit.other) found')
        ∙ (quiet_at key all hit.at none' hit.place).1) in
    ordered i hit.at hit'.at apart pair.1 hit'.first pair'.1

-- Whether the index at i is redundant to one of the list at another place j, if there is one.
unfoldable pub redundant_at : ℕ → Index → ℕ → Option Index → Bool
redundant_at i a j none = false
redundant_at i a j (some b) = not (nat_beq i j) && redundant_to a b

not_redundant_at :
    (t : Table) (i j : ℕ) (a : Index) (o : Option Index)
    → AllVisible t.secondary_indexes
    → notes_from t.primary_key t.secondary_indexes 0 t.secondary_indexes ≡ []
    → get_elem? t.secondary_indexes i ≡ some a
    → get_elem? t.secondary_indexes j ≡ o
    → redundant_at i a j o ≡ false
unfolding redundant_at
not_redundant_at t i j a none visible none' ei ej = refl
not_redundant_at t i j a (some b) visible none' ei ej =
    elim (Bool-cases (not (nat_beq i j) && redundant_to a b)) [
      | inr fine ↦ fine
      | inl red ↦
          let hit = not_same i j (redundant_to a b) red in
          absurd (no_pair t.primary_key t.secondary_indexes i j visible none' ei ej hit.0 hit.1)
    ]

-- dupeIndexChecker, for a table whose secondary indexes are all visible: if it gives no note, then
-- each of these indexes, be it the only one or not, is not redundant to the primary key, and at no
-- other place of the list is there one that it is redundant to.
pub dupe_index_checker_finds_redundant :
    (t : Table) (i j : ℕ) {a : Index}
    → AllVisible t.secondary_indexes
    → dupe_index_checker t ≡ []
    → get_elem? t.secondary_indexes i ≡ some a
    → (redundant_to_key a t.primary_key ≡ false)
      × (redundant_at i a j (get_elem? t.secondary_indexes j) ≡ false)
unfolding dupe_index_checker
dupe_index_checker_finds_redundant t i j {a} visible none' ei = (
  (quiet_at t.primary_key t.secondary_indexes i none' ei).0,
  not_redundant_at t i j a (get_elem? t.secondary_indexes j) visible none' ei refl,
)

hidden-redundant :
    (a b : Index) → a.invisible ≡ false → b.invisible ≡ true → redundant_to a b ≡ false
unfolding redundant_to
hidden-redundant a b shown hidden = ground arith

missed_pair :
    (a b : Index)
    → redundant_to a b ≡ true
    → redundant_to b a ≡ false
    → index_equivalent a b ≡ true
    → notes_from none (a ∷ b ∷ []) 0 (a ∷ b ∷ []) ≡ []
unfolding notes_from index_notes first_redundant notes_of redundant_to_key
missed_pair a b red back same = simp (red, back, same)

-- dupeIndexChecker misses a pair: for a table without a primary key that has exactly two secondary
-- indexes, which are equivalent, the first one invisible and the second one not, the first is
-- redundant to the second, and no note is given.
pub dupe_index_checker_misses_invisible :
    (t : Table) (a b : Index)
    → t.primary_key ≡ none
    → t.secondary_indexes ≡ a ∷ b ∷ []
    → a.primary_key ≡ false
    → index_equivalent a b ≡ true
    → a.invisible ≡ true
    → b.invisible ≡ false
    → (redundant_to a b ≡ true) × (dupe_index_checker t ≡ [])
unfolding dupe_index_checker
dupe_index_checker_misses_invisible t a b key all secondary same hidden shown =
    let red =
      redundant_to-Alike a b secondary (index_equivalent-Alike a b same)
        (visible_both a.invisible b.invisible shown) in
    (
      red,
      (λ i. notes_from (key i) (all i) 0 (all i))
          ∙ missed_pair a b red (hidden-redundant b a shown hidden) same,
    )
