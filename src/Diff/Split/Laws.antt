-- ===== src/Diff/Split/Laws.antt =====
-- Splitting a table diff loses no clause, and puts apart what must not stand in one ALTER TABLE.
use mathlib.Core.List.{Perm, perm_middle, append-nil}
use mathlib.Core.List.Perm
use mathlib.Core.Path.{subst}
use skeema.Prelude.{
  ℕ, suc, ◌≤◌, Bool, true, false, not, ◌&&◌, ◌||◌, List, [], ◌∷◌, ◌++◌, map, ◌≡◌, refl, sym, ap,
  Option, none, some, arith, All, Bool-cases, inl, inr, if◌then◌else◌,
}
use skeema.Clause.{TableAlterClause}
use skeema.Diff.{AlterTable}
use skeema.Diff.Split.{
  is_add_foreign_key, keep_if, split_add_foreign_keys, split_clauses, with_clauses, is_add_fulltext,
  split_fulltext, split_conflicts, no_clauses,
}

-- The clauses of a diff that may be nil.
abbrev pub clauses_of : Option AlterTable → List TableAlterClause
clauses_of none = []
clauses_of (some td) = td.alter_clauses

module _ (test : TableAlterClause → Bool) where
  keep_if-All : (cs : List TableAlterClause) → All (λ c. test c ≡ true) (keep_if test cs)
  unfolding keep_if
  keep_if-All [] = tt
  keep_if-All (c ∷ cs) = elim (Bool-cases (test c)) [
    | inl yes' ↦ rw yes' (yes', keep_if-All cs)
    | inr no' ↦ rw no' (keep_if-All cs)
  ]

keep_if-Perm :
    (test : TableAlterClause → Bool) (cs : List TableAlterClause)
    → Perm (keep_if (λ c. not (test c)) cs ++ keep_if test cs) cs
unfolding keep_if
keep_if-Perm test [] = Perm.refl []
keep_if-Perm test (c ∷ cs) = elim (Bool-cases (test c)) [
  | inl yes' ↦ rw yes' (
      Perm.trans (perm_middle (keep_if (λ d. not (test d)) cs) (keep_if test cs))
        (Perm.cons c (keep_if-Perm test cs)))
  | inr no' ↦ rw no' (Perm.cons c (keep_if-Perm test cs))
]

keep_if-everything :
    (test : TableAlterClause → Bool) (cs : List TableAlterClause)
    → keep_if test cs ≡ []
    → cs ≡ keep_if (λ c. not (test c)) cs
unfolding keep_if
keep_if-everything test [] p = refl
keep_if-everything test (c ∷ cs) p = ground (arith, keep_if-everything test cs)

keep_if-every_other :
    (test : TableAlterClause → Bool) (cs : List TableAlterClause)
    → keep_if (λ c. not (test c)) cs ≡ []
    → cs ≡ keep_if test cs
unfolding keep_if
keep_if-every_other test [] p = refl
keep_if-every_other test (c ∷ cs) p = ground (arith, keep_if-every_other test cs)

-- Whichever result is nil, the clauses of the two results are the two slices.
split_clauses-parts :
    (td : AlterTable) (others fks : List TableAlterClause)
    → (fks ≡ [] → td.alter_clauses ≡ others)
    → (others ≡ [] → td.alter_clauses ≡ fks)
    → (clauses_of (split_clauses td others fks).0 ≡ others)
      × (clauses_of (split_clauses td others fks).1 ≡ fks)
unfolding split_clauses
split_clauses-parts td others [] p q = (p refl, refl)
split_clauses-parts td [] (fk ∷ fks) p q = (refl, q refl)
split_clauses-parts td (c ∷ cs) (fk ∷ fks) p q = (refl, refl)

abbrev pub AddsForeignKey : TableAlterClause → Type 0
AddsForeignKey c = is_add_foreign_key c ≡ true

abbrev pub AddsNoForeignKey : TableAlterClause → Type 0
AddsNoForeignKey c = not (is_add_foreign_key c) ≡ true

split_add_foreign_keys-parts :
    (td : AlterTable)
    → td.supported ≡ true
    → (clauses_of (split_add_foreign_keys td).0
        ≡ keep_if (λ c. not (is_add_foreign_key c)) td.alter_clauses)
      × (clauses_of (split_add_foreign_keys td).1 ≡ keep_if is_add_foreign_key td.alter_clauses)
unfolding split_add_foreign_keys
split_add_foreign_keys-parts td s =
    let others = keep_if (λ c. not (is_add_foreign_key c)) td.alter_clauses in
    let fks = keep_if is_add_foreign_key td.alter_clauses in
    let parts =
      split_clauses-parts td others fks (keep_if-everything is_add_foreign_key td.alter_clauses)
        (keep_if-every_other is_add_foreign_key td.alter_clauses) in
    subst
      (λ b.
        let r = if not b then (some td, none) else split_clauses td others fks in
        (clauses_of r.0 ≡ others) × (clauses_of r.1 ≡ fks))
      (sym s) parts

-- SplitAddForeignKeys, on a supported diff: the first result adds no foreign key, the second does
-- nothing else, and the two together hold exactly the clauses of the diff.
pub split_add_foreign_keys_separates :
    (td : AlterTable)
    → td.supported ≡ true
    → All AddsNoForeignKey (clauses_of (split_add_foreign_keys td).0)
      × All AddsForeignKey (clauses_of (split_add_foreign_keys td).1)
      × Perm
          (clauses_of (split_add_foreign_keys td).0 ++ clauses_of (split_add_foreign_keys td).1)
          td.alter_clauses
split_add_foreign_keys_separates td s =
    let parts = split_add_foreign_keys-parts td s in
    (
      subst (All AddsNoForeignKey) (sym parts.0)
          (keep_if-All (λ c. not (is_add_foreign_key c)) td.alter_clauses),
      subst (All AddsForeignKey) (sym parts.1) (keep_if-All is_add_foreign_key td.alter_clauses),
      rw (parts.0, parts.1) (keep_if-Perm is_add_foreign_key td.alter_clauses),
    )

-- How many clauses add a FULLTEXT index.
pub fulltext_count : List TableAlterClause → ℕ
fulltext_count [] = 0
fulltext_count (c ∷ cs) =
    let rest = fulltext_count cs in if is_add_fulltext c then suc rest else rest

abbrev pub OneFulltext : AlterTable → Type 0
OneFulltext td = fulltext_count td.alter_clauses ≤ 1

abbrev room : Bool → ℕ
room seen = if seen then 0 else 1

split_fulltext-count :
    (seen : Bool) (cs : List TableAlterClause)
    → fulltext_count (split_fulltext seen cs).0 ≤ room seen
unfolding split_fulltext fulltext_count
split_fulltext-count seen [] = ground arith
split_fulltext-count false (c ∷ cs) =
    ground (arith, split_fulltext-count true cs, split_fulltext-count false cs)
split_fulltext-count true (c ∷ cs) = ground (arith, split_fulltext-count true cs)

split_fulltext-Perm :
    (seen : Bool) (cs : List TableAlterClause)
    → Perm ((split_fulltext seen cs).0 ++ (split_fulltext seen cs).1) cs
unfolding split_fulltext
split_fulltext-Perm seen [] = Perm.refl []
split_fulltext-Perm seen (c ∷ cs) =
    let next = seen || is_add_fulltext c in
    elim (Bool-cases (is_add_fulltext c && seen)) [
      | inl yes' ↦ rw yes' (
          Perm.trans (perm_middle (split_fulltext next cs).0 (split_fulltext next cs).1)
            (Perm.cons c (split_fulltext-Perm next cs)))
      | inr no' ↦ rw no' (Perm.cons c (split_fulltext-Perm next cs))
    ]

-- The clauses of several diffs, one after the other.
pub all_clauses : List AlterTable → List TableAlterClause
all_clauses [] = []
all_clauses (td ∷ tds) = td.alter_clauses ++ all_clauses tds

alone-clauses :
    (td : AlterTable) (cs : List TableAlterClause)
    → all_clauses (map (λ c. with_clauses td (c ∷ [])) cs) ≡ cs
unfolding all_clauses
alone-clauses td [] = refl
alone-clauses td (c ∷ cs) = ap (◌∷◌ c) (alone-clauses td cs)

alone-fulltext :
    (td : AlterTable) (cs : List TableAlterClause)
    → All OneFulltext (map (λ c. with_clauses td (c ∷ [])) cs)
unfolding fulltext_count
alone-fulltext td [] = tt
alone-fulltext td (c ∷ cs) = (ground arith, alone-fulltext td cs)

abbrev SplitsFulltext : List AlterTable → List TableAlterClause → Type 0
SplitsFulltext tds clauses = All OneFulltext tds × Perm (all_clauses tds) clauses

whole-SplitsFulltext :
    (td : AlterTable) → td.alter_clauses ≡ [] → SplitsFulltext (td ∷ []) td.alter_clauses
unfolding fulltext_count all_clauses
whole-SplitsFulltext td e = ((rw e (omega arith), tt), rw append-nil (Perm.refl td.alter_clauses))

pub split_conflicts-split :
    (td : AlterTable)
    → td.supported ≡ true
    → no_clauses td.alter_clauses ≡ false
    → split_conflicts (some td)
      ≡ with_clauses td (split_fulltext false td.alter_clauses).0
        ∷ map (λ c. with_clauses td (c ∷ [])) (split_fulltext false td.alter_clauses).1
unfolding split_conflicts
split_conflicts-split td s p = simp (s, p)

pub split_conflicts-whole :
    (td : AlterTable) → no_clauses td.alter_clauses ≡ true → split_conflicts (some td) ≡ td ∷ []
unfolding split_conflicts
split_conflicts-whole td p = elim (Bool-cases td.supported) [
  | inl yes' ↦ simp (yes', p)
  | inr no' ↦ simp (no', p)
]

split_clause_list :
    (td : AlterTable) (cs : List TableAlterClause)
    → td.alter_clauses ≡ cs
    → td.supported ≡ true
    → SplitsFulltext (split_conflicts (some td)) td.alter_clauses
unfolding no_clauses all_clauses
split_clause_list td [] e s =
    subst (λ tds. SplitsFulltext tds td.alter_clauses) (sym (split_conflicts-whole td (rw e refl)))
      (whole-SplitsFulltext td e)
split_clause_list td (c ∷ cs) e s =
    let (keep, separate) = split_fulltext false td.alter_clauses in
    subst (λ tds. SplitsFulltext tds td.alter_clauses)
      (sym (split_conflicts-split td s (rw e refl)))
      (
        (split_fulltext-count false td.alter_clauses, alone-fulltext td separate),
        subst (λ xs. Perm (keep ++ xs) td.alter_clauses) (sym (alone-clauses td separate))
            (split_fulltext-Perm false td.alter_clauses),
      )

-- SplitConflicts, on a supported diff: no resulting ALTER TABLE adds more than one FULLTEXT index,
-- and together they hold exactly the clauses of the diff.
pub split_conflicts_separates :
    (td : AlterTable)
    → td.supported ≡ true
    → All OneFulltext (split_conflicts (some td))
      × Perm (all_clauses (split_conflicts (some td))) td.alter_clauses
split_conflicts_separates td s = split_clause_list td td.alter_clauses refl s

pub split_conflicts-unsupported :
    (td : AlterTable) → td.supported ≡ false → split_conflicts (some td) ≡ td ∷ []
unfolding split_conflicts
split_conflicts-unsupported td s = simp s

pub split_add_foreign_keys-unsupported :
    (td : AlterTable) → td.supported ≡ false → split_add_foreign_keys td ≡ (some td, none)
unfolding split_add_foreign_keys
split_add_foreign_keys-unsupported td s = simp s
