-- ===== src/Diff/Statement/Safety.antt =====
-- When the statement of an ALTER TABLE is refused as unsafe.
use skeema.Prelude.{
  Bool, true, false, not, ◌&&◌, ◌||◌, List, [], ◌∷◌, ◌++◌, ◌≡◌, refl, ◌∙◌, arith, Bool-cases, inl,
  inr, Text, text_eq, is_empty, if◌then◌else◌,
}
use skeema.Objects.{Table}
use skeema.Objects.Create.{alter_table_statement}
use skeema.Clause.{
  TableAlterClause, add_column, drop_column, add_index, drop_index, alter_index, add_foreign_key,
  drop_foreign_key, add_check, drop_check, alter_check, modify_column, change_auto_increment,
  change_char_set, change_create_options, change_comment, change_tablespace, change_storage_engine,
  partition_by, remove_partitioning, modify_partitions, StatementModifiers,
}
use skeema.Clause.Write.{clause_text}
use skeema.Clause.Unsafe.{clause_unsafe}
use skeema.Diff.{AlterTable, is_forbidden_diff}
use skeema.Diff.Statement.{
  Gathered, place_clause, gather_clause, gather, effective_modifiers, start_gathering, assemble,
  nothing_gathered, alter_statement,
}

-- Some clause of the list is unsafe.
pub any_unsafe : List TableAlterClause → Bool
any_unsafe [] = false
any_unsafe (c ∷ cs) = clause_unsafe c || any_unsafe cs

abbrev SameVerdict : Gathered → Gathered → Type 0
SameVerdict g h = (g.is_forbidden ≡ h.is_forbidden) × (g.mods.allow_unsafe ≡ h.mods.allow_unsafe)

place_clause-SameVerdict :
    (c : TableAlterClause) (s : Text) (g : Gathered) → SameVerdict (place_clause c s g) g
unfolding place_clause
place_clause-SameVerdict (add_column table column first after) s g = (refl, refl)
place_clause-SameVerdict (drop_column column) s g = (refl, refl)
place_clause-SameVerdict (add_index index reorder_only) s g = (refl, refl)
place_clause-SameVerdict (drop_index index reorder_only) s g = (refl, refl)
place_clause-SameVerdict (alter_index index invisible also_reordering) s g = (refl, refl)
place_clause-SameVerdict (add_foreign_key fk cosmetic_only) s g = (refl, refl)
place_clause-SameVerdict (drop_foreign_key fk cosmetic_only) s g = (refl, refl)
place_clause-SameVerdict (add_check check reorder_only) s g = (refl, refl)
place_clause-SameVerdict (drop_check check reorder_only) s g = (refl, refl)
place_clause-SameVerdict (alter_check check new_enforcement) s g = (refl, refl)
place_clause-SameVerdict (modify_column table old new first after) s g = (refl, refl)
place_clause-SameVerdict (change_auto_increment old new) s g = (refl, refl)
place_clause-SameVerdict (change_char_set a b c d) s g = (refl, refl)
place_clause-SameVerdict (change_create_options old new) s g = (refl, refl)
place_clause-SameVerdict (change_comment comment) s g = (refl, refl)
place_clause-SameVerdict (change_tablespace space) s g = (refl, refl)
place_clause-SameVerdict (change_storage_engine engine) s g = (refl, refl)
place_clause-SameVerdict (partition_by partitioning re_partition) s g = (refl, refl)
place_clause-SameVerdict remove_partitioning s g = (refl, refl)
place_clause-SameVerdict (modify_partitions add drop for_drop_table) s g = (refl, refl)

either-SameVerdict :
    (b : Bool) (g h : Gathered) → SameVerdict g h → SameVerdict (if b then g else h) h
either-SameVerdict true g h same = same
either-SameVerdict false g h same = (refl, refl)

abbrev judge : Bool → Gathered → Gathered
judge u g =
    if not g.is_forbidden && not g.mods.allow_unsafe && u
    then record g { is_forbidden = true }
    else g

judge-verdict :
    (u : Bool) (g : Gathered)
    → ((judge u g).is_forbidden ≡ (g.is_forbidden || (not g.mods.allow_unsafe && u)))
      × ((judge u g).mods.allow_unsafe ≡ g.mods.allow_unsafe)
judge-verdict u g = elim (Bool-cases g.is_forbidden) [
  | inl yes' ↦ (simp yes', simp yes')
  | inr no' ↦ elim (Bool-cases (not g.mods.allow_unsafe && u)) [
    | inl unsafe ↦ (simp (no', unsafe), simp (no', unsafe))
    | inr safe ↦ (simp (no', safe), simp (no', safe))
  ]
]

gather_clause-verdict :
    (c : TableAlterClause) (g : Gathered)
    → ((gather_clause c g).is_forbidden
        ≡ (g.is_forbidden || (not g.mods.allow_unsafe && clause_unsafe c)))
      × ((gather_clause c g).mods.allow_unsafe ≡ g.mods.allow_unsafe)
unfolding gather_clause
gather_clause-verdict c g =
    let s = clause_text c g.mods in
    let judged = judge (clause_unsafe c) g in
    let placed =
      either-SameVerdict (not (is_empty s)) (place_clause c s judged) judged
        (place_clause-SameVerdict c s judged) in
    let verdict = judge-verdict (clause_unsafe c) g in (placed.0 ∙ verdict.0, placed.1 ∙ verdict.1)

or_and_or : (f n u us : Bool) → ((f || (n && u)) || (n && us)) ≡ (f || (n && (u || us)))
or_and_or f n u us = ground arith

gather-verdict :
    (cs : List TableAlterClause) (g : Gathered)
    → (gather cs g).is_forbidden ≡ (g.is_forbidden || (not g.mods.allow_unsafe && any_unsafe cs))
unfolding gather any_unsafe
gather-verdict [] g = ground arith
gather-verdict (c ∷ cs) g =
    let step = gather_clause-verdict c g in
    gather-verdict cs (gather_clause c g)
    ∙ rw (step.0, step.1)
        (or_and_or g.is_forbidden (not g.mods.allow_unsafe) (clause_unsafe c) (any_unsafe cs))

effective_modifiers-allow_unsafe :
    (to : Table) (mods : StatementModifiers)
    → (effective_modifiers to mods).allow_unsafe ≡ mods.allow_unsafe
unfolding effective_modifiers
effective_modifiers-allow_unsafe to mods = ground arith

gathered-verdict :
    (td : AlterTable) (mods : StatementModifiers)
    → (gather td.alter_clauses (start_gathering (effective_modifiers td.to mods))).is_forbidden
      ≡ (not mods.allow_unsafe && any_unsafe td.alter_clauses)
gathered-verdict td mods =
    gather-verdict td.alter_clauses (start_gathering (effective_modifiers td.to mods))
    ∙ rw (effective_modifiers-allow_unsafe td.to mods) refl

alter_table_statement-nonempty :
    (t : Table) (s : Text) → is_empty (alter_table_statement t ++ s) ≡ false
unfolding alter_table_statement
alter_table_statement-nonempty t s = refl

assemble-nonempty : (td : AlterTable) (g : Gathered) → is_empty (assemble td g) ≡ false
unfolding assemble
assemble-nonempty td g = alter_table_statement-nonempty td.from _

-- TableDiff.alterStatement, on a supported diff: the error is a ForbiddenDiffError exactly when the
-- statement is not empty, unsafe statements are not allowed, and some clause of the diff is unsafe.
pub alter_statement_forbidden_iff_unsafe :
    (td : AlterTable) (mods : StatementModifiers)
    → td.supported ≡ true
    → is_forbidden_diff (alter_statement td mods).1 ≡ (
        not (is_empty (alter_statement td mods).0)
        && (not mods.allow_unsafe && any_unsafe td.alter_clauses))
unfolding alter_statement
alter_statement_forbidden_iff_unsafe td mods s =
    let g = gather td.alter_clauses (start_gathering (effective_modifiers td.to mods)) in
    let nonempty = assemble-nonempty td g in
    let verdict = gathered-verdict td mods in
    elim (Bool-cases (nothing_gathered g.strings g.partition_clause)) [
      | inl none' ↦ simp (s, none')
      | inr some' ↦ elim (Bool-cases (not mods.allow_unsafe && any_unsafe td.alter_clauses)) [
        | inl unsafe ↦ simp (s, some', verdict, unsafe, nonempty)
        | inr safe ↦ simp (s, some', verdict, safe, nonempty)
      ]
    ]
