-- ===== src/Objects/Redundant.antt =====
-- Index.RedundantTo of internal/tengo/index.go.
use skeema.Prelude.{
  ℕ, Bool, true, false, not, ◌&&◌, ◌||◌, List, [], ◌∷◌, Text, txt, text_eq, ◌==◌, ◌!=◌, bool_eq,
  if◌then◌else◌, length, ltb, nat_beq, ◌≡◌, refl, ap, sym, ◌∙◌, arith, Bool-cases, inl, inr,
  eq_of_==, ==_refl, both_true, and_false,
}
use skeema.Objects.{Index, IndexPart, index_part_eq}
use skeema.Objects.Compare.{same_parts, same_part_list, index_equivalent}

-- What the loop asks of a part and the part at its place.
unfoldable pub part_redundant : IndexPart → IndexPart → Bool
unfolding text_eq
part_redundant part other =
    not (
      part.column_name != other.column_name
      || part.expression != other.expression
      || part.descending != other.descending)
    && not (
        ltb 0 other.prefix_length
        && (nat_beq part.prefix_length 0 || ltb other.prefix_length part.prefix_length))

-- The loop; `other` has as many parts or more.
unfoldable pub parts_redundant : List IndexPart → List IndexPart → Bool
unfolding part_redundant
parts_redundant [] others = true
parts_redundant (p ∷ ps) [] = false
parts_redundant (p ∷ ps) (q ∷ qs) = part_redundant p q && parts_redundant ps qs

-- RedundantTo on indexes that are there.
unfoldable pub redundant_to : Index → Index → Bool
unfolding text_eq parts_redundant same_part_list
redundant_to idx other =
    if idx.primary_key
      || (idx.unique && not other.unique)
      || idx.type != other.type
      || idx.full_text_parser != other.full_text_parser
    then false
    else if not idx.invisible && other.invisible
    then false
    else if idx.unique && other.unique
    then same_parts idx other
    else if idx.type == txt "FULLTEXT" && not (nat_beq (length idx.parts) (length other.parts))
    then false
    else if ltb (length other.parts) (length idx.parts)
    then false
    else parts_redundant idx.parts other.parts

all_hold :
    (a b c d s : Bool)
    → (if a || b || c || d then false else s) ≡ true
    → (a ≡ false) × ((b ≡ false) × ((c ≡ false) × ((d ≡ false) × (s ≡ true))))
all_hold a b c d s h = (ground arith, (ground arith, (ground arith, (ground arith, ground arith))))

not_ne : (b : Bool) → not b ≡ false → b ≡ true
not_ne true h = refl
not_ne false h = cc

same_part_list-eq : (ps qs : List IndexPart) → same_part_list ps qs ≡ true → ps ≡ qs
unfolding same_part_list
same_part_list-eq [] [] h = refl
same_part_list-eq (p ∷ ps) (q ∷ qs) h =
    let both = both_true (p == q) (same_part_list ps qs) h in
    λ i. eq_of_== p q both.0 i ∷ same_part_list-eq ps qs both.1 i
same_part_list-eq [] (q ∷ qs) h = cc
same_part_list-eq (p ∷ ps) [] h = cc

part_redundant_self : (p : IndexPart) → part_redundant p p ≡ true
unfolding part_redundant
part_redundant_self p =
    ground (arith, ==_refl p.column_name, ==_refl p.expression, ==_refl p.descending)

parts_redundant_self : (ps : List IndexPart) → parts_redundant ps ps ≡ true
unfolding parts_redundant
parts_redundant_self [] = refl
parts_redundant_self (p ∷ ps) = simp (part_redundant_self p, parts_redundant_self ps)

nat_beq_self : (n : ℕ) → nat_beq n n ≡ true
nat_beq_self n = ground arith

not_ltb_self : (n : ℕ) → ltb n n ≡ false
not_ltb_self n = ground arith

-- What equivalent indexes have in common.
pub record Alike (a b : Index) : Type 0 where
  pub primary : a.primary_key ≡ b.primary_key
  pub unique : a.unique ≡ b.unique
  pub type : a.type ≡ b.type
  pub parser : a.full_text_parser ≡ b.full_text_parser
  pub parts : a.parts ≡ b.parts

pub index_equivalent-Alike : (a b : Index) → index_equivalent a b ≡ true → Alike a b
unfolding index_equivalent
index_equivalent-Alike a b h =
    let f =
      all_hold (a.primary_key != b.primary_key) (a.unique != b.unique) (a.type != b.type)
        (a.full_text_parser != b.full_text_parser) (same_parts a b) h in
    record {
      primary = eq_of_== a.primary_key b.primary_key (not_ne (a.primary_key == b.primary_key) f.0);
      unique = eq_of_== a.unique b.unique (not_ne (a.unique == b.unique) f.1.0);
      type = eq_of_== a.type b.type (not_ne (a.type == b.type) f.1.1.0);
      parser =
          eq_of_== a.full_text_parser b.full_text_parser
            (not_ne (a.full_text_parser == b.full_text_parser) f.1.1.1.0);
      parts = same_part_list-eq a.parts b.parts f.1.1.1.1;
    }

same_part_list_self : (ps : List IndexPart) → same_part_list ps ps ≡ true
unfolding same_part_list
same_part_list_self [] = refl
same_part_list_self (p ∷ ps) = simp (==_refl p, same_part_list_self ps)

no_guard : (u v t q : Bool) → u ≡ v → t ≡ true → q ≡ true → ((u && not v) || not t || not q) ≡ false
no_guard u v t q e f g = ground arith

-- An index is redundant to one that is like it and as visible.
pub redundant_to-Alike :
    (a b : Index)
    → a.primary_key ≡ false
    → Alike a b
    → (not a.invisible && b.invisible) ≡ false
    → redundant_to a b ≡ true
unfolding redundant_to
redundant_to-Alike a b secondary alike visible =
    let same = ap (same_part_list a.parts) (sym alike.parts) ∙ same_part_list_self a.parts in
    let lengths =
      ap (λ (ps : List IndexPart). nat_beq (length a.parts) (length ps)) (sym alike.parts)
      ∙ nat_beq_self (length a.parts) in
    let fits =
      ap (λ (ps : List IndexPart). ltb (length ps) (length a.parts)) (sym alike.parts)
      ∙ not_ltb_self (length a.parts) in
    let redundant = ap (parts_redundant a.parts) (sym alike.parts) ∙ parts_redundant_self a.parts in
    let guard =
      no_guard a.unique b.unique (a.type == b.type) (a.full_text_parser == b.full_text_parser)
        alike.unique (ap (λ (t : Text). a.type == t) (sym alike.type) ∙ ==_refl a.type)
        (ap (λ (t : Text). a.full_text_parser == t) (sym alike.parser)
          ∙ ==_refl a.full_text_parser) in
    elim (Bool-cases (a.unique && b.unique)) [
      | inl both ↦ simp (secondary, guard, visible, both, same)
      | inr plain ↦ simp (
        secondary,
        guard,
        visible,
        plain,
        lengths,
        and_false (a.type == txt "FULLTEXT"),
        fits,
        redundant,
      )
    ]
