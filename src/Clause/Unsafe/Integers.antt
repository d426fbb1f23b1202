-- ===== src/Clause/Unsafe/Integers.antt =====
-- ModifyColumn.Unsafe on integer types, compared with the values that the types hold.
use skeema.Prelude.{
  ℕ, ◌+◌, ◌*◌, ◌<◌, ◌≤◌, Bool, true, false, not, ◌&&◌, ◌||◌, List, [], ◌∷◌, ◌≡◌, refl, ◌⊎◌, inl,
  inr, arith, Text, txt, text_eq, ◌==◌, if◌then◌else◌, has_prefix, contains, ltb, leb, nat_beq,
  Bool-cases, to_lower, ==_refl, eq_of_==, All, ◌∙◌,
}
use skeema.Objects.{Column}
use skeema.Clause.Types.{int_rank}
use skeema.Clause.Unsafe.{both_same_prefix, unsafe_int, unsafe_type_change, modify_column_unsafe}

-- Two prefixes that no text can both have: they differ at some place.
apart : Text → Text → Bool
apart [] q = false
apart (c ∷ p) [] = false
apart (c ∷ p) (d ∷ q) = not (nat_beq c d) || apart p q

apart_all : Text → List Text → Bool
apart_all p [] = true
apart_all p (q ∷ qs) = apart p q && apart_all p qs

apart-has_prefix :
    (s p q : Text) → has_prefix s p ≡ true → apart p q ≡ true → has_prefix s q ≡ false
unfolding has_prefix apart
apart-has_prefix s [] q h a = cc
apart-has_prefix s (c ∷ p) [] h a = cc
apart-has_prefix [] (c ∷ p) (d ∷ q) h a = cc
apart-has_prefix (e ∷ s) (c ∷ p) (d ∷ q) h a = grind (arith, apart-has_prefix s p q)

-- The prefixes that ModifyColumn.Unsafe looks for in front of the integers.
abbrev others : List Text
others =
    txt "enum"
    ∷ txt "set"
    ∷ txt "decimal"
    ∷ txt "bit"
    ∷ txt "time"
    ∷ txt "timestamp"
    ∷ txt "datetime"
    ∷ txt "float"
    ∷ txt "double"
    ∷ []

apart_all-has_prefix :
    (s p : Text) (qs : List Text)
    → has_prefix s p ≡ true
    → apart_all p qs ≡ true
    → All (λ q. has_prefix s q ≡ false) qs
unfolding apart_all
apart_all-has_prefix s p [] h a = tt
apart_all-has_prefix s p (q ∷ qs) h a =
    (apart-has_prefix s p q h (ground arith), apart_all-has_prefix s p qs h (ground arith))

-- An integer type starts with none of them.
int_rank-others : (typ : Text) → 0 < int_rank typ → All (λ q. has_prefix typ q ≡ false) others
unfolding int_rank apart apart_all
int_rank-others typ h = elim (Bool-cases (has_prefix typ (txt "bigint"))) [
  | inl p ↦ apart_all-has_prefix typ (txt "bigint") others p refl
  | inr a ↦ elim (Bool-cases (has_prefix typ (txt "int"))) [
    | inl p ↦ apart_all-has_prefix typ (txt "int") others p refl
    | inr b ↦ elim (Bool-cases (has_prefix typ (txt "mediumint"))) [
      | inl p ↦ apart_all-has_prefix typ (txt "mediumint") others p refl
      | inr c ↦ elim (Bool-cases (has_prefix typ (txt "smallint"))) [
        | inl p ↦ apart_all-has_prefix typ (txt "smallint") others p refl
        | inr d ↦ elim (Bool-cases (has_prefix typ (txt "tinyint"))) [
          | inl p ↦ apart_all-has_prefix typ (txt "tinyint") others p refl
          | inr e ↦ absurd (ground arith)
        ]
      ]
    ]
  ]
]

positive_ltb : (n : ℕ) → 0 < n → ltb 0 n ≡ true
positive_ltb n h = ground arith

-- Two integer types reach the block that compares their ranks.
unsafe_type_change-int :
    (old_type new_type : Text)
    → 0 < int_rank old_type
    → 0 < int_rank new_type
    → unsafe_type_change old_type new_type ≡ (
        if not (contains old_type (txt "unsigned")) && contains new_type (txt "unsigned")
        then true
        else unsafe_int old_type new_type)
unfolding unsafe_type_change both_same_prefix
unsafe_type_change-int old_type new_type o n =
    let h = int_rank-others old_type o in
    simp (
      h.0,
      h.1.0,
      h.1.1.0,
      h.1.1.1.0,
      h.1.1.1.1.0,
      h.1.1.1.1.1.0,
      h.1.1.1.1.1.1.0,
      h.1.1.1.1.1.1.1.0,
      h.1.1.1.1.1.1.1.1.0,
      positive_ltb (int_rank old_type) o,
      positive_ltb (int_rank new_type) n,
    )

-- The greatest value of the signed type of a rank.
greatest_signed : ℕ → ℕ
greatest_signed rank =
    if nat_beq rank 1
    then 127
    else if nat_beq rank 2
    then 32767
    else if nat_beq rank 3
    then 8388607
    else if nat_beq rank 4
    then 2147483647
    else 9223372036854775807

-- The greatest value of an integer type, and how far it goes below zero.
pub greatest : Text → ℕ
greatest typ =
    if contains typ (txt "unsigned")
    then 2 * greatest_signed (int_rank typ) + 1
    else greatest_signed (int_rank typ)

pub below_zero : Text → ℕ
below_zero typ = if contains typ (txt "unsigned") then 0 else greatest_signed (int_rank typ) + 1

-- Every value of the old type is one of the new type.
pub values_fit : Text → Text → Bool
values_fit old_type new_type =
    leb (below_zero old_type) (below_zero new_type) && leb (greatest old_type) (greatest new_type)

greatest_signed-lt :
    (r s : ℕ) → 0 < r → r < s → s ≤ 5 → 2 * greatest_signed r + 1 ≤ greatest_signed s
unfolding greatest_signed
greatest_signed-lt r s h lt le = ground arith

five_branches :
    (a b c d e : Bool)
    → (if a then 5 else if b then 4 else if c then 3 else if d then 2 else if e then 1 else 0) ≤ 5
five_branches a b c d e = ground arith

compare_cases : (r s : ℕ) → (r < s) ⊎ (s ≤ r)
compare_cases r s = elim (Bool-cases (ltb r s)) [
  | inl p ↦ inl (ground arith)
  | inr p ↦ inr (ground arith)
]

int_rank-bound : (typ : Text) → int_rank typ ≤ 5
unfolding int_rank
int_rank-bound typ =
    five_branches (has_prefix typ (txt "bigint")) (has_prefix typ (txt "int"))
      (has_prefix typ (txt "mediumint")) (has_prefix typ (txt "smallint"))
      (has_prefix typ (txt "tinyint"))

greatest_signed_mono :
    (r s : ℕ)
    → 0 < r
    → 0 < s
    → r ≤ 5
    → s ≤ 5
    → (leb (greatest_signed r) (greatest_signed s) ≡ leb r s)
      × (leb (2 * greatest_signed r + 1) (greatest_signed s) ≡ ltb r s)
greatest_signed_mono r s hr hs r5 s5 = elim (compare_cases r s) [
  | inl lt ↦ let room = greatest_signed-lt r s hr lt s5 in (ground arith, ground arith)
  | inr ge ↦ elim (compare_cases s r) [
    | inl lt ↦ let room = greatest_signed-lt s r hs lt r5 in (ground arith, ground arith)
    | inr le ↦ let same : r ≡ s = omega arith in (rw same (ground arith), rw same (ground arith))
  ]
]

-- The code's comparison of ranks r and s against a comparison of ranges, where a and b are the
-- greatest signed values.
verdict :
    (uo un : Bool) (r s a b : ℕ)
    → leb a b ≡ leb r s
    → leb (2 * a + 1) b ≡ ltb r s
    → (if not uo && un then true else if uo && not un then leb s r else ltb s r)
      ≡ not (
          leb (if uo then 0 else a + 1) (if un then 0 else b + 1)
          && leb (if uo then 2 * a + 1 else a) (if un then 2 * b + 1 else b))
verdict true true r s a b p q = ground arith
verdict true false r s a b p q = ground arith
verdict false true r s a b p q = ground arith
verdict false false r s a b p q = ground arith

values_fit_self : (typ : Text) → values_fit typ typ ≡ true
unfolding values_fit
values_fit_self typ = ground arith

-- The verdict on two integer types, whether or not they are the same.
unsafe_int-values_fit :
    (old_type new_type : Text)
    → 0 < int_rank old_type
    → 0 < int_rank new_type
    → (if not (contains old_type (txt "unsigned")) && contains new_type (txt "unsigned")
        then true
        else unsafe_int old_type new_type)
      ≡ not (values_fit old_type new_type)
unfolding unsafe_int values_fit greatest below_zero
unsafe_int-values_fit old_type new_type o n =
    let mono =
      greatest_signed_mono (int_rank old_type) (int_rank new_type) o n (int_rank-bound old_type)
        (int_rank-bound new_type) in
    verdict (contains old_type (txt "unsigned")) (contains new_type (txt "unsigned"))
      (int_rank old_type) (int_rank new_type) (greatest_signed (int_rank old_type))
      (greatest_signed (int_rank new_type)) mono.0 mono.1

-- With these columns only the types decide.
modify_column_unsafe-types :
    (old_column new_column : Column)
    → old_column.virtual ≡ false
    → old_column.char_set ≡ new_column.char_set
    → modify_column_unsafe old_column new_column ≡ (
        if to_lower old_column.type_in_db == to_lower new_column.type_in_db
        then false
        else unsafe_type_change (to_lower old_column.type_in_db) (to_lower new_column.type_in_db))
unfolding modify_column_unsafe
modify_column_unsafe-types old_column new_column v c = simp (v, c, ==_refl new_column.char_set)

-- ModifyColumn.Unsafe, on two columns of the same character set with integer types, the old one
-- not virtual: the change is unsafe exactly when some value of the old type is none of the new.
pub integer_change_unsafe_iff_values_lost :
    (old_column new_column : Column)
    → old_column.virtual ≡ false
    → old_column.char_set ≡ new_column.char_set
    → 0 < int_rank (to_lower old_column.type_in_db)
    → 0 < int_rank (to_lower new_column.type_in_db)
    → modify_column_unsafe old_column new_column
      ≡ not (values_fit (to_lower old_column.type_in_db) (to_lower new_column.type_in_db))
integer_change_unsafe_iff_values_lost old_column new_column v c o n =
    let old_type = to_lower old_column.type_in_db in
    let new_type = to_lower new_column.type_in_db in
    modify_column_unsafe-types old_column new_column v c
    ∙ elim (Bool-cases (old_type == new_type)) [
      | inl same ↦
          let e : old_type ≡ new_type = eq_of_== old_type new_type same in
          let fit : values_fit old_type new_type ≡ true = rw e (values_fit_self new_type) in
          rw (same, fit) refl
      | inr differ ↦ rw differ (
          unsafe_type_change-int old_type new_type o n
          ∙ unsafe_int-values_fit old_type new_type o n)
    ]
