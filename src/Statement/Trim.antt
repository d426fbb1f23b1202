-- ===== src/Statement/Trim.antt =====
-- Laws of the functions of package strings that take off the end of a statement's text.
use skeema.Prelude.{
  ◌-◌, Bool, true, false, ◌&&◌, ◌||◌, [], ◌∷◌, ◌++◌, Text, ◌≡◌, refl, ap, ◌∙◌, sym, arith, inl, inr,
  Bool-cases, length, take, drop, nat_beq, leb, is_empty, has_prefix, has_suffix, contains,
  has_suffix-append, take-append, take-drop, length-append_sub, both_true, text_beq_iff,
  nat_beq_iff,
}
use skeema.Statement.{is_blank, trim_right, trim_suffix}

pub trim_right-append_blank :
    (s ws : Text) → trim_right ws ≡ [] → trim_right (s ++ ws) ≡ trim_right s
unfolding trim_right
trim_right-append_blank [] ws h = h
trim_right-append_blank (c ∷ s) ws h = rw (trim_right-append_blank s ws h) refl

-- What TrimRight takes off is blank.
pub trim_right-rest : (s : Text) → (ws : Text) × (trim_right s ++ ws ≡ s) × (trim_right ws ≡ [])
unfolding trim_right
trim_right-rest [] = ([], refl, refl)
trim_right-rest (c ∷ s) = elim (Bool-cases (is_blank c && is_empty (trim_right s))) [
  | inl e ↦ (c ∷ s, rw e refl, rw e refl)
  | inr e ↦ let (ws, all, blank) = trim_right-rest s in (ws, rw e (ap (◌∷◌ c) all), blank)
]

pub trim_right-trim_right : (s : Text) → trim_right (trim_right s) ≡ trim_right s
trim_right-trim_right s =
    let (ws, all, blank) = trim_right-rest s in
    sym (trim_right-append_blank (trim_right s) ws blank) ∙ ap trim_right all

append_some : (s d : Text) → is_empty d ≡ false → is_empty (s ++ d) ≡ false
append_some [] d h = h
append_some (c ∷ s) d h = refl

and_empty : (b : Bool) (s : Text) → is_empty s ≡ false → (b && is_empty s) ≡ false
and_empty true s h = h
and_empty false s h = refl

-- Nothing is taken off behind a text with a last byte that is not blank.
pub trim_right-append_kept :
    (s d : Text) → is_empty d ≡ false → trim_right d ≡ d → trim_right (s ++ d) ≡ s ++ d
unfolding trim_right
trim_right-append_kept [] d some_byte kept = kept
trim_right-append_kept (c ∷ s) d some_byte kept =
    rw
      (
        trim_right-append_kept s d some_byte kept,
        and_empty (is_blank c) (s ++ d) (append_some s d some_byte),
      )
      refl

pub trim_suffix-append : (s suffix : Text) → trim_suffix (s ++ suffix) suffix ≡ s
unfolding trim_suffix
trim_suffix-append s suffix =
    rw (has_suffix-append s suffix, length-append_sub s suffix) (take-append s suffix)

suffix_at :
    (s suffix : Text) → has_suffix s suffix ≡ true → drop (length s - length suffix) s ≡ suffix
unfolding has_suffix
suffix_at s suffix h =
    (text_beq_iff (drop (length s - length suffix) s) suffix).0
      (both_true (leb (length suffix) (length s)) _ h).1

pub trim_suffix-found :
    (s suffix : Text) → has_suffix s suffix ≡ true → trim_suffix s suffix ++ suffix ≡ s
unfolding trim_suffix
trim_suffix-found s suffix h = rw h (
    ap (λ t. take (length s - length suffix) s ++ t) (sym (suffix_at s suffix h))
    ∙ take-drop (length s - length suffix) s)

pub trim_suffix-missing : (s suffix : Text) → has_suffix s suffix ≡ false → trim_suffix s suffix ≡ s
unfolding trim_suffix
trim_suffix-missing s suffix h = rw h refl

has_prefix-append : (d s : Text) → has_prefix (d ++ s) d ≡ true
unfolding has_prefix
has_prefix-append [] s = refl
has_prefix-append (c ∷ d) s = rw ((nat_beq_iff c c).1 refl) (has_prefix-append d s)

has_prefix-append_more : (s t d : Text) → has_prefix s d ≡ true → has_prefix (s ++ t) d ≡ true
unfolding has_prefix
has_prefix-append_more s t [] h = refl
has_prefix-append_more [] t (c ∷ d) h = cc
has_prefix-append_more (x ∷ s) t (c ∷ d) h =
    let (same, more) = both_true (nat_beq x c) (has_prefix s d) h in
    rw same (has_prefix-append_more s t d more)

contains-prefix : (s d : Text) → has_prefix s d ≡ true → contains s d ≡ true
unfolding contains
contains-prefix [] d h = h
contains-prefix (c ∷ s) d h = rw h refl

or_true : (x : Bool) → (x || true) ≡ true
or_true true = refl
or_true false = refl

-- A text between two others is found there.
pub contains-middle : (a d b : Text) → contains (a ++ (d ++ b)) d ≡ true
unfolding contains
contains-middle [] d b = contains-prefix (d ++ b) d (has_prefix-append d b)
contains-middle (c ∷ a) d b =
    rw (contains-middle a d b) (or_true (has_prefix (c ∷ (a ++ (d ++ b))) d))

pub contains-append : (s t d : Text) → contains s d ≡ true → contains (s ++ t) d ≡ true
unfolding contains
contains-append [] t d h = contains-prefix t d (has_prefix-append_more [] t d h)
contains-append (c ∷ s) t d h = elim (Bool-cases (has_prefix (c ∷ s) d)) [
  | inl e ↦ rw (has_prefix-append_more (c ∷ s) t d e) refl
  | inr e ↦
      let later : contains s d ≡ true = ground arith in
      rw (contains-append s t d later) (ground arith)
]

pub contains-prepend : (s t d : Text) → contains t d ≡ true → contains (s ++ t) d ≡ true
unfolding contains
contains-prepend [] t d h = h
contains-prepend (c ∷ s) t d h =
    rw (contains-prepend s t d h) (or_true (has_prefix (c ∷ (s ++ t)) d))
