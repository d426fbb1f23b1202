-- ===== src/Applier/Printer/Reading/Steps.antt =====
-- What the client makes of each line of the standard printer.
use mathlib.Core.List.{append_assoc}
use skeema.Prelude.{
  ℕ, ◌≤◌, Bool, true, false, not, ◌&&◌, ◌||◌, [], ◌∷◌, ◌++◌, some, Text, txt, text_eq, ◌==◌,
  is_empty, has_prefix, nat_beq, nat_eq, length, length-append, ◌≡◌, refl, ap, sym, ◌∙◌, arith,
  Bool-cases, inl, inr, replace_byte, both_true,
}
use skeema.Escape.{escape_identifier}
use skeema.Applier.Printer.{
  StandardPrinter, line_text, delimiter_line, instance_line, use_line, statement_line,
}
use skeema.Applier.Printer.Reading.{
  run_in, Taken, take_line, after, take_statement, take_name, step, has_byte, may_begin, ends_once,
  is_sql,
}

pub eq_false : (b : Bool) → not b ≡ true → b ≡ false
eq_false b h = ground arith

or_false : (a b : Bool) → (a || b) ≡ false → (a ≡ false) × (b ≡ false)
or_false a b h = (ground arith, ground arith)

take_line-append :
    (s rest : Text)
    → has_byte b'\n' s ≡ false
    → take_line (s ++ (b'\n' ∷ rest)) ≡ record { text = s; rest = rest }
unfolding take_line has_byte
take_line-append [] rest h = refl
take_line-append (c ∷ s) rest h =
    let parts = or_false (nat_beq c b'\n') (has_byte b'\n' s) h in
    rw (parts.0, take_line-append s rest parts.1) refl

after-append : (d rest : Text) → after d (d ++ rest) ≡ rest
unfolding after
after-append [] rest = refl
after-append (c ∷ d) rest = after-append d rest

nat_beq_refl : (c : ℕ) → nat_beq c c ≡ true
nat_beq_refl c = ground arith

has_prefix-append : (d rest : Text) → has_prefix (d ++ rest) d ≡ true
unfolding has_prefix
has_prefix-append [] rest = refl
has_prefix-append (c ∷ d) rest = rw (nat_beq_refl c) (has_prefix-append d rest)

-- What follows does not matter to a prefix that the text is long enough for.
has_prefix-long :
    (u d rest : Text) → length d ≤ length u → has_prefix (u ++ rest) d ≡ has_prefix u d
unfolding has_prefix
has_prefix-long u [] rest h = refl
has_prefix-long [] (c ∷ d) rest h = absurd (omega arith)
has_prefix-long (x ∷ u) (c ∷ d) rest h =
    ap (λ b. nat_beq x c && b) (has_prefix-long u d rest (omega arith))

has_prefix-more : (s d rest : Text) → has_prefix s d ≡ true → has_prefix (s ++ rest) d ≡ true
unfolding has_prefix
has_prefix-more s [] rest h = refl
has_prefix-more [] (c ∷ d) rest h = cc
has_prefix-more (x ∷ s) (c ∷ d) rest h =
    let parts = both_true (nat_beq x c) (has_prefix s d) h in
    rw (parts.0) (has_prefix-more s d rest parts.1)

and_false-left : (a b : Bool) → a ≡ false → (a && b) ≡ false
and_false-left a b h = ground arith

has_prefix-may_begin :
    (word s rest : Text) → may_begin word s ≡ false → has_prefix (s ++ rest) word ≡ false
unfolding has_prefix may_begin
has_prefix-may_begin [] s rest h = cc
has_prefix-may_begin (c ∷ word) [] rest h = cc
has_prefix-may_begin (c ∷ word) (d ∷ s) rest h = elim (Bool-cases (nat_beq d c)) [
  | inr other ↦ rw other refl
  | inl same ↦
      rw same (has_prefix-may_begin word s rest (sym (ap (λ b. b && may_begin word s) same) ∙ h))
]

take_statement-append :
    (d s rest : Text)
    → is_empty d ≡ false
    → ends_once d s ≡ true
    → take_statement d (s ++ (d ++ rest)) ≡ some (record { text = s; rest = rest })
unfolding take_statement ends_once
take_statement-append [] s rest long h = cc
take_statement-append (c ∷ d) [] rest long h =
    rw (has_prefix-append (c ∷ d) rest, after-append (c ∷ d) rest) refl
take_statement-append (c ∷ d) (x ∷ s) rest long h =
    let parts = both_true (not (has_prefix ((x ∷ s) ++ (c ∷ d)) (c ∷ d))) (ends_once (c ∷ d) s) h in
    let size = length-append (x ∷ s) (c ∷ d) in
    let same =
      ap (λ t. has_prefix t (c ∷ d)) (sym (append_assoc (x ∷ s) (c ∷ d) rest))
      ∙ has_prefix-long ((x ∷ s) ++ (c ∷ d)) (c ∷ d) rest (omega arith) in
    let not_yet : has_prefix ((x ∷ s) ++ ((c ∷ d) ++ rest)) (c ∷ d) ≡ false =
      same ∙ ground (arith, parts.0) in
    rw (not_yet, take_statement-append (c ∷ d) s rest long parts.1) refl

take_name-plain :
    (c : ℕ) (s : Text) {t : Taken}
    → nat_beq c b'`' ≡ false
    → take_name s ≡ some t
    → take_name (c ∷ s) ≡ some (record t { text = c ∷ t.text })
unfolding take_name
take_name-plain c [] plain e = cc
take_name-plain c (d ∷ s) plain e = rw (plain, e) refl

take_name-doubled :
    (s : Text) {t : Taken}
    → take_name s ≡ some t
    → take_name (b'`' ∷ b'`' ∷ s) ≡ some (record t { text = b'`' ∷ t.text })
unfolding take_name
take_name-doubled s e = rw e refl

beq_eq : (a b : ℕ) → nat_beq a b ≡ true → a ≡ b
beq_eq a b h = ground arith

take_name-append :
    (name rest : Text)
    → take_name (replace_byte name b'`' (txt "``") ++ (b'`' ∷ b';' ∷ rest))
      ≡ some (record { text = name; rest = b';' ∷ rest })
unfolding replace_byte
take_name-append [] rest = unfold take_name in refl
take_name-append (c ∷ name) rest = elim (Bool-cases (nat_beq c b'`')) [
  | inl tick ↦ rw tick (
      take_name-doubled (replace_byte name b'`' (txt "``") ++ (b'`' ∷ b';' ∷ rest))
        (take_name-append name rest)
      ∙ ap (λ (b : ℕ). some (record { text = b ∷ name; rest = b';' ∷ rest }))
          (sym (beq_eq c b'`' tick)))
  | inr plain ↦ rw plain (
      take_name-plain c (replace_byte name b'`' (txt "``") ++ (b'`' ∷ b';' ∷ rest)) plain
        (take_name-append name rest))
]

pub step-delimiter_line :
    (p : StandardPrinter) (d rest : Text)
    → has_byte b'\n' d ≡ false
    → step p (line_text (delimiter_line d) ++ rest)
      ≡ some (record { state = record p { last_delimiter = d }; ran = []; rest = rest })
unfolding step line_text has_prefix after
step-delimiter_line p d rest h = rw (append_assoc d (txt "\n") rest, take_line-append d rest h) refl

pub step-instance_line :
    (p : StandardPrinter) (name rest : Text)
    → has_byte b'\n' name ≡ false
    → step p (line_text (instance_line name) ++ rest)
      ≡ some (record {
        state = record p { last_instance = name; last_schema = [] };
        ran = [];
        rest = rest;
      })
unfolding step line_text has_prefix after
step-instance_line p name rest h =
    rw (append_assoc name (txt "\n") rest, take_line-append name rest h) refl

pub step-use_line :
    (p : StandardPrinter) (schema rest : Text)
    → (p.last_delimiter == txt ";") ≡ true
    → step p (line_text (use_line schema) ++ rest)
      ≡ some (record { state = record p { last_schema = schema }; ran = []; rest = rest })
unfolding step line_text has_prefix after escape_identifier text_eq
step-use_line p schema rest plain =
    let name = replace_byte schema b'`' (txt "``") in
    rw
      (
        append_assoc (name ++ txt "`") (txt ";\n") rest,
        append_assoc name (txt "`") (txt ";\n" ++ rest),
        plain,
        take_name-append schema (b'\n' ∷ rest),
      )
      refl

pub step-command :
    (p : StandardPrinter) (s rest : Text)
    → has_prefix s (txt "\\! ") ≡ true
    → has_byte b'\n' s ≡ false
    → step p (line_text (statement_line s []) ++ rest)
      ≡ some (record { state = p; ran = run_in p s ∷ []; rest = rest })
unfolding step line_text
step-command p s rest begins one_line =
    rw
      (
        append_assoc s (txt "\n") rest,
        has_prefix-more s (txt "\\! ") (b'\n' ∷ rest) begins,
        take_line-append s rest one_line,
      )
      refl

pub step-statement_line :
    (p : StandardPrinter) (s d rest : Text)
    → is_sql s ≡ true
    → is_empty d ≡ false
    → ends_once d s ≡ true
    → p.last_delimiter ≡ d
    → step p (line_text (statement_line s d) ++ rest)
      ≡ some (record { state = p; ran = run_in p s ∷ []; rest = rest })
unfolding step line_text is_sql
step-statement_line p s d rest sql long once same =
    let a = both_true (not (is_empty s)) _ sql in
    let b = both_true (not (may_begin (txt "\\! ") s)) _ a.1 in
    let c = both_true (not (may_begin (txt "DELIMITER ") s)) _ b.1 in
    let e = both_true (not (may_begin (txt "-- instance: ") s)) _ c.1 in
    let more = d ++ (b'\n' ∷ rest) in
    rw
      (
        append_assoc s (d ++ txt "\n") rest,
        append_assoc d (txt "\n") rest,
        has_prefix-may_begin (txt "\\! ") s more (eq_false _ b.0),
        has_prefix-may_begin (txt "DELIMITER ") s more (eq_false _ c.0),
        has_prefix-may_begin (txt "-- instance: ") s more (eq_false _ e.0),
        has_prefix-may_begin (txt "USE ") s more (eq_false _ e.1),
        same,
        take_statement-append d s (b'\n' ∷ rest) long once,
      )
      refl
