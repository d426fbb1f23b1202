-- ===== src/Statement/Normal.antt =====
-- NormalizeTrailer ends every statement with what it needs, and does so once.
use mathlib.Core.List.{append_assoc}
use skeema.Prelude.{
  true, false, not, ◌||◌, [], ◌++◌, Text, txt, ◌≡◌, refl, ap, ◌∙◌, sym, inl, inr, Bool-cases,
  contains,
}
use skeema.Statement.{
  Statement, trim_right, no_delimiter, unknown_or_noop, text_body, split_text_body, ends_line,
  normalized_text, normalize_trailer,
}
use skeema.Statement.Trim.{contains-middle, contains-append, contains-prepend}
use skeema.Statement.Trailer.{
  trailer_of, text_body-rest, needs_delimiter, normalize_trailer_keeps_body,
}

-- A text behind a body, with a newline in it.
abbrev Lined : (body m text : Text) → Type 0
Lined body m text =
    (m' : Text) × (text ≡ body ++ m')
    × (contains m' (txt "\n") ≡ true)
    × ((d : Text) → contains m d ≡ true → contains m' d ≡ true)

ends_line-Lined :
    (trailer body m : Text)
    → (contains trailer (txt "\n") ≡ true → contains m (txt "\n") ≡ true)
    → Lined body m (ends_line trailer (body ++ m))
ends_line-Lined trailer body m h = elim (Bool-cases (contains trailer (txt "\n"))) [
  | inl e ↦ rw e (m, refl, h e, λ d c. c)
  | inr e ↦ rw e (
    m ++ txt "\n",
    append_assoc body m (txt "\n"),
    contains-middle m (txt "\n") [],
    λ d c. contains-append m (txt "\n") d c,
  )
]

-- What stands behind the body once the trailer is normalized.
abbrev Ended : Statement → Text → Type 0
Ended stmt text =
    (m : Text) × (text ≡ text_body stmt ++ m)
    × (contains m (txt "\n") ≡ true)
    × (needs_delimiter stmt ≡ true → contains m stmt.delimiter ≡ true)

plain_Ended :
    (stmt : Statement)
    → (needs_delimiter stmt ≡ true → contains (split_text_body stmt).1 stmt.delimiter ≡ true)
    → Ended stmt (ends_line (split_text_body stmt).1 stmt.text)
plain_Ended stmt h =
    let (rest, all) = text_body-rest stmt in
    let trailer = trailer_of stmt rest all in
    let (m, cut, newline, more) =
      ends_line-Lined (split_text_body stmt).1 (text_body stmt) rest
        (λ e. ap (λ t. contains t (txt "\n")) (sym trailer) ∙ e) in
    (
      m,
      ap (ends_line (split_text_body stmt).1) (sym all) ∙ cut,
      newline,
      λ need. more stmt.delimiter (ap (λ t. contains t stmt.delimiter) (sym trailer) ∙ h need),
    )

Ended-of :
    (stmt : Statement) (text text' : Text) → text ≡ text' → Ended stmt text' → Ended stmt text
Ended-of stmt text text' e (m, cut, newline, delimiter) = (m, e ∙ cut, newline, delimiter)

added_Ended :
    (stmt : Statement)
    → Ended stmt (
        ends_line
          (split_text_body stmt).1
          (text_body stmt ++ (stmt.delimiter ++ (split_text_body stmt).1)))
added_Ended stmt =
    let trailer = (split_text_body stmt).1 in
    let (m, cut, newline, more) =
      ends_line-Lined trailer (text_body stmt) (stmt.delimiter ++ trailer)
        (λ h. contains-prepend stmt.delimiter trailer (txt "\n") h) in
    (m, cut, newline, λ need. more stmt.delimiter (contains-middle [] stmt.delimiter trailer))

normalized_text-Ended : (stmt : Statement) → Ended stmt (normalized_text stmt)
unfolding normalized_text split_text_body
normalized_text-Ended stmt =
    let trailer = (split_text_body stmt).1 in
    let plain = ends_line trailer stmt.text in
    let added = ends_line trailer (text_body stmt ++ (stmt.delimiter ++ trailer)) in
    elim (Bool-cases (no_delimiter stmt || unknown_or_noop stmt.type)) [
      | inl e ↦
          let unneeded : needs_delimiter stmt ≡ false = ap not e in
          Ended-of stmt (normalized_text stmt) plain (rw e refl)
            (plain_Ended stmt (λ need. absurd (cc)))
      | inr e ↦ elim (Bool-cases (contains trailer stmt.delimiter)) [
        | inl found ↦
            Ended-of stmt (normalized_text stmt) plain (rw (e, found) refl)
              (plain_Ended stmt (λ need. found))
        | inr missing ↦
            Ended-of stmt (normalized_text stmt) added (rw (e, missing) refl) (added_Ended stmt)
      ]
    ]

-- NormalizeTrailer, with a delimiter that does not end in a blank: what SplitTextBody then takes
-- off the end has a newline in it, and it has the delimiter unless there is none or the statement
-- is of no known type or a noop, as comments and blanks are.
pub normalize_trailer_ends_statement :
    (stmt : Statement)
    → trim_right stmt.delimiter ≡ stmt.delimiter
    → (contains (split_text_body (normalize_trailer stmt)).1 (txt "\n") ≡ true)
      × (needs_delimiter stmt ≡ true
          → contains (split_text_body (normalize_trailer stmt)).1 stmt.delimiter ≡ true)
normalize_trailer_ends_statement stmt ink =
    let (m, cut, newline, delimiter) = normalized_text-Ended stmt in
    let trailer =
      trailer_of (normalize_trailer stmt) m
        (ap (λ b. b ++ m) (normalize_trailer_keeps_body stmt ink) ∙ sym cut) in
    (
      ap (λ t. contains t (txt "\n")) trailer ∙ newline,
      λ need. ap (λ t. contains t stmt.delimiter) trailer ∙ delimiter need,
    )

normalized_text_done :
    (stmt : Statement)
    → contains (split_text_body stmt).1 (txt "\n") ≡ true
    → (needs_delimiter stmt ≡ true → contains (split_text_body stmt).1 stmt.delimiter ≡ true)
    → normalized_text stmt ≡ stmt.text
unfolding normalized_text
normalized_text_done stmt newline delimiter =
    elim (Bool-cases (no_delimiter stmt || unknown_or_noop stmt.type)) [
      | inl e ↦ rw (e, newline) refl
      | inr e ↦ rw (e, delimiter (ap not e), newline) refl
    ]

-- NormalizeTrailer, with a delimiter that does not end in a blank, changes nothing the second time.
pub normalize_trailer_idempotent :
    (stmt : Statement)
    → trim_right stmt.delimiter ≡ stmt.delimiter
    → normalize_trailer (normalize_trailer stmt) ≡ normalize_trailer stmt
normalize_trailer_idempotent stmt ink =
    let (newline, delimiter) = normalize_trailer_ends_statement stmt ink in
    ap (λ t. record stmt { text = t })
      (normalized_text_done (normalize_trailer stmt) newline delimiter)
