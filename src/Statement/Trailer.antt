-- ===== src/Statement/Trailer.antt =====
-- SplitTextBody cuts the text in two, and NormalizeTrailer changes only what it cuts off.
use mathlib.Core.List.{append_assoc}
use skeema.Prelude.{
  Bool, true, false, not, ◌||◌, ◌++◌, Text, txt, ◌≡◌, refl, ap, ◌∙◌, sym, arith, inl, inr,
  Bool-cases, if◌then◌else◌, length, drop, is_empty, has_suffix, contains, drop-append, text_eq,
}
use skeema.Statement.{
  Statement, trim_right, trim_suffix, no_delimiter, unknown_or_noop, text_body, split_text_body,
  ends_line, normalized_text, normalize_trailer,
}
use skeema.Statement.Trim.{
  trim_right-append_blank, trim_right-rest, trim_right-trim_right, trim_right-append_kept,
  trim_suffix-append, trim_suffix-found, trim_suffix-missing, contains-middle,
}

-- The body of a text that ends in the delimiter.
delimited_rest :
    (text d : Text)
    → has_suffix (trim_right text) d ≡ true
    → (a ws : Text) × (trim_right (trim_suffix (trim_right text) d) ++ (a ++ (d ++ ws)) ≡ text)
delimited_rest text d h =
    let (ws, all, blank) = trim_right-rest text in
    let (a, some_body, blank_too) = trim_right-rest (trim_suffix (trim_right text) d) in
    let body = trim_right (trim_suffix (trim_right text) d) in
    (
      a,
      ws,
      sym (append_assoc body a (d ++ ws))
          ∙ (ap (λ t. t ++ (d ++ ws)) some_body
              ∙ (sym (append_assoc (trim_suffix (trim_right text) d) d ws)
                  ∙ (ap (λ t. t ++ ws) (trim_suffix-found (trim_right text) d h) ∙ all))),
    )

-- The body of a text that does not.
undelimited_body :
    (text d : Text)
    → has_suffix (trim_right text) d ≡ false
    → trim_right (trim_suffix (trim_right text) d) ≡ trim_right text
undelimited_body text d h =
    ap trim_right (trim_suffix-missing (trim_right text) d h) ∙ trim_right-trim_right text

pub text_body-rest : (stmt : Statement) → (rest : Text) × (text_body stmt ++ rest ≡ stmt.text)
unfolding text_body
text_body-rest stmt = elim (Bool-cases (no_delimiter stmt)) [
  | inl e ↦ let (ws, all, blank) = trim_right-rest stmt.text in rw e (ws, all)
  | inr e ↦ rw e (elim (Bool-cases (has_suffix (trim_right stmt.text) stmt.delimiter)) [
    | inl found ↦
        let (a, ws, all) = delimited_rest stmt.text stmt.delimiter found in
        (a ++ (stmt.delimiter ++ ws), all)
    | inr missing ↦
        let (ws, all, blank) = trim_right-rest stmt.text in
        (ws, ap (λ t. t ++ ws) (undelimited_body stmt.text stmt.delimiter missing) ∙ all)
  ])
]

text_body_trimmed : (stmt : Statement) → trim_right (text_body stmt) ≡ text_body stmt
unfolding text_body
text_body_trimmed stmt = elim (Bool-cases (no_delimiter stmt)) [
  | inl e ↦ rw e (trim_right-trim_right stmt.text)
  | inr e ↦ rw e (trim_right-trim_right (trim_suffix (trim_right stmt.text) stmt.delimiter))
]

-- SplitTextBody cuts the text of a statement in two without losing a byte, and the body that it
-- returns ends in no blank.
pub split_text_body_lossless :
    (stmt : Statement)
    → ((split_text_body stmt).0 ++ (split_text_body stmt).1 ≡ stmt.text)
      × (trim_right (split_text_body stmt).0 ≡ (split_text_body stmt).0)
unfolding split_text_body
split_text_body_lossless stmt =
    let (rest, all) = text_body-rest stmt in
    (
      ap (λ t. text_body stmt ++ drop (length (text_body stmt)) t) (sym all)
          ∙ (ap (λ t. text_body stmt ++ t) (drop-append (text_body stmt) rest) ∙ all),
      text_body_trimmed stmt,
    )

-- The body depends on the text less its blanks at the end.
text_body_same :
    (stmt : Statement) (t : Text)
    → trim_right t ≡ trim_right stmt.text
    → text_body (record stmt { text = t }) ≡ text_body stmt
unfolding text_body
text_body_same stmt t h =
    ap (λ x. if not (no_delimiter stmt) then trim_right (trim_suffix x stmt.delimiter) else x) h

ends_line-trim : (trailer text : Text) → trim_right (ends_line trailer text) ≡ trim_right text
unfolding trim_right
ends_line-trim trailer text = elim (Bool-cases (contains trailer (txt "\n"))) [
  | inl e ↦ rw e refl
  | inr e ↦ rw e (trim_right-append_blank text (txt "\n") refl)
]

pub trailer_of :
    (stmt : Statement) (rest : Text)
    → text_body stmt ++ rest ≡ stmt.text
    → (split_text_body stmt).1 ≡ rest
unfolding split_text_body
trailer_of stmt rest all =
    ap (drop (length (text_body stmt))) (sym all) ∙ drop-append (text_body stmt) rest

delimited_body :
    (stmt : Statement)
    → no_delimiter stmt ≡ false
    → text_body stmt ≡ trim_right (trim_suffix (trim_right stmt.text) stmt.delimiter)
unfolding text_body
delimited_body stmt typed = rw typed refl

-- A trailer without the delimiter is blank.
undelimited_trailer :
    (stmt : Statement)
    → no_delimiter stmt ≡ false
    → contains (split_text_body stmt).1 stmt.delimiter ≡ false
    → text_body stmt ≡ trim_right stmt.text
undelimited_trailer stmt typed missing =
    let body = delimited_body stmt typed in
    elim (Bool-cases (has_suffix (trim_right stmt.text) stmt.delimiter)) [
      | inr absent ↦ body ∙ undelimited_body stmt.text stmt.delimiter absent
      | inl found ↦
          let (a, ws, all) = delimited_rest stmt.text stmt.delimiter found in
          let trailer =
            trailer_of stmt (a ++ (stmt.delimiter ++ ws))
              (ap (λ t. t ++ (a ++ (stmt.delimiter ++ ws))) body ∙ all) in
          let holds : contains (split_text_body stmt).1 stmt.delimiter ≡ true =
            ap (λ t. contains t stmt.delimiter) trailer ∙ contains-middle a stmt.delimiter ws in
          absurd (cc)
    ]

some_delimiter_given :
    (stmt : Statement) → no_delimiter stmt ≡ false → is_empty stmt.delimiter ≡ false
some_delimiter_given stmt h = ground arith

-- The text with the delimiter put behind the body.
delimiter_added :
    (stmt : Statement)
    → no_delimiter stmt ≡ false
    → trim_right stmt.delimiter ≡ stmt.delimiter
    → contains (split_text_body stmt).1 stmt.delimiter ≡ false
    → (t : Text)
    → trim_right t ≡ trim_right (text_body stmt ++ (stmt.delimiter ++ (split_text_body stmt).1))
    → text_body (record stmt { text = t }) ≡ text_body stmt
delimiter_added stmt typed ink missing t same =
    let (ws, all, blank) = trim_right-rest stmt.text in
    let body = undelimited_trailer stmt typed missing in
    let trailer = trailer_of stmt ws (ap (λ b. b ++ ws) body ∙ all) in
    let d = stmt.delimiter in
    let trimmed : trim_right t ≡ text_body stmt ++ d =
      same
      ∙ (ap (λ r. trim_right (text_body stmt ++ (d ++ r))) trailer
          ∙ (ap trim_right (sym (append_assoc (text_body stmt) d ws))
              ∙ (trim_right-append_blank (text_body stmt ++ d) ws blank
                  ∙ trim_right-append_kept (text_body stmt) d (some_delimiter_given stmt typed)
                      ink))) in
    delimited_body (record stmt { text = t }) typed
    ∙ (ap (λ x. trim_right (trim_suffix x d)) trimmed
        ∙ (ap trim_right (trim_suffix-append (text_body stmt) d) ∙ text_body_trimmed stmt))

-- Whether NormalizeTrailer sees to it that the delimiter is there.
abbrev pub needs_delimiter : Statement → Bool
needs_delimiter stmt = not (no_delimiter stmt || unknown_or_noop stmt.type)

-- NormalizeTrailer, with a delimiter that does not end in a blank, leaves the body of the statement
-- as it is.
pub normalize_trailer_keeps_body :
    (stmt : Statement)
    → trim_right stmt.delimiter ≡ stmt.delimiter
    → text_body (normalize_trailer stmt) ≡ text_body stmt
unfolding normalized_text
normalize_trailer_keeps_body stmt ink =
    let (body, trailer) = split_text_body stmt in
    let plain =
      text_body_same stmt (ends_line trailer stmt.text) (ends_line-trim trailer stmt.text) in
    elim (Bool-cases (no_delimiter stmt || unknown_or_noop stmt.type)) [
      | inl e ↦ rw e plain
      | inr e ↦ rw e (elim (Bool-cases (contains trailer stmt.delimiter)) [
        | inl found ↦ rw found plain
        | inr missing ↦
            let typed : no_delimiter stmt ≡ false = ground arith in
            let added = body ++ (stmt.delimiter ++ trailer) in
            rw missing (
              delimiter_added stmt typed ink missing (ends_line trailer added)
                (ends_line-trim trailer added))
      ])
    ]
