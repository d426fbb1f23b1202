-- ===== src/Shell/Quoting.antt =====
-- escapeVarValue against the quoting rules of a POSIX shell.
use skeema.Prelude.{
  ℕ, Bool, true, false, ◌||◌, [], ◌∷◌, ◌++◌, Option, none, some, Text, txt, if◌then◌else◌, nat_beq,
  replace_byte, ◌≡◌, refl, ap, sym, ◌∙◌, arith, Bool-cases, inl, inr, both_true, nat_beq_iff,
}
use skeema.Shell.{is_plain, no_quotes_needed, escaped_quote, escape_var_value}

-- A byte that ends a word.
unfoldable pub is_blank : ℕ → Bool
is_blank c = nat_beq c b' ' || nat_beq c b'\t' || nat_beq c b'\n'

-- A byte that stands for more than itself in a word, outside quotes.
unfoldable pub is_special : ℕ → Bool
is_special c =
    (nat_beq c b'|' || nat_beq c b'&' || nat_beq c b';' || nat_beq c b'<' || nat_beq c b'>')
    || (nat_beq c b'(' || nat_beq c b')' || nat_beq c b'$' || nat_beq c b'`' || nat_beq c b'\\')
    || (nat_beq c b'*' || nat_beq c b'?' || nat_beq c b'[' || nat_beq c b'#' || nat_beq c b'~')

abbrev is_special_in_double : ℕ → Bool
is_special_in_double c = nat_beq c b'$' || nat_beq c b'`' || nat_beq c b'\\'

pub data Quotes : Type 0 where
  unquoted single double : Quotes

abbrev pub with_byte : ℕ → Option (Text × Text) → Option (Text × Text)
with_byte c none = none
with_byte c (some r) = some (c ∷ r.0, r.1)

-- The word that a text begins with and what follows it, by the quoting rules of POSIX 2.2; none
-- where a quote is not closed, and where a byte stands for more than itself.
unfoldable pub shell_word : Quotes → Text → Option (Text × Text)
unfolding is_blank is_special
shell_word unquoted [] = some ([], [])
shell_word single [] = none
shell_word double [] = none
shell_word unquoted (c ∷ s) =
    let in_single = shell_word single s in
    let in_double = shell_word double s in
    let more = with_byte c (shell_word unquoted s) in
    if is_blank c
    then some ([], c ∷ s)
    else if nat_beq c b'\''
    then in_single
    else if nat_beq c b'"'
    then in_double
    else if is_special c
    then none
    else more
shell_word single (c ∷ s) =
    let closed = shell_word unquoted s in
    let more = with_byte c (shell_word single s) in if nat_beq c b'\'' then closed else more
shell_word double (c ∷ s) =
    let closed = shell_word unquoted s in
    let more = with_byte c (shell_word double s) in
    if nat_beq c b'"' then closed else if is_special_in_double c then none else more

-- A text that begins with no byte of a word.
unfoldable pub ends_word : Text → Bool
unfolding is_blank
ends_word [] = true
ends_word (c ∷ s) = is_blank c

shell_word-ends : (rest : Text) → ends_word rest ≡ true → shell_word unquoted rest ≡ some ([], rest)
unfolding shell_word ends_word
shell_word-ends [] h = refl
shell_word-ends (c ∷ s) h = simp h

is_plain-ordinary :
    (c : ℕ)
    → is_plain c ≡ true
    → (is_blank c ≡ false)
      × ((nat_beq c b'\'' ≡ false) × ((nat_beq c b'"' ≡ false) × (is_special c ≡ false)))
unfolding is_plain is_blank is_special
is_plain-ordinary c plain = (ground arith, (ground arith, (ground arith, ground arith)))

shell_word-plain :
    (s rest : Text)
    → no_quotes_needed s ≡ true
    → ends_word rest ≡ true
    → shell_word unquoted (s ++ rest) ≡ some (s, rest)
unfolding no_quotes_needed shell_word
shell_word-plain [] rest plain h = shell_word-ends rest h
shell_word-plain (c ∷ s) rest plain h =
    let both = both_true (is_plain c) (no_quotes_needed s) plain in
    let ordinary = is_plain-ordinary c both.0 in
    simp
      (ordinary.0, ordinary.1.0, ordinary.1.1.0, ordinary.1.1.1, shell_word-plain s rest both.1 h)

append_assoc : (a b c : Text) → (a ++ b) ++ c ≡ a ++ (b ++ c)
append_assoc [] b c = refl
append_assoc (x ∷ a) b c = ap (◌∷◌ x) (append_assoc a b c)

shell_word-escaped_quote :
    (s : Text) → shell_word single (escaped_quote ++ s) ≡ with_byte b'\'' (shell_word single s)
unfolding shell_word is_blank is_special
shell_word-escaped_quote s = refl

shell_word-single :
    (s rest : Text)
    → ends_word rest ≡ true
    → shell_word single (replace_byte s b'\'' escaped_quote ++ (b'\'' ∷ rest)) ≡ some (s, rest)
unfolding replace_byte shell_word
shell_word-single [] rest h = shell_word-ends rest h
shell_word-single (c ∷ s) rest h = elim (Bool-cases (nat_beq c b'\'')) [
  | inl quote ↦
      let is_quote = (nat_beq_iff c b'\'').0 quote in
      let tail = replace_byte s b'\'' escaped_quote ++ (b'\'' ∷ rest) in
      rw quote (
        shell_word-escaped_quote tail
        ∙ (ap (with_byte b'\'') (shell_word-single s rest h)
            ∙ ap (λ (x : ℕ). some (x ∷ s, rest)) (sym is_quote)))
  | inr other ↦ simp (other, shell_word-single s rest h)
]

quoted :
    (value rest : Text)
    → ends_word rest ≡ true
    → shell_word unquoted (b'\'' ∷ (replace_byte value b'\'' escaped_quote ++ (b'\'' ∷ rest)))
      ≡ some (value, rest)
unfolding shell_word is_blank
quoted value rest h = shell_word-single value rest h

-- A shell that reads an escaped value, followed by a blank or by nothing, comes to that end having
-- read the bytes of the value itself, whatever quotes, blanks and operators the value has; so a
-- value that is not empty is one word.
pub shell_word-escape_var_value :
    (value rest : Text)
    → ends_word rest ≡ true
    → shell_word unquoted (escape_var_value value ++ rest) ≡ some (value, rest)
unfolding escape_var_value
shell_word-escape_var_value value rest h = elim (Bool-cases (no_quotes_needed value)) [
  | inl plain ↦ rw plain (shell_word-plain value rest plain h)
  | inr other ↦
      rw (other, append_assoc (replace_byte value b'\'' escaped_quote) (txt "'") rest)
        (quoted value rest h)
]
