-- ===== src/Escape/Laws.antt =====
-- The five successive replacements of EscapeValueForCreateTable act as one pass over the bytes,
-- and both ways of quoting can be undone.
use mathlib.Core.List.{append_assoc}
use mathlib.Core.List.{tail}
use skeema.Prelude.{
  ◌||◌, ℕ, List, [], ◌∷◌, ◌++◌, ◌≡◌, ◌≢◌, refl, sym, ap, ◌∙◌, arith, nat_beq, if◌then◌else◌, Text,
  txt, replace_byte,
}
use skeema.Escape.{escape_identifier, escape_value_for_create_table, replace_all, replacements}

-- What one byte of a value becomes.
pub escape_byte : ℕ → Text
escape_byte c =
    if nat_beq c b'\\'
    then txt "\\\\"
    else if nat_beq c 0
    then txt "\\0"
    else if nat_beq c b'\''
    then txt "''"
    else if nat_beq c b'\n'
    then txt "\\n"
    else if nat_beq c b'\r'
    then txt "\\r"
    else c ∷ []

pub escape_bytes : Text → Text
escape_bytes [] = []
escape_bytes (c ∷ s) = escape_byte c ++ escape_bytes s

replace_byte-append :
    (a b : Text) (old : ℕ) (new : Text)
    → replace_byte (a ++ b) old new ≡ replace_byte a old new ++ replace_byte b old new
unfolding replace_byte
replace_byte-append [] b old new = refl
replace_byte-append (c ∷ a) b old new = simp (replace_byte-append a b old new, append_assoc)

replace_all-append :
    (ops : List (ℕ × Text)) (a b : Text)
    → replace_all (a ++ b) ops ≡ replace_all a ops ++ replace_all b ops
unfolding replace_all
replace_all-append [] a b = refl
replace_all-append ((old, new) ∷ ops) a b =
    rw (replace_byte-append a b old new) (replace_all-append ops _ _)

replace_all-byte : (c : ℕ) → replace_all (c ∷ []) replacements ≡ escape_byte c
unfolding replace_all replace_byte escape_byte
replace_all-byte c = ground arith

replace_all-empty : (ops : List (ℕ × Text)) → replace_all [] ops ≡ []
unfolding replace_all replace_byte
replace_all-empty [] = refl
replace_all-empty ((old, new) ∷ ops) = replace_all-empty ops

-- The successive replacements never touch what an earlier one wrote: the result is the same as
-- replacing each byte of the input once, independently of the others.
pub escape_value_one_pass : (s : Text) → escape_value_for_create_table s ≡ escape_bytes s
unfolding escape_value_for_create_table escape_bytes
escape_value_one_pass [] = refl
escape_value_one_pass (c ∷ s) =
    replace_all-append replacements (c ∷ []) s ∙ simp (replace_all-byte c, escape_value_one_pass s)

decode_pair : ℕ → ℕ → ℕ
decode_pair c d =
    if nat_beq c b'\''
    then c
    else if nat_beq d b'0'
    then 0
    else if nat_beq d b'n'
    then b'\n'
    else if nat_beq d b'r'
    then b'\r'
    else d

unescape : Text → Text
unescape [] = []
unescape (c ∷ []) = c ∷ []
unescape (c ∷ d ∷ s) =
    let two = decode_pair c d ∷ unescape s in
    let one = c ∷ unescape (d ∷ s) in if nat_beq c b'\\' || nat_beq c b'\'' then two else one

unescape-escape_byte : (c : ℕ) (rest : Text) → unescape (escape_byte c ++ rest) ≡ c ∷ unescape rest
unfolding unescape escape_byte decode_pair
unescape-escape_byte c [] = ground arith
unescape-escape_byte c (d ∷ rest) = ground arith

unescape-escape_bytes : (s : Text) → unescape (escape_bytes s) ≡ s
unfolding escape_bytes
unescape-escape_bytes [] = unfold unescape in refl
unescape-escape_bytes (c ∷ s) =
    unescape-escape_byte c (escape_bytes s) ∙ ap (◌∷◌ c) (unescape-escape_bytes s)

-- Two values with the same escaped form are the same value: nothing of a comment or a default is
-- lost when it is written into a statement.
pub escape_value_injective :
    (s t : Text) → escape_value_for_create_table s ≡ escape_value_for_create_table t → s ≡ t
escape_value_injective s t h =
    sym (unescape-escape_bytes s)
    ∙ ap unescape (sym (escape_value_one_pass s) ∙ h ∙ escape_value_one_pass t)
    ∙ unescape-escape_bytes t

-- Reads the inside of a quoted identifier up to its closing backtick: the name, and what follows.
read_quoted : Text → Text × Text
read_quoted [] = ([], [])
read_quoted (c ∷ []) = if nat_beq c b'`' then ([], []) else (c ∷ [], [])
read_quoted (c ∷ d ∷ s) =
    let doubled = read_quoted s in
    let plain = read_quoted (d ∷ s) in
    if nat_beq c b'`'
    then (if nat_beq d b'`' then (c ∷ doubled.0, doubled.1) else ([], d ∷ s))
    else (c ∷ plain.0, plain.1)

abbrev pub StartsWithout : ℕ → Text → Type 0
StartsWithout b [] = Unit
StartsWithout b (c ∷ s) = c ≢ b

read_quoted-replace :
    (s rest : Text)
    → StartsWithout b'`' rest
    → read_quoted (replace_byte s b'`' (txt "``") ++ (b'`' ∷ rest)) ≡ (s, rest)
unfolding read_quoted replace_byte
read_quoted-replace [] [] h = refl
read_quoted-replace [] (c ∷ rest) h = ground arith
read_quoted-replace (c ∷ s) rest h = ground (arith, read_quoted-replace s rest h)

pub quoted_body :
    (s rest : Text)
    → escape_identifier s ++ rest ≡ b'`' ∷ (replace_byte s b'`' (txt "``") ++ (b'`' ∷ rest))
unfolding escape_identifier
quoted_body s rest = simp append_assoc

-- A quoted identifier ends where its own closing backtick stands, whatever bytes the name holds:
-- if two statements agree from a quoted identifier on, and no backtick follows either of them,
-- then the two names are the same and so is the text behind them.
pub escape_identifier_delimits :
    (s t rest rest' : Text)
    → StartsWithout b'`' rest
    → StartsWithout b'`' rest'
    → escape_identifier s ++ rest ≡ escape_identifier t ++ rest'
    → (s ≡ t) × (rest ≡ rest')
escape_identifier_delimits s t rest rest' h h' e =
    let same : (s, rest) ≡ (t, rest') =
      sym (read_quoted-replace s rest h)
      ∙ ap (λ u. read_quoted (tail u)) (sym (quoted_body s rest) ∙ e ∙ quoted_body t rest')
      ∙ read_quoted-replace t rest' h' in
    (ap (λ p. p.0) same, ap (λ p. p.1) same)
