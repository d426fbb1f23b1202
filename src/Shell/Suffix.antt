-- ===== src/Shell/Suffix.antt =====
-- A command without "X}" has no placeholder whose name ends in X.
use skeema.Prelude.{
  ℕ, Bool, false, ◌||◌, [], ◌∷◌, ◌++◌, Option, none, some, Text, txt, text_eq, ◌==◌, if◌then◌else◌,
  nat_beq, has_prefix, contains, to_upper, upper_byte, ◌≡◌, refl, ap, sym, ◌∙◌, arith, Bool-cases,
  Option-cases, inl, inr, nat_beq_iff,
}
use skeema.Shell.{without_x}
use skeema.Shell.Placeholders.{some_name, or_false, is_some}

-- A placeholder whose name ends in X makes the test for "X}" succeed.
contains-tail :
    (c : ℕ) (s : Text) → contains (c ∷ s) (txt "X}") ≡ false → contains s (txt "X}") ≡ false
unfolding contains
contains-tail c s h = (or_false (has_prefix (c ∷ s) (txt "X}")) (contains s (txt "X}")) h).1

contains-suffix :
    (a b : Text) → contains (a ++ b) (txt "X}") ≡ false → contains b (txt "X}") ≡ false
contains-suffix [] b h = h
contains-suffix (c ∷ a) b h = contains-suffix a b (contains-tail c (a ++ b) h)

no_x-before_brace :
    (u s : Text) → contains (u ++ (b'}' ∷ s)) (txt "X}") ≡ false → is_some (without_x u) ≡ false
unfolding contains has_prefix without_x
no_x-before_brace [] s h = refl
no_x-before_brace (c ∷ []) s h = ground arith
no_x-before_brace (c ∷ d ∷ u) s h =
    let rest = no_x-before_brace (d ∷ u) s (contains-tail c (d ∷ (u ++ (b'}' ∷ s))) h) in
    elim (Option-cases (without_x (d ∷ u))) [
      | inl missing ↦ simp missing
      | inr there ↦ absurd (cc (rest, ap is_some there.1))
    ]

to_upper-append : (a b : Text) → to_upper (a ++ b) ≡ to_upper a ++ to_upper b
to_upper-append [] b = refl
to_upper-append (c ∷ a) b = ap (◌∷◌ (upper_byte c)) (to_upper-append a b)

append_assoc : (a : Text) (c : ℕ) (s : Text) → (a ++ c ∷ []) ++ s ≡ a ++ c ∷ s
append_assoc [] c s = refl
append_assoc (x ∷ a) c s = ap (◌∷◌ x) (append_assoc a c s)

abbrev pub since_brace : Option Text → Text
since_brace none = []
since_brace (some name) = name

abbrev pub leaks : Text → Text → Bool
leaks secret u = (u == secret) || is_some (without_x u)

-- Without "X}" in a command no placeholder's name ends in X.
pub no_x-leaks :
    (secret : Text) (o : Option Text) (command : Text)
    → some_name (λ u. u == secret) o command ≡ false
    → contains (to_upper (since_brace o ++ command)) (txt "X}") ≡ false
    → some_name (leaks secret) o command ≡ false
unfolding some_name
no_x-leaks secret none [] h plain = refl
no_x-leaks secret (some name) [] h plain = refl
no_x-leaks secret none (c ∷ s) h plain =
    let pick = λ (b : Bool).
      if b then some_name (λ u. u == secret) (some []) s else some_name (λ u. u == secret) none s in
    let plain' = contains-tail (upper_byte c) (to_upper s) plain in
    elim (Bool-cases (nat_beq c b'{')) [
      | inl brace ↦ simp (brace, no_x-leaks secret (some []) s (sym (ap pick brace) ∙ h) plain')
      | inr other ↦ simp (other, no_x-leaks secret none s (sym (ap pick other) ∙ h) plain')
    ]
no_x-leaks secret (some name) (c ∷ s) h plain =
    let pick = λ (b : Bool).
      if b
      then (to_upper name == secret) || some_name (λ u. u == secret) none s
      else some_name (λ u. u == secret) (some (name ++ c ∷ [])) s in
    elim (Bool-cases (nat_beq c b'}')) [
      | inr other ↦
          let plain' =
            ap (λ (x : Text). contains (to_upper x) (txt "X}")) (append_assoc name c s) ∙ plain in
          simp (other, no_x-leaks secret (some (name ++ c ∷ [])) s (sym (ap pick other) ∙ h) plain')
      | inl brace ↦
          let parts =
            or_false (to_upper name == secret) (some_name (λ u. u == secret) none s)
              (sym (ap pick brace) ∙ h) in
          let is_brace = (nat_beq_iff c b'}').0 brace in
          let split =
            sym (
              ap (λ (x : Text). contains x (txt "X}"))
                (to_upper-append name (c ∷ s)
                  ∙ ap (λ (x : ℕ). to_upper name ++ (upper_byte x ∷ to_upper s)) is_brace))
            ∙ plain in
          let unhidden = no_x-before_brace (to_upper name) (to_upper s) split in
          let rest = no_x-leaks secret none s parts.1 (
            contains-tail b'}' (to_upper s)
              (contains-suffix (to_upper name) (b'}' ∷ to_upper s) split)) in
          simp (brace, parts.0, unhidden, rest)
    ]
