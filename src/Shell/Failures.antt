-- ===== src/Shell/Failures.antt =====
-- When NewInterpolatedShellOut returns an error, and when it panics.
use skeema.Prelude.{
  Bool, true, false, not, ◌&&◌, ◌||◌, List, [], ◌∷◌, ◌++◌, Option, none, some, Text, txt, is_empty,
  nat_beq, contains, to_upper, ◌≡◌, refl, ◌∙◌, arith, Bool-cases, Option-cases, inl, inr,
}
use skeema.Shell.{
  Replacement, value_of, hidden_value, unknown_variable, index_panic, find_variable, without_x,
  replace_shorter, replacement, Pass, literal, replaced, interpolate, new_interpolated_shell_out,
  last_error, unknown_error,
}
use skeema.Shell.Placeholders.{some_name, is_some}

abbrev is_panic : Replacement → Bool
is_panic index_panic = true
is_panic _ = false

abbrev is_unknown : Replacement → Bool
is_unknown unknown_variable = true
is_unknown _ = false

-- A name that is neither a variable's nor a variable's with an X suffix.
abbrev pub unknown_name : List (Text × Text) → Text → Bool
unknown_name variables upper =
    not (is_some (find_variable upper variables))
    && (not (is_empty upper)
        && not (elim (without_x upper) [
          | none ↦ false
          | some shorter ↦ is_some (find_variable shorter variables)
        ]))

replaced-panics :
    (d : Bool) (name : Text) (r : Replacement) (p : Pass)
    → (replaced d name r p).panics ≡ (is_panic r || p.panics)
replaced-panics true name (value_of value) p = refl
replaced-panics false name (value_of value) p = refl
replaced-panics true name (hidden_value value) p = refl
replaced-panics false name (hidden_value value) p = refl
replaced-panics true name unknown_variable p = refl
replaced-panics false name unknown_variable p = refl
replaced-panics true name index_panic p = refl
replaced-panics false name index_panic p = refl

unknown_error-is_some : (name : Text) (e : Option Text) → is_some (unknown_error name e) ≡ true
unknown_error-is_some name none = refl
unknown_error-is_some name (some later) = refl

replaced-error :
    (d : Bool) (name : Text) (r : Replacement) (p : Pass)
    → is_some (replaced d name r p).error ≡ (is_unknown r || is_some p.error)
replaced-error true name (value_of value) p = refl
replaced-error false name (value_of value) p = refl
replaced-error true name (hidden_value value) p = refl
replaced-error false name (hidden_value value) p = refl
replaced-error true name unknown_variable p = unknown_error-is_some name p.error
replaced-error false name unknown_variable p = unknown_error-is_some name p.error
replaced-error true name index_panic p = refl
replaced-error false name index_panic p = refl

shorter-kind :
    (o : Option Text) (vs : List (Text × Text))
    → (is_panic (replace_shorter o vs) ≡ false)
      × (is_unknown (replace_shorter o vs)
          ≡ not (elim o [ none ↦ false | some shorter ↦ is_some (find_variable shorter vs) ]))
shorter-kind none vs = (refl, refl)
shorter-kind (some shorter) vs = elim (Option-cases (find_variable shorter vs)) [
  | inl missing ↦ (simp missing, simp missing)
  | inr there ↦ (simp there.1, simp there.1)
]

find_variable-named :
    (u : Text) (vs : List (Text × Text)) (v : Text)
    → find_variable u vs ≡ some v
    → find_variable [] vs ≡ none
    → is_empty u ≡ false
find_variable-named [] vs v there unnamed = cc
find_variable-named (c ∷ u) vs v there unnamed = refl

replacement-kind :
    (vs : List (Text × Text)) (name : Text)
    → find_variable [] vs ≡ none
    → (is_panic (replacement vs name) ≡ is_empty (to_upper name))
      × (is_unknown (replacement vs name) ≡ unknown_name vs (to_upper name))
unfolding replacement
replacement-kind vs name unnamed =
    let upper = to_upper name in
    elim (Option-cases (find_variable upper vs)) [
      | inr there ↦
          let long = find_variable-named upper vs there.0 there.1 unnamed in
          (simp (there.1, long), simp (there.1, long))
      | inl missing ↦ elim (Bool-cases (is_empty upper)) [
        | inl empty ↦ (simp (missing, empty), simp (missing, empty))
        | inr long ↦
            let kind = shorter-kind (without_x upper) vs in
            (simp (missing, long) (kind.0), simp (missing, long) (kind.1))
      ]
    ]

-- A flag of a pass that each placeholder of some kind sets is a test on the names.
flag-some_name :
    (flag : Pass → Bool) (kind : Replacement → Bool) (test : Text → Bool) (d : Bool)
    (vs : List (Text × Text))
    → ((s : Text) → flag (record { text = s; error = none; panics = false }) ≡ false)
    → ((s : Text) (p : Pass) → flag (literal s p) ≡ flag p)
    → ((name : Text) (r : Replacement) (p : Pass) → flag (replaced d name r p) ≡ (kind r || flag p))
    → ((name : Text) → kind (replacement vs name) ≡ test (to_upper name))
    → (o : Option Text) (command : Text)
    → flag (interpolate d vs o command) ≡ some_name test o command
unfolding interpolate some_name
flag-some_name flag kind test d vs none' lit repl same none [] = none' []
flag-some_name flag kind test d vs none' lit repl same (some name) [] = none' (b'{' ∷ name)
flag-some_name flag kind test d vs none' lit repl same none (c ∷ s) =
    elim (Bool-cases (nat_beq c b'{')) [
      | inl brace ↦
          simp (brace) (flag-some_name flag kind test d vs none' lit repl same (some []) s)
      | inr other ↦ simp (other) (
          lit (c ∷ []) (interpolate d vs none s)
          ∙ flag-some_name flag kind test d vs none' lit repl same none s)
    ]
flag-some_name flag kind test d vs none' lit repl same (some name) (c ∷ s) =
    elim (Bool-cases (nat_beq c b'}')) [
      | inr other ↦
          simp (other)
            (flag-some_name flag kind test d vs none' lit repl same (some (name ++ c ∷ [])) s)
      | inl brace ↦ simp (brace) (
          repl name (replacement vs name) (interpolate d vs none s)
          ∙ (λ i. same name i || flag-some_name flag kind test d vs none' lit repl same none s i))
    ]

pass-panics :
    (d : Bool) (vs : List (Text × Text)) (command : Text)
    → find_variable [] vs ≡ none
    → (interpolate d vs none command).panics ≡ some_name is_empty none command
pass-panics d vs command unnamed =
    flag-some_name (λ p. p.panics) is_panic is_empty d vs (λ s. refl) (λ s p. refl)
      (replaced-panics d) (λ name. (replacement-kind vs name unnamed).0) none command

pass-fails :
    (d : Bool) (vs : List (Text × Text)) (command : Text)
    → find_variable [] vs ≡ none
    → is_some (interpolate d vs none command).error ≡ some_name (unknown_name vs) none command
pass-fails d vs command unnamed =
    flag-some_name (λ p. is_some p.error) is_unknown (unknown_name vs) d vs (λ s. refl)
      (λ s p. refl) (replaced-error d) (λ name. (replacement-kind vs name unnamed).1) none command

or_same : (a b c : Bool) → a ≡ c → b ≡ c → (a || b) ≡ c
or_same a b c p q = ground arith

last_error-is_some : (a b : Option Text) → is_some (last_error a b) ≡ (is_some a || is_some b)
last_error-is_some none none = refl
last_error-is_some (some a) none = refl
last_error-is_some none (some b) = refl
last_error-is_some (some a) (some b) = refl

-- NewInterpolatedShellOut, with no variable that has an empty name: it panics exactly if the command
-- has the placeholder {}; it sets an error exactly if some placeholder that is not {} has a name
-- that, whatever the case of its letters, is no variable's, and no variable's with an X after it.
pub new_interpolated_shell_out_failures :
    (command : Text) (variables : List (Text × Text))
    → find_variable [] variables ≡ none
    → ((new_interpolated_shell_out command variables).panics ≡ some_name is_empty none command)
      × (is_some (new_interpolated_shell_out command variables).error
          ≡ some_name (unknown_name variables) none command)
unfolding new_interpolated_shell_out
new_interpolated_shell_out_failures command variables unnamed =
    let run = interpolate false variables none command in
    let shown = interpolate true variables none command in
    let panics = λ (d : Bool). pass-panics d variables command unnamed in
    let fails = λ (d : Bool). pass-fails d variables command unnamed in
    elim (Bool-cases (contains (to_upper command) (txt "X}"))) [
      | inr no_x ↦ (simp (no_x) (panics false), simp (no_x) (fails false))
      | inl x ↦ (
        simp (x) (
            or_same run.panics shown.panics (some_name is_empty none command) (panics false)
              (panics true)),
        simp (x) (
            last_error-is_some run.error shown.error
            ∙ or_same (is_some run.error) (is_some shown.error)
                (some_name (unknown_name variables) none command) (fails false) (fails true)),
      )
    ]
