-- ===== src/Shell/Hidden.antt =====
-- What ShellOut.String shows of a value that stands only under a name with an X suffix.
use skeema.Prelude.{
  Bool, true, false, ◌||◌, List, [], ◌∷◌, ◌++◌, Option, none, some, Text, txt, text_eq, ◌==◌,
  if◌then◌else◌, is_empty, nat_beq, contains, to_upper, ◌≡◌, refl, ap, sym, ◌∙◌, Bool-cases,
  Option-cases, inl, inr, eq_of_==,
}
use skeema.Shell.{
  Replacement, value_of, hidden_value, unknown_variable, index_panic, find_variable, without_x,
  hidden_or_unknown, replace_shorter, replace_known, replacement, literal, replaced, interpolate,
  escape_var_value, shell_out_text, new_interpolated_shell_out,
}
use skeema.Shell.Placeholders.{shown, replaced-text, some_name, or_false, is_some, same_text}
use skeema.Shell.Suffix.{leaks, no_x-leaks}

-- Two maps of variables that differ in the value of one name only.
pub record AgreeBut (secret : Text) (vs ws : List (Text × Text)) : Type 0 where
  pub others :
      (name : Text) → (name == secret) ≡ false → find_variable name vs ≡ find_variable name ws
  pub left : (v : Text) × (find_variable secret vs ≡ some v)
  pub right : (w : Text) × (find_variable secret ws ≡ some w)

module _ (secret : Text) (vs ws : List (Text × Text)) (agree : AgreeBut secret vs ws) where
  shorter-shown :
      (name : Text) (o : Option Text)
      → shown true name (replace_shorter o vs) ≡ shown true name (replace_shorter o ws)
  shorter-shown name none = refl
  shorter-shown name (some shorter) = elim (Bool-cases (shorter == secret)) [
    | inl same ↦
        let e = eq_of_== shorter secret same in
        let left = ap (λ (x : Text). find_variable x vs) e ∙ agree.left.1 in
        let right = ap (λ (x : Text). find_variable x ws) e ∙ agree.right.1 in simp (left, right)
    | inr other ↦
        ap (λ (o : Option Text). shown true name (hidden_or_unknown o)) (agree.others shorter other)
  ]

  known-shown :
      (name upper : Text) (o : Option Text)
      → shown true name (replace_known o upper vs) ≡ shown true name (replace_known o upper ws)
  known-shown name upper (some value) = refl
  known-shown name upper none = elim (Bool-cases (is_empty upper)) [
    | inl empty ↦ simp empty
    | inr long ↦ simp (long) (shorter-shown name (without_x upper))
  ]

  display-same :
      (name : Text)
      → (to_upper name == secret) ≡ false
      → shown true name (replacement vs name) ≡ shown true name (replacement ws name)
  unfolding replacement
  display-same name other =
      known-shown name (to_upper name) (find_variable (to_upper name) vs)
      ∙ ap (λ (o : Option Text). shown true name (replace_known o (to_upper name) ws))
          (agree.others (to_upper name) other)

  plain-same :
      (name upper : Text) (o : Option Text)
      → without_x upper ≡ none
      → shown false name (replace_known o upper vs) ≡ shown false name (replace_known o upper ws)
  plain-same name upper (some value) missing = refl
  plain-same name upper none missing = simp missing

  run-same :
      (name : Text)
      → ((to_upper name == secret) || is_some (without_x (to_upper name))) ≡ false
      → shown false name (replacement vs name) ≡ shown false name (replacement ws name)
  unfolding replacement
  run-same name h =
      let parts = or_false (to_upper name == secret) (is_some (without_x (to_upper name))) h in
      elim (Option-cases (without_x (to_upper name))) [
        | inr there ↦ absurd (cc (parts.1, ap is_some there.1))
        | inl missing ↦
            plain-same name (to_upper name) (find_variable (to_upper name) vs) missing
            ∙ ap (λ (o : Option Text). shown false name (replace_known o (to_upper name) ws))
                (agree.others (to_upper name) parts.0)
      ]

nil_of_is_empty : (s : Text) → is_empty s ≡ true → s ≡ []
nil_of_is_empty [] h = refl
nil_of_is_empty (c ∷ s) h = cc

is_empty-append :
    (a b : Text) → is_empty (a ++ b) ≡ true → (is_empty a ≡ true) × (is_empty b ≡ true)
is_empty-append [] b h = (refl, h)
is_empty-append (c ∷ a) b h = cc

shown-empty :
    (name : Text) (r : Replacement) → is_empty (shown true name r) ≡ true → shown false name r ≡ []
shown-empty name (value_of value) h = nil_of_is_empty (escape_var_value value) h
shown-empty name (hidden_value value) h = cc
shown-empty name unknown_variable h = cc
shown-empty name index_panic h = refl

-- A pass for display that writes nothing has no hidden value, so the command is empty too.
empty_command :
    (vs : List (Text × Text)) (o : Option Text) (command : Text)
    → is_empty (interpolate true vs o command).text ≡ true
    → (interpolate false vs o command).text ≡ []
unfolding interpolate
empty_command vs none [] h = refl
empty_command vs (some name) [] h = cc
empty_command vs none (c ∷ s) h =
    let pick = λ (b : Bool).
      is_empty
        (if b
          then interpolate true vs (some []) s
          else literal (c ∷ []) (interpolate true vs none s)).text in
    elim (Bool-cases (nat_beq c b'{')) [
      | inl brace ↦ simp (brace, empty_command vs (some []) s (sym (ap pick brace) ∙ h))
      | inr other ↦ absurd (cc (sym (ap pick other) ∙ h))
    ]
empty_command vs (some name) (c ∷ s) h =
    let r = replacement vs name in
    let pick = λ (b : Bool).
      is_empty
        (if b
          then replaced true name r (interpolate true vs none s)
          else interpolate true vs (some (name ++ c ∷ [])) s).text in
    elim (Bool-cases (nat_beq c b'}')) [
      | inr other ↦
          simp (other, empty_command vs (some (name ++ c ∷ [])) s (sym (ap pick other) ∙ h))
      | inl brace ↦
          let parts = is_empty-append (shown true name r) (interpolate true vs none s).text (
            sym (ap is_empty (replaced-text true name r (interpolate true vs none s)))
            ∙ (sym (ap pick brace) ∙ h)) in
          simp (
            brace,
            replaced-text false name r (interpolate false vs none s),
            shown-empty name r parts.0,
            empty_command vs none s parts.1,
          )
    ]

-- Where a command has "X}", ShellOut.String is the pass for display.
shown_for_display :
    (vs : List (Text × Text)) (command : Text)
    → contains (to_upper command) (txt "X}") ≡ true
    → shell_out_text (new_interpolated_shell_out command vs).shell_out
      ≡ (interpolate true vs none command).text
unfolding new_interpolated_shell_out
shown_for_display vs command x =
    elim (Bool-cases (is_empty (interpolate true vs none command).text)) [
      | inr long ↦ simp (x, long)
      | inl empty ↦
          simp (x, empty)
            (empty_command vs none command empty
              ∙ sym (nil_of_is_empty (interpolate true vs none command).text empty))
    ]

shown_as_run :
    (vs : List (Text × Text)) (command : Text)
    → contains (to_upper command) (txt "X}") ≡ false
    → shell_out_text (new_interpolated_shell_out command vs).shell_out
      ≡ (interpolate false vs none command).text
unfolding new_interpolated_shell_out
shown_as_run vs command no_x = simp no_x

-- ShellOut.String does not depend on a value that the command has only under a name with an X
-- suffix: for two maps of variables that differ in the value of one name only, and a command with no
-- placeholder that is that name, whatever the case of its letters, the texts shown are the same.
pub shell_out_text_hides_secret :
    (secret command : Text) (vs ws : List (Text × Text))
    → AgreeBut secret vs ws
    → some_name (λ u. u == secret) none command ≡ false
    → shell_out_text (new_interpolated_shell_out command vs).shell_out
      ≡ shell_out_text (new_interpolated_shell_out command ws).shell_out
shell_out_text_hides_secret secret command vs ws agree h =
    elim (Bool-cases (contains (to_upper command) (txt "X}"))) [
      | inl x ↦
          shown_for_display vs command x
          ∙ (same_text true (λ u. u == secret) vs ws (display-same secret vs ws agree) none command
                h
              ∙ sym (shown_for_display ws command x))
      | inr no_x ↦
          shown_as_run vs command no_x
          ∙ (same_text false (leaks secret) vs ws (run-same secret vs ws agree) none command
                (no_x-leaks secret none command h no_x)
              ∙ sym (shown_as_run ws command no_x))
    ]
