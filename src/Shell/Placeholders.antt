-- ===== src/Shell/Placeholders.antt =====
-- The placeholders of a command, and the text that a pass over it writes.
use skeema.Prelude.{
  Bool, true, false, ◌||◌, List, [], ◌∷◌, ◌++◌, Option, none, some, Text, txt, text_eq,
  if◌then◌else◌, nat_beq, to_upper, ◌≡◌, refl, ap, sym, ◌∙◌, arith, Bool-cases, inl, inr,
}
use skeema.Shell.{
  Replacement, value_of, hidden_value, unknown_variable, index_panic, replacement, Pass, replaced,
  braced, interpolate, escape_var_value,
}

-- What a placeholder puts into the text.
abbrev pub shown : Bool → Text → Replacement → Text
shown d name (value_of value) = escape_var_value value
shown true name (hidden_value value) = txt "XXXXX"
shown false name (hidden_value value) = escape_var_value value
shown d name unknown_variable = braced name
shown d name index_panic = []

pub replaced-text :
    (d : Bool) (name : Text) (r : Replacement) (p : Pass)
    → (replaced d name r p).text ≡ shown d name r ++ p.text
replaced-text true name (value_of value) p = refl
replaced-text false name (value_of value) p = refl
replaced-text true name (hidden_value value) p = refl
replaced-text false name (hidden_value value) p = refl
replaced-text true name unknown_variable p = refl
replaced-text false name unknown_variable p = refl
replaced-text true name index_panic p = refl
replaced-text false name index_panic p = refl

-- A test on the names of the placeholders of a command, in upper case.
unfoldable pub some_name : (Text → Bool) → Option Text → Text → Bool
some_name test none [] = false
some_name test (some name) [] = false
some_name test none (c ∷ s) =
    let opened = some_name test (some []) s in
    let more = some_name test none s in if nat_beq c b'{' then opened else more
some_name test (some name) (c ∷ s) =
    let closed = test (to_upper name) || some_name test none s in
    let more = some_name test (some (name ++ c ∷ [])) s in if nat_beq c b'}' then closed else more

pub or_false : (a b : Bool) → (a || b) ≡ false → (a ≡ false) × (b ≡ false)
or_false a b h = (ground arith, ground arith)

-- Two maps of variables write the same text if they do so at each placeholder.
pub same_text :
    (d : Bool) (test : Text → Bool) (vs ws : List (Text × Text))
    → ((name : Text)
        → test (to_upper name) ≡ false
        → shown d name (replacement vs name) ≡ shown d name (replacement ws name))
    → (o : Option Text) (command : Text) → some_name test o command ≡ false
    → (interpolate d vs o command).text ≡ (interpolate d ws o command).text
unfolding interpolate some_name
same_text d test vs ws same none [] h = refl
same_text d test vs ws same (some name) [] h = refl
same_text d test vs ws same none (c ∷ s) h = elim (Bool-cases (nat_beq c b'{')) [
  | inl brace ↦
      let h' =
        sym
          (ap (λ (b : Bool). if b then some_name test (some []) s else some_name test none s) brace)
        ∙ h in
      simp (brace, same_text d test vs ws same (some []) s h')
  | inr other ↦
      let h' =
        sym
          (ap (λ (b : Bool). if b then some_name test (some []) s else some_name test none s) other)
        ∙ h in
      simp (other, same_text d test vs ws same none s h')
]
same_text d test vs ws same (some name) (c ∷ s) h =
    let pick = λ (b : Bool).
      if b
      then test (to_upper name) || some_name test none s
      else some_name test (some (name ++ c ∷ [])) s in
    elim (Bool-cases (nat_beq c b'}')) [
      | inl brace ↦
          let h' =
            or_false (test (to_upper name)) (some_name test none s) (sym (ap pick brace) ∙ h) in
          simp (
            brace,
            replaced-text d name (replacement vs name) (interpolate d vs none s),
            replaced-text d name (replacement ws name) (interpolate d ws none s),
            same name h'.0,
            same_text d test vs ws same none s h'.1,
          )
      | inr other ↦
          let h' = sym (ap pick other) ∙ h in
          simp (other, same_text d test vs ws same (some (name ++ c ∷ [])) s h')
    ]

abbrev pub is_some {ℓ} : {A : Type ℓ} → Option A → Bool
is_some none = false
is_some (some a) = true
