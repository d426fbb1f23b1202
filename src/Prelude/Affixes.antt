-- ===== src/Prelude/Affixes.antt =====
-- What stands at the front and at the end of a list.
use Prim.Native.Nat.{ℕ, zero, suc, ◌-◌}
use mathlib.Core.Path.{◌≡◌, refl, ap}
use mathlib.Core.Bool.{true}
use mathlib.Core.List.{List, [], ◌∷◌, ◌++◌}
use native.Mathlib.Omega.{arith}
use skeema.Prelude.Lists.{length, take, drop, length-append}
use skeema.Prelude.Tests.{leb, ==_refl}
use skeema.Prelude.Strings.{Text, text_beq, text_eq, has_suffix}

module _ {ℓ} {A : Type ℓ} where
  pub take-append : (xs ys : List A) → take (length xs) (xs ++ ys) ≡ xs
  take-append [] ys = refl
  take-append (x ∷ xs) ys = ap (◌∷◌ x) (take-append xs ys)

  pub drop-append : (xs ys : List A) → drop (length xs) (xs ++ ys) ≡ ys
  drop-append [] ys = refl
  drop-append (x ∷ xs) ys = drop-append xs ys

  pub take-drop : (n : ℕ) (xs : List A) → take n xs ++ drop n xs ≡ xs
  take-drop zero xs = refl
  take-drop (suc n) [] = refl
  take-drop (suc n) (x ∷ xs) = ap (◌∷◌ x) (take-drop n xs)

-- The length of a text with a suffix, less the suffix.
pub length-append_sub : (s suffix : Text) → length (s ++ suffix) - length suffix ≡ length s
length-append_sub s suffix = omega (arith, length-append s suffix)

text_beq_self : (s : Text) → text_beq s s ≡ true
unfolding text_eq
text_beq_self s = ==_refl s

pub has_suffix-append : (s suffix : Text) → has_suffix (s ++ suffix) suffix ≡ true
unfolding has_suffix
has_suffix-append s suffix =
    let fits : leb (length suffix) (length (s ++ suffix)) ≡ true =
      ground (arith, length-append s suffix) in
    rw (fits, length-append_sub s suffix, drop-append s suffix) (text_beq_self suffix)
