-- ===== src/Prelude/Strings.antt =====
-- Go strings as lists of bytes, with the functions of package strings that the source calls.
-- Case mapping and digits are those of ASCII.
use Prim.Native.Char.{code}
use Prim.Native.Nat.{ℕ, zero, suc, ◌+◌, ◌-◌, ◌/◌, ◌%◌}
use Prim.Native.String.{String}
use mathlib.Core.Path.{◌≡◌}
use mathlib.Core.Logic.{◌↔◌}
use mathlib.Core.Bool.{Bool, true, false, ◌&&◌, ◌||◌}
use mathlib.Core.Option.{Option, none, some}
use mathlib.Core.List.{List, [], ◌∷◌, ◌++◌, map}
use native.Mathlib.Omega.{arith}
use skeema.Prelude.Lists.{length, drop}
use skeema.Prelude.Tests.{Eq, nat_beq, if◌then◌else◌, leb, ltb}

abbrev pub Text : Type 0
Text = List ℕ

-- A literal of the source. All are ASCII, so code points are bytes.
abbrev pub txt : String → Text
txt String.[] = []
txt (String.◌∷◌ c s) = code c ∷ txt s

pub text_beq : Text → Text → Bool
text_beq [] [] = true
text_beq (x ∷ xs) (y ∷ ys) = nat_beq x y && text_beq xs ys
text_beq _ _ = false

pub text_beq_iff : (a b : Text) → (text_beq a b ≡ true) ↔ (a ≡ b)
unfolding text_beq
text_beq_iff (x ∷ a) (y ∷ b) = ground (arith, text_beq_iff a b)
text_beq_iff _ _ = ground arith

instance unfoldable pub text_eq : Eq Text
unfolding text_beq
text_eq = record { beq = text_beq; beq_iff = text_beq_iff }

-- strings.HasPrefix
unfoldable pub has_prefix : Text → Text → Bool
has_prefix s [] = true
has_prefix [] (p ∷ ps) = false
has_prefix (c ∷ s) (p ∷ ps) = nat_beq c p && has_prefix s ps

-- strings.HasSuffix
unfoldable pub has_suffix : Text → Text → Bool
unfolding text_beq
has_suffix s suffix =
    leb (length suffix) (length s) && text_beq (drop (length s - length suffix) s) suffix

-- strings.Contains
unfoldable pub contains : Text → Text → Bool
unfolding has_prefix
contains [] sub = has_prefix [] sub
contains (c ∷ s) sub = has_prefix (c ∷ s) sub || contains s sub

-- bytes that may be missing: the position of the first byte `b`, as strings.IndexByte
unfoldable pub index_byte : Text → ℕ → Option ℕ
index_byte [] b = none
index_byte (c ∷ s) b =
    if nat_beq c b then some 0 else elim (index_byte s b) [ none ↦ none | some i ↦ some (suc i) ]

-- strings.Replace(s, old, new, -1) for an `old` of one byte
unfoldable pub replace_byte : Text → ℕ → Text → Text
replace_byte [] old new = []
replace_byte (c ∷ s) old new = (if nat_beq c old then new else c ∷ []) ++ replace_byte s old new

-- strings.Replace(s, old, new, 1) for a non-empty `old`
unfoldable pub replace_first : Text → Text → Text → Text
unfolding has_prefix
replace_first [] old new = []
replace_first (c ∷ s) old new =
    let rest = c ∷ replace_first s old new in
    if has_prefix (c ∷ s) old then new ++ drop (length old) (c ∷ s) else rest

abbrev pub lower_byte : ℕ → ℕ
lower_byte c = if leb b'A' c && leb c b'Z' then c + 32 else c

abbrev pub upper_byte : ℕ → ℕ
upper_byte c = if leb b'a' c && leb c b'z' then c - 32 else c

-- strings.ToLower
abbrev pub to_lower : Text → Text
to_lower = map lower_byte

-- strings.ToUpper
abbrev pub to_upper : Text → Text
to_upper = map upper_byte

-- strings.Join
unfoldable pub join : Text → List Text → Text
join sep [] = []
join sep (x ∷ []) = x
join sep (x ∷ y ∷ xs) = x ++ (sep ++ join sep (y ∷ xs))

abbrev pub is_digit : ℕ → Bool
is_digit c = leb b'0' c && leb c b'9'

unfoldable pub itoa_onto : ℕ → ℕ → Text → Text
itoa_onto zero n acc = acc
itoa_onto (suc f) n acc =
    let rest = itoa_onto f (n / 10) ((b'0' + n % 10) ∷ acc) in
    if ltb n 10 then (b'0' + n) ∷ acc else rest

-- "%d" of a natural number: one more digit than `n` itself is fuel enough
unfoldable pub itoa : ℕ → Text
unfolding itoa_onto
itoa n = itoa_onto (suc n) n []

abbrev pub is_empty : Text → Bool
is_empty [] = true
is_empty (_ ∷ _) = false
