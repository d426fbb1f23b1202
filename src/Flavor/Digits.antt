-- ===== src/Flavor/Digits.antt =====
-- The digits that are printed of a number are read back, for internal/tengo/flavor.go.
use skeema.Prelude.{
  zero, suc, ◌+◌, ◌-◌, ◌*◌, ◌/◌, ◌%◌, ◌<◌, ◌≤◌, inl, inr, true, false, [], ◌∷◌, ◌++◌, none, some,
  Text, ◌≡◌, refl, ap, ◌∙◌, arith, ltb, nat_beq, is_digit, is_empty, itoa, itoa_onto, Bool-cases,
  All, nat_eq, ℕ, if◌then◌else◌, false,
}
use skeema.Flavor.{vendor_eq}
use skeema.Flavor.Parse.{Read, cut, parse_digits, parse_uint16, from_digit, take_digits}

unfoldable pub Digits : Text → Type 0
Digits = All (λ c. is_digit c ≡ true)

digit_byte : (n : ℕ) → n < 10 → is_digit (b'0' + n) ≡ true
digit_byte n h = ground arith

itoa_onto-Digits : (f n : ℕ) (acc : Text) → Digits acc → Digits (itoa_onto f n acc)
unfolding itoa_onto Digits
itoa_onto-Digits zero n acc h = h
itoa_onto-Digits (suc f) n acc h = elim (Bool-cases (ltb n 10)) [
  | inl e ↦ rw e (digit_byte n (ground arith), h)
  | inr e ↦
      rw e
        (itoa_onto-Digits f (n / 10) ((b'0' + n % 10) ∷ acc) (digit_byte (n % 10) (omega arith), h))
]

itoa_onto-nonempty :
    (f n : ℕ) (acc : Text) → is_empty acc ≡ false → is_empty (itoa_onto f n acc) ≡ false
unfolding itoa_onto
itoa_onto-nonempty zero n acc h = h
itoa_onto-nonempty (suc f) n acc h = elim (Bool-cases (ltb n 10)) [
  | inl e ↦ rw e refl
  | inr e ↦ rw e (itoa_onto-nonempty f (n / 10) ((b'0' + n % 10) ∷ acc) refl)
]

parse_digit :
    (a d : ℕ) (s : Text)
    → d < 10
    → a * 10 + d < 65536
    → parse_digits a ((b'0' + d) ∷ s) ≡ parse_digits (a * 10 + d) s
unfolding parse_digits
parse_digit a d s h k =
    let byte : (b'0' + d) - b'0' ≡ d = omega arith in
    let fits : ltb 65535 (a * 10 + d) ≡ false = ground arith in rw (digit_byte d h, byte, fits) refl

parse_digits-itoa_onto :
    (f n : ℕ) (acc : Text)
    → n < f
    → n < 65536
    → parse_digits 0 (itoa_onto f n acc) ≡ parse_digits n acc
unfolding itoa_onto
parse_digits-itoa_onto zero n acc h k = absurd (omega arith)
parse_digits-itoa_onto (suc f) n acc h k = elim (Bool-cases (ltb n 10)) [
  | inl e ↦
      let same : 0 * 10 + n ≡ n = omega arith in
      rw e (parse_digit 0 n acc (ground arith) (omega arith) ∙ ap (λ m. parse_digits m acc) same)
  | inr e ↦
      let whole : n / 10 * 10 + n % 10 ≡ n = omega arith in
      let big : 10 ≤ n = ground arith in
      rw e (
        parse_digits-itoa_onto f (n / 10) ((b'0' + n % 10) ∷ acc) (omega arith) (omega arith)
        ∙ parse_digit (n / 10) (n % 10) acc (omega arith) (omega arith)
        ∙ ap (λ m. parse_digits m acc) whole)
]

itoa-nonempty : (n : ℕ) → is_empty (itoa n) ≡ false
unfolding itoa itoa_onto
itoa-nonempty n = elim (Bool-cases (ltb n 10)) [
  | inl e ↦ rw e refl
  | inr e ↦ rw e (itoa_onto-nonempty n (n / 10) ((b'0' + n % 10) ∷ []) refl)
]

pub itoa-Digits : (n : ℕ) → Digits (itoa n)
unfolding itoa Digits
itoa-Digits n = itoa_onto-Digits (suc n) n [] tt

parse_uint16-nonempty : (s : Text) → is_empty s ≡ false → parse_uint16 s ≡ parse_digits 0 s
unfolding parse_uint16
parse_uint16-nonempty [] h = cc
parse_uint16-nonempty (c ∷ s) h = refl

pub parse_uint16-itoa :
    (n : ℕ) → n < 65536 → parse_uint16 (itoa n) ≡ record { value = n; ok = true }
unfolding itoa parse_digits
parse_uint16-itoa n h =
    parse_uint16-nonempty (itoa n) (itoa-nonempty n)
    ∙ parse_digits-itoa_onto (suc n) n [] (omega arith) h

parse_digit_above :
    (a d : ℕ) (s : Text)
    → d < 10
    → 65536 ≤ a * 10 + d
    → parse_digits a ((b'0' + d) ∷ s) ≡ record { value = 65535; ok = false }
unfolding parse_digits
parse_digit_above a d s h k =
    let byte : (b'0' + d) - b'0' ≡ d = omega arith in
    let above : ltb 65535 (a * 10 + d) ≡ true = ground arith in
    rw (digit_byte d h, byte, above) refl

parse_digits_above :
    (f n : ℕ) (acc : Text)
    → n < f
    → 65536 ≤ n
    → parse_digits 0 (itoa_onto f n acc) ≡ record { value = 65535; ok = false }
unfolding itoa_onto
parse_digits_above zero n acc h k = absurd (omega arith)
parse_digits_above (suc f) n acc h k = elim (Bool-cases (ltb n 10)) [
  | inl e ↦ absurd (ground arith)
  | inr e ↦ elim (Bool-cases (ltb (n / 10) 65536)) [
    | inl low ↦ rw e (
        parse_digits-itoa_onto f (n / 10) ((b'0' + n % 10) ∷ acc) (omega arith) (ground arith)
        ∙ parse_digit_above (n / 10) (n % 10) acc (omega arith) (omega arith))
    | inr high ↦
        rw e (parse_digits_above f (n / 10) ((b'0' + n % 10) ∷ acc) (omega arith) (ground arith))
  ]
]

-- What is read of a number that may have more than 16 bits.
abbrev pub saturated : ℕ → Read ℕ
saturated n = record { value = if ltb n 65536 then n else 65535; ok = ltb n 65536 }

pub parse_uint16-saturated : (n : ℕ) → parse_uint16 (itoa n) ≡ saturated n
unfolding itoa
parse_uint16-saturated n = elim (Bool-cases (ltb n 65536)) [
  | inl low ↦ rw low (parse_uint16-itoa n (ground arith))
  | inr high ↦ rw high (
      parse_uint16-nonempty (itoa n) (itoa-nonempty n)
      ∙ parse_digits_above (suc n) n [] (omega arith) (ground arith))
]

-- The byte is not in the text.
unfoldable pub Without : ℕ → Text → Type 0
Without sep = All (λ c. nat_beq c sep ≡ false)

pub Digits-Without : (sep : ℕ) (s : Text) → is_digit sep ≡ false → Digits s → Without sep s
unfolding Digits Without
Digits-Without sep [] h d = tt
Digits-Without sep (c ∷ s) h (d, ds) = (ground arith, Digits-Without sep s h ds)

pub cut-append :
    (sep : ℕ) (s rest : Text) → Without sep s → cut sep (s ++ (sep ∷ rest)) ≡ (s, some rest)
unfolding cut Without
cut-append sep [] rest h = ground arith
cut-append sep (c ∷ s) rest (h, hs) = rw (h, cut-append sep s rest hs) refl

pub cut-none : (sep : ℕ) (s : Text) → Without sep s → cut sep s ≡ (s, none)
unfolding cut Without
cut-none sep [] h = refl
cut-none sep (c ∷ s) (h, hs) = rw (h, cut-none sep s hs) refl

pub from_digit-Digits : (s : Text) → Digits s → from_digit s ≡ s
unfolding from_digit Digits
from_digit-Digits [] h = refl
from_digit-Digits (c ∷ s) (h, hs) = rw (from_digit, h) refl

pub take_digits-Digits : (s : Text) → Digits s → take_digits s ≡ s
unfolding take_digits Digits
take_digits-Digits [] h = refl
take_digits-Digits (c ∷ s) (h, hs) = rw (h, take_digits-Digits s hs) refl
