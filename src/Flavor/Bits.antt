-- ===== src/Flavor/Bits.antt =====
-- Flag sets held in one number: `fl.Variants & other.Variants == other.Variants` reads that every
-- flag of `other` is set in `fl`, and such inclusion is a preorder at every width.
use Prim.Native.Nat.{min, bit_and, digits, bit_and-bitwise}
use skeema.Prelude.{ℕ, zero, suc, ◌+◌, ◌*◌, ◌/◌, ◌%◌, ◌≤◌, ◌≡◌, refl, arith}

-- Every flag of the second number is set in the first.
abbrev pub Covers : ℕ → ℕ → Type 0
Covers a b = bit_and a b ≡ b

abbrev and_upto : ℕ → ℕ → ℕ → ℕ
and_upto bound a b = digits (λ _. zero) min bound a b

-- Any two bounds that reach `a` give the same digits.
and_upto_bound : (k l : ℕ) (a b : ℕ) → a ≤ k → a ≤ l → and_upto k a b ≡ and_upto l a b
and_upto_bound zero zero a b hk hl = refl
and_upto_bound zero (suc l) (suc a) b hk hl = absurd (omega arith)
and_upto_bound zero (suc l) zero b hk hl = refl
and_upto_bound (suc k) zero (suc a) b hk hl = absurd (omega arith)
and_upto_bound (suc k) zero zero b hk hl = refl
and_upto_bound (suc k) (suc l) zero b hk hl = refl
and_upto_bound (suc k) (suc l) (suc a) b hk hl =
    omega (arith, and_upto_bound k l (suc a / 2) (b / 2) (omega arith) (omega arith))

bit_and_zero_left : (b : ℕ) → bit_and 0 b ≡ 0
bit_and_zero_left b = bit_and-bitwise 0 b

-- The lowest digit, and the rest.
bit_and_halves : (a b : ℕ) → bit_and a b ≡ bit_and (a / 2) (b / 2) * 2 + min (a % 2) (b % 2)
bit_and_halves zero b = omega (arith, bit_and_zero_left b, bit_and_zero_left (b / 2))
bit_and_halves (suc a) b =
    let rest = and_upto_bound a (suc a / 2) (suc a / 2) (b / 2) (omega arith) (omega arith) in
    omega (arith, rest, bit_and-bitwise (suc a) b, bit_and-bitwise (suc a / 2) (b / 2))

Covers-zero_below : (n a : ℕ) → a ≤ n → Covers a 0
Covers-zero_below n zero h = refl
Covers-zero_below zero (suc a) h = absurd (omega arith)
Covers-zero_below (suc n) (suc a) h =
    omega (arith, Covers-zero_below n (suc a / 2) (omega arith), bit_and_halves (suc a) 0)

pub Covers-zero : (a : ℕ) → Covers a 0
Covers-zero a = Covers-zero_below a a (omega arith)

Covers-refl_below : (n a : ℕ) → a ≤ n → Covers a a
Covers-refl_below n zero h = refl
Covers-refl_below zero (suc a) h = absurd (omega arith)
Covers-refl_below (suc n) (suc a) h =
    omega (arith, Covers-refl_below n (suc a / 2) (omega arith), bit_and_halves (suc a) (suc a))

pub Covers-refl : (a : ℕ) → Covers a a
Covers-refl a = Covers-refl_below a a (omega arith)

Covers-trans_below : (n a b c : ℕ) → c ≤ n → Covers a b → Covers b c → Covers a c
Covers-trans_below n a b zero h p q = Covers-zero a
Covers-trans_below zero a b (suc c) h p q = absurd (omega arith)
Covers-trans_below (suc n) a b (suc c) h p q =
    let ab : Covers (a / 2) (b / 2) = omega (arith, bit_and_halves a b) in
    let bc : Covers (b / 2) (suc c / 2) = omega (arith, bit_and_halves b (suc c)) in
    omega (
      arith,
      Covers-trans_below n (a / 2) (b / 2) (suc c / 2) (omega arith) ab bc,
      bit_and_halves a b,
      bit_and_halves b (suc c),
      bit_and_halves a (suc c),
    )

pub Covers-trans : (a b c : ℕ) → Covers a b → Covers b c → Covers a c
Covers-trans a b c = Covers-trans_below c a b c (omega arith)
