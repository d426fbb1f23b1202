-- ===== src/Lis/Subseq.antt =====
-- Increasing lists, and lists that arise from another one by leaving out elements.
use skeema.Prelude.{ℕ, suc, ◌<◌, ◌≡◌, refl, ap, List, [], ◌∷◌, ◌++◌, arith, length}
use skeema.Lis.{last_of}

-- Strictly increasing.
abbrev pub Increasing : List ℕ → Type 0
Increasing [] = Unit
Increasing (x ∷ []) = Unit
Increasing (x ∷ y ∷ l) = (x < y) × Increasing (y ∷ l)

-- The first list is the second one with elements left out.
pub data Subseq : List ℕ → List ℕ → Type 0 where
  stop : Subseq [] []
  keep : {l m : List ℕ} (x : ℕ) → Subseq l m → Subseq (x ∷ l) (x ∷ m)
  skip : {l m : List ℕ} (x : ℕ) → Subseq l m → Subseq l (x ∷ m)

pub Subseq-snoc : {l m : List ℕ} (x : ℕ) → Subseq l m → Subseq (l ++ x ∷ []) (m ++ x ∷ [])
Subseq-snoc x stop = keep x stop
Subseq-snoc x (keep y s) = keep y (Subseq-snoc x s)
Subseq-snoc x (skip y s) = skip y (Subseq-snoc x s)

pub Subseq-weaken : {l m : List ℕ} (x : ℕ) → Subseq l m → Subseq l (m ++ x ∷ [])
Subseq-weaken x stop = skip x stop
Subseq-weaken x (keep y s) = keep y (Subseq-weaken x s)
Subseq-weaken x (skip y s) = skip y (Subseq-weaken x s)

pub Subseq-nil : (m : List ℕ) → Subseq [] m
Subseq-nil [] = stop
Subseq-nil (x ∷ m) = skip x (Subseq-nil m)

-- A part of `m` with `x` behind it leaves `x` out, or ends in it.
pub data Unsnoc (l m : List ℕ) (x : ℕ) : Type 0 where
  left_out : Subseq l m → Unsnoc l m x
  ends : (k : List ℕ) → l ≡ k ++ x ∷ [] → Subseq k m → Unsnoc l m x

keep_at : {l m : List ℕ} (z y : ℕ) → z ≡ y → Subseq l m → Subseq (z ∷ l) (y ∷ m)
keep_at z y e s = rw e (keep y s)

snoc-Subseq_at : {l n : List ℕ} (m : List ℕ) (x : ℕ) → Subseq l n → n ≡ m ++ x ∷ [] → Unsnoc l m x
snoc-Subseq_at [] x stop e = cc
snoc-Subseq_at (y ∷ m) x stop e = cc
snoc-Subseq_at [] x (keep z stop) e = ends [] (ground arith) stop
snoc-Subseq_at [] x (keep z (keep w s)) e = ground arith
snoc-Subseq_at [] x (keep z (skip w s)) e = ground arith
snoc-Subseq_at [] x (skip z stop) e = left_out stop
snoc-Subseq_at [] x (skip z (keep w s)) e = ground arith
snoc-Subseq_at [] x (skip z (skip w s)) e = ground arith
snoc-Subseq_at (y ∷ m) x (keep {l} z s) e = elim (snoc-Subseq_at m x s (ground arith)) [
  | left_out t ↦ left_out (keep_at z y (ground arith) t)
  | ends k q t ↦ ends (z ∷ k) (ap (◌∷◌ z) q) (keep_at z y (ground arith) t)
]
snoc-Subseq_at (y ∷ m) x (skip z s) e = elim (snoc-Subseq_at m x s (ground arith)) [
  | left_out t ↦ left_out (skip y t)
  | ends k q t ↦ ends k q (skip y t)
]

pub snoc-Subseq : {l : List ℕ} (m : List ℕ) (x : ℕ) → Subseq l (m ++ x ∷ []) → Unsnoc l m x
snoc-Subseq m x s = snoc-Subseq_at m x s refl

pub Subseq-refl : (m : List ℕ) → Subseq m m
Subseq-refl [] = stop
Subseq-refl (x ∷ m) = keep x (Subseq-refl m)

pub last_of-snoc : (l : List ℕ) (x : ℕ) → last_of (l ++ x ∷ []) ≡ x
last_of-snoc [] x = refl
last_of-snoc (y ∷ []) x = refl
last_of-snoc (y ∷ z ∷ l) x = last_of-snoc (z ∷ l) x

pub length-snoc : (l : List ℕ) (x : ℕ) → length (l ++ x ∷ []) ≡ suc (length l)
length-snoc [] x = refl
length-snoc (y ∷ l) x = ap suc (length-snoc l x)

pub Increasing-snoc : (l : List ℕ) (x : ℕ) → Increasing l → last_of l < x → Increasing (l ++ x ∷ [])
Increasing-snoc [] x h lt = tt
Increasing-snoc (y ∷ []) x h lt = (lt, tt)
Increasing-snoc (y ∷ z ∷ l) x h lt = (h.0, Increasing-snoc (z ∷ l) x h.1 lt)

pub Increasing-unsnoc :
    (y : ℕ) (l : List ℕ) (x : ℕ)
    → Increasing ((y ∷ l) ++ x ∷ [])
    → Increasing (y ∷ l) × (last_of (y ∷ l) < x)
Increasing-unsnoc y [] x h = (tt, h.0)
Increasing-unsnoc y (z ∷ l) x h = let rest = Increasing-unsnoc z l x h.1 in ((h.0, rest.0), rest.1)
