-- ===== src/Lis/Step.antt =====
-- The invariant of the candidate lists, and that one round of the outer loop keeps it: list j holds
-- j + 1 elements, increasing, taken from the input read so far, and no other such choice of j + 1
-- elements ends lower.
use skeema.Prelude.{
  ℕ, zero, suc, ◌<◌, ◌≤◌, ◌≡◌, ◌≢◌, refl, ap, sym, ◌∙◌, List, [], ◌∷◌, ◌++◌, arith, length,
  get_elem?, Option, some, ℕ_discrete, get_elem?_lt, dec_lt,
}
use skeema.Lis.{last_of}
use skeema.Lis.Subseq.{
  Increasing, Subseq, left_out, ends, Subseq-weaken, snoc-Subseq, last_of-snoc, length-snoc,
  Increasing-unsnoc,
}

pub record Candidates (lists : List (List ℕ)) (seen : List ℕ) : Type 0 where
  pub some_list : 0 < length lists
  pub sized : (j : ℕ) (l : List ℕ) → get_elem? lists j ≡ some l → length l ≡ suc j
  pub increasing : (j : ℕ) (l : List ℕ) → get_elem? lists j ≡ some l → Increasing l
  pub chosen : (j : ℕ) (l : List ℕ) → get_elem? lists j ≡ some l → Subseq l seen
  pub rising :
      (i j : ℕ) (l m : List ℕ)
      → i < j
      → get_elem? lists i ≡ some l
      → get_elem? lists j ≡ some m
      → last_of l < last_of m
  pub best :
      (ys : List ℕ) (j : ℕ)
      → Increasing ys
      → Subseq ys seen
      → length ys ≡ suc j
      → (l : List ℕ) × (get_elem? lists j ≡ some l) × (last_of l ≤ last_of ys)

-- One list is put at place i: it ends in the number just read, every list below ends lower, every
-- list above ends higher, and the list that stood there ended no lower.
pub record Put (lists after : List (List ℕ)) (seen : List ℕ) (comp i : ℕ) (new : List ℕ)
    : Type 0 where
  pub others : (k : ℕ) → i ≢ k → get_elem? after k ≡ get_elem? lists k
  pub here : get_elem? after i ≡ some new
  pub new_length : length new ≡ suc i
  pub new_increasing : Increasing new
  pub new_chosen : Subseq new (seen ++ comp ∷ [])
  pub new_last : last_of new ≡ comp
  pub before : (l : List ℕ) → get_elem? lists i ≡ some l → comp ≤ last_of l
  pub lower : (k : ℕ) → k < i → (l : List ℕ) × (get_elem? lists k ≡ some l) × (last_of l < comp)
  pub upper : (k : ℕ) (l : List ℕ) → i < k → get_elem? lists k ≡ some l → comp < last_of l

some-eq : {l m : List ℕ} {o : Option (List ℕ)} → o ≡ some l → o ≡ some m → l ≡ m
some-eq p q = cc

module _ {lists after : List (List ℕ)} {seen : List ℕ} {comp i : ℕ} {new : List ℕ}
    (c : Candidates lists seen) (p : Put lists after seen comp i new) where
  put_new : (l : List ℕ) → get_elem? after i ≡ some l → l ≡ new
  put_new l e = some-eq e p.here

  put_old : (j : ℕ) (l : List ℕ) → i ≢ j → get_elem? after j ≡ some l → get_elem? lists j ≡ some l
  put_old j l ne e = sym (p.others j ne) ∙ e

  put_sized : (j : ℕ) (l : List ℕ) → get_elem? after j ≡ some l → length l ≡ suc j
  put_sized j l e = elim (ℕ_discrete i j) [
    | yes q ↦ ap length (put_new l (rw q e)) ∙ p.new_length ∙ ap suc q
    | no ne ↦ c.sized j l (put_old j l ne e)
  ]

  put-Increasing : (j : ℕ) (l : List ℕ) → get_elem? after j ≡ some l → Increasing l
  put-Increasing j l e = elim (ℕ_discrete i j) [
    | yes q ↦ rw (put_new l (rw q e)) p.new_increasing
    | no ne ↦ c.increasing j l (put_old j l ne e)
  ]

  put_chosen : (j : ℕ) (l : List ℕ) → get_elem? after j ≡ some l → Subseq l (seen ++ comp ∷ [])
  put_chosen j l e = elim (ℕ_discrete i j) [
    | yes q ↦ rw (put_new l (rw q e)) p.new_chosen
    | no ne ↦ Subseq-weaken comp (c.chosen j l (put_old j l ne e))
  ]

  -- What ends below a position, whichever list stands there.
  lower_last : (k : ℕ) (l : List ℕ) → k < i → get_elem? lists k ≡ some l → last_of l < comp
  lower_last k l h e = let (m, q, lt) = p.lower k h in rw (some-eq e q) lt

  put_rising :
      (j k : ℕ) (l m : List ℕ)
      → j < k
      → get_elem? after j ≡ some l
      → get_elem? after k ≡ some m
      → last_of l < last_of m
  put_rising j k l m h e f = elim (ℕ_discrete i j) [
    | yes q ↦
        let above = p.upper k m (omega arith) (put_old k m (omega arith) f) in
        omega (arith, ap last_of (put_new l (rw q e)), p.new_last, above)
    | no ne ↦ elim (ℕ_discrete i k) [
      | yes q ↦
          let under = lower_last j l (omega arith) (put_old j l ne e) in
          omega (arith, ap last_of (put_new m (rw q f)), p.new_last, under)
      | no ne' ↦ c.rising j k l m h (put_old j l ne e) (put_old k m ne' f)
    ]
  ]

  -- The new list, or the old one, ends no higher than a choice that ended no lower before.
  put_best_at :
      (j : ℕ) (l : List ℕ) (bound : ℕ)
      → get_elem? lists j ≡ some l
      → last_of l ≤ bound
      → (m : List ℕ) × (get_elem? after j ≡ some m) × (last_of m ≤ bound)
  put_best_at j l bound e h = elim (ℕ_discrete i j) [
    | yes q ↦ (new, rw (← q) p.here, omega (arith, p.new_last, p.before l (rw q e)))
    | no ne ↦ (l, p.others j ne ∙ e, h)
  ]

  -- At place 0, and above a list that ends lower than the number read, something ends at most there.
  put_reaches :
      (j : ℕ)
      → ((k : ℕ) → suc k ≡ j → (l : List ℕ) × (get_elem? lists k ≡ some l) × (last_of l < comp))
      → (m : List ℕ) × (get_elem? after j ≡ some m) × (last_of m ≤ comp)
  put_reaches j from = elim (ℕ_discrete i j) [
    | yes q ↦ (new, rw (← q) p.here, omega (arith, p.new_last))
    | no ne ↦ elim (dec_lt j i) [
      | yes lt ↦ let (m, e, h) = p.lower j lt in (m, p.others j ne ∙ e, omega arith)
      | no ge ↦ absurd (too_high j ne ge from)
    ]
  ]
    where
      too_high :
          (j : ℕ)
          → i ≢ j
          → ¬ (j < i)
          → ((k : ℕ) → suc k ≡ j → (l : List ℕ) × (get_elem? lists k ≡ some l) × (last_of l < comp))
          → ⊥
      too_high zero ne ge from = omega arith
      too_high (suc k) ne ge from =
          let (l, e, lt) = from k refl in
          elim (ℕ_discrete i k) [
            | yes q ↦ omega (arith, p.before l (rw q e))
            | no ne' ↦ omega (arith, p.upper k l (omega arith) e)
          ]

  put_best :
      (ys : List ℕ) (j : ℕ)
      → Increasing ys
      → Subseq ys (seen ++ comp ∷ [])
      → length ys ≡ suc j
      → (l : List ℕ) × (get_elem? after j ≡ some l) × (last_of l ≤ last_of ys)
  put_best ys j inc sub len = elim (snoc-Subseq seen comp sub) [
    | left_out s ↦ let (l, e, h) = c.best ys j inc s len in put_best_at j l (last_of ys) e h
    | ends k q s ↦
        let (m, e, h) =
          put_reaches j
            (λ n f. shorter k n s (rw q at inc) (omega (arith, ap length q, length-snoc k comp))) in
        (m, e, omega (arith, ap last_of q, last_of-snoc k comp))
  ]
    where
      shorter :
          (k : List ℕ) (n : ℕ)
          → Subseq k seen
          → Increasing (k ++ comp ∷ [])
          → length k ≡ suc n
          → (l : List ℕ) × (get_elem? lists n ≡ some l) × (last_of l < comp)
      shorter [] n s inc e = absurd (omega arith)
      shorter (y ∷ k) n s inc e =
          let (inc', lt) = Increasing-unsnoc y k comp inc in
          let (l, f, h) = c.best (y ∷ k) n inc' s e in (l, f, omega arith)

  pub put-Candidates : Candidates after (seen ++ comp ∷ [])
  put-Candidates = record {
    some_list = omega (arith, get_elem?_lt after i p.here);
    sized = put_sized;
    increasing = put-Increasing;
    chosen = put_chosen;
    rising = put_rising;
    best = put_best;
  }
