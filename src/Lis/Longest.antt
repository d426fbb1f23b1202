-- ===== src/Lis/Longest.antt =====
-- The loop keeps the invariant of the candidate lists, so the result is a longest increasing
-- subsequence of the input.
use skeema.Prelude.{
  ℕ, zero, suc, ◌-◌, ◌<◌, ◌≤◌, ◌≡◌, refl, ap, sym, ◌∙◌, inl, inr, List, [], ◌∷◌, ◌++◌, arith,
  length, get_elem?, get_or, set, Option, some, ltb, Bool-cases, ℕ_discrete, get_elem?-set_self,
  get_elem?-set_ne, get_elem?-append_last, get_elem?-append_ne, get_elem?-some, get_elem?_lt,
  get_or-some,
}
use mathlib.Core.List.{append_assoc, append-nil}
use skeema.Lis.{
  last_of, copy, replace_candidate, lis_step, lis_loop, longest_increasing_subsequence,
}
use skeema.Lis.Subseq.{
  Increasing, Subseq, stop, keep, skip, Subseq-snoc, Subseq-weaken, Subseq-nil, Subseq-refl,
  last_of-snoc, length-snoc, Increasing-snoc,
}
use skeema.Lis.Step.{Candidates, put-Candidates}

some-eq : {l m : List ℕ} {o : Option (List ℕ)} → o ≡ some l → o ≡ some m → l ≡ m
some-eq p q = cc

-- What the inner loop writes over the next list: this list with the new number behind it.
copy-set :
    (next this : List ℕ) (comp : ℕ)
    → length next ≡ suc (length this)
    → set (copy next this) (length this) comp ≡ this ++ comp ∷ []
unfolding copy
copy-set [] this comp h = absurd (omega arith)
copy-set (d ∷ []) [] comp h = refl
copy-set (d ∷ e ∷ dst) [] comp h = absurd (omega arith)
copy-set (d ∷ dst) (s ∷ this) comp h = ap (◌∷◌ s) (copy-set dst this comp (omega arith))

last_of_one : (l : List ℕ) → length l ≡ 1 → last_of l ≡ get_or l 0 0
last_of_one [] h = absurd (omega arith)
last_of_one (x ∷ []) h = refl
last_of_one (x ∷ y ∷ l) h = absurd (omega arith)

module _ {lists : List (List ℕ)} {seen : List ℕ} (c : Candidates lists seen) (comp : ℕ) where
  -- The lists below place i end below comp, once the one right below it does.
  all_lower :
      (j : ℕ) (this : List ℕ)
      → get_elem? lists j ≡ some this
      → last_of this < comp
      → (k : ℕ) → k < suc j
      → (l : List ℕ) × (get_elem? lists k ≡ some l) × (last_of l < comp)
  all_lower j this e h k lt = elim (ℕ_discrete k j) [
    | yes q ↦ (this, rw q e, h)
    | no ne ↦
        let (l, f) = get_elem?-some lists k (omega (arith, get_elem?_lt lists j e)) in
        (l, f, omega (arith, c.rising k j l this (omega arith) f e))
  ]

  extend_next :
      (j : ℕ) (this next : List ℕ)
      → get_elem? lists j ≡ some this
      → get_elem? lists (suc j) ≡ some next
      → last_of this < comp
      → comp ≤ last_of next
      → Candidates (set lists (suc j) (this ++ comp ∷ [])) (seen ++ comp ∷ [])
  extend_next j this next e f lt le = put-Candidates c (record {
    others = λ k ne. get_elem?-set_ne lists (suc j) k (this ++ comp ∷ []) ne;
    here = get_elem?-set_self lists (suc j) (this ++ comp ∷ []) (get_elem?_lt lists (suc j) f);
    new_length = length-snoc this comp ∙ ap suc (c.sized j this e);
    new_increasing = Increasing-snoc this comp (c.increasing j this e) lt;
    new_chosen = Subseq-snoc comp (c.chosen j this e);
    new_last = last_of-snoc this comp;
    before = λ l q. rw (some-eq q f) le;
    lower = all_lower j this e lt;
    upper = λ k l h q. omega (arith, c.rising (suc j) k next l h f q);
  })

  -- The number ends list 0 already: nothing changes.
  unchanged :
      (first : List ℕ)
      → get_elem? lists 0 ≡ some first
      → last_of first ≡ comp
      → Candidates lists (seen ++ comp ∷ [])
  unchanged first e h = put-Candidates c (record {
    others = λ k ne. refl;
    here = e;
    new_length = c.sized 0 first e;
    new_increasing = c.increasing 0 first e;
    new_chosen = Subseq-weaken comp (c.chosen 0 first e);
    new_last = h;
    before = λ l q. omega (arith, ap last_of (some-eq q e));
    lower = λ k lt. elim lt [ ];
    upper = λ k l lt q. omega (arith, c.rising 0 k first l lt e q);
  })

  copy_written :
      (this next : List ℕ)
      → length next ≡ suc (length this)
      → set (copy next this) (length next - 1) comp ≡ this ++ comp ∷ []
  copy_written this next h =
      let size : length next - 1 ≡ length this = omega arith in rw size (copy-set next this comp h)

  replace_candidate-Candidates :
      (n : ℕ) (first top : List ℕ)
      → get_elem? lists 0 ≡ some first
      → last_of first ≤ comp
      → get_elem? lists n ≡ some top
      → comp ≤ last_of top
      → Candidates (replace_candidate lists comp n) (seen ++ comp ∷ [])
  unfolding replace_candidate
  replace_candidate-Candidates zero first top e h f g =
      unchanged first e (omega (arith, ap last_of (some-eq e f)))
  replace_candidate-Candidates (suc j) first top e h f g =
      let (this, q) = get_elem?-some lists j (omega (arith, get_elem?_lt lists (suc j) f)) in
      let written =
        copy_written this top (omega (arith, c.sized (suc j) top f, c.sized j this q)) in
      rw (get_or-some lists j [] q, get_or-some lists (suc j) [] f)
        (elim (Bool-cases (ltb (last_of this) comp)) [
          | inl lt ↦ rw lt (rw written (extend_next j this top q f (ground arith) g))
          | inr ge ↦ rw ge (replace_candidate-Candidates j first this e h q (ground arith))
        ])

  first_written :
      (first : List ℕ)
      → get_elem? lists 0 ≡ some first
      → comp < last_of first
      → Candidates (set lists 0 (comp ∷ [])) (seen ++ comp ∷ [])
  first_written first e h = put-Candidates c (record {
    others = λ k ne. get_elem?-set_ne lists 0 k (comp ∷ []) ne;
    here = get_elem?-set_self lists 0 (comp ∷ []) c.some_list;
    new_length = refl;
    new_increasing = tt;
    new_chosen = Subseq-snoc comp (Subseq-nil seen);
    new_last = refl;
    before = λ l q. omega (arith, ap last_of (some-eq q e));
    lower = λ k lt. elim lt [ ];
    upper = λ k l lt q. omega (arith, c.rising 0 k first l lt e q);
  })

  appended :
      (j : ℕ) (top : List ℕ)
      → suc j ≡ length lists
      → get_elem? lists j ≡ some top
      → last_of top < comp
      → Candidates (lists ++ (top ++ comp ∷ []) ∷ []) (seen ++ comp ∷ [])
  appended j top size e h = put-Candidates c (record {
    others = λ k ne. get_elem?-append_ne lists (top ++ comp ∷ []) k (λ q. ne (sym q));
    here = get_elem?-append_last lists (top ++ comp ∷ []);
    new_length = length-snoc top comp ∙ ap suc (c.sized j top e) ∙ ap suc size;
    new_increasing = Increasing-snoc top comp (c.increasing j top e) h;
    new_chosen = Subseq-snoc comp (c.chosen j top e);
    new_last = last_of-snoc top comp;
    before = λ l q. absurd (omega (arith, get_elem?_lt lists (length lists) q));
    lower = λ k lt. all_lower j top e h k (omega arith);
    upper = λ k l lt q. absurd (omega (arith, get_elem?_lt lists k q));
  })

  -- One round, from lists that it reads at place 0 and at the last place.
  lis_step_at :
      (j : ℕ) (first top : List ℕ)
      → length lists ≡ suc j
      → get_elem? lists 0 ≡ some first
      → get_elem? lists j ≡ some top
      → Candidates (lis_step lists comp) (seen ++ comp ∷ [])
  unfolding lis_step
  lis_step_at j first top size e f =
      let place : length lists - 1 ≡ j = omega arith in
      let head = last_of_one first (c.sized 0 first e) in
      rw (place, get_or-some lists 0 [] e, get_or-some lists j [] f)
        (elim (Bool-cases (ltb comp (get_or first 0 0))) [
          | inl lt ↦
              rw (lt, one_written first (c.sized 0 first e)) (first_written first e (ground arith))
          | inr ge ↦ elim (Bool-cases (ltb (last_of top) comp)) [
            | inl more ↦ rw (ge, more) (appended j top (omega arith) f (ground arith))
            | inr less ↦
                rw (ge, less)
                  (replace_candidate-Candidates j first top e (ground arith) f (ground arith))
          ]
        ])
    where
      one_written : (l : List ℕ) → length l ≡ 1 → set l 0 comp ≡ comp ∷ []
      one_written [] h = absurd (omega arith)
      one_written (x ∷ []) h = refl
      one_written (x ∷ y ∷ l) h = absurd (omega arith)

  lis_step-Candidates : Candidates (lis_step lists comp) (seen ++ comp ∷ [])
  lis_step-Candidates =
      let (first, e) = get_elem?-some lists 0 c.some_list in
      let (top, f) = get_elem?-some lists (length lists - 1) (omega (arith, c.some_list)) in
      lis_step_at (length lists - 1) first top (omega (arith, c.some_list)) e f

lis_loop-Candidates :
    (input : List ℕ) {lists : List (List ℕ)} (seen : List ℕ)
    → Candidates lists seen
    → Candidates (lis_loop lists input) (seen ++ input)
unfolding lis_loop
lis_loop-Candidates [] seen c = rw (append-nil seen) c
lis_loop-Candidates (comp ∷ input) seen c =
    rw append_assoc at (lis_loop-Candidates input (seen ++ comp ∷ []) (lis_step-Candidates c comp))

-- The one list that the code starts from.
started_at : (x j : ℕ) (l : List ℕ) → get_elem? ((x ∷ []) ∷ []) j ≡ some l → (j ≡ 0) × (l ≡ x ∷ [])
started_at x zero l e = (refl, cc)
started_at x (suc j) l e = cc

chosen_one :
    {ys seen : List ℕ} (x j : ℕ)
    → Subseq ys seen
    → seen ≡ x ∷ []
    → length ys ≡ suc j
    → (j ≡ 0) × (ys ≡ x ∷ [])
chosen_one x j stop e h = absurd (omega arith)
chosen_one x j (keep y stop) e h = (omega arith, e)
chosen_one x j (keep y (keep z s)) e h = ground arith
chosen_one x j (keep y (skip z s)) e h = ground arith
chosen_one x j (skip y stop) e h = absurd (omega arith)
chosen_one x j (skip y (keep z s)) e h = ground arith
chosen_one x j (skip y (skip z s)) e h = ground arith

started : (x : ℕ) → Candidates ((x ∷ []) ∷ []) (x ∷ [])
started x = record {
  some_list = omega arith;
  sized = λ j l e. let (p, q) = started_at x j l e in rw (p, q) refl;
  increasing = λ j l e. let (p, q) = started_at x j l e in rw q tt;
  chosen = λ j l e. let (p, q) = started_at x j l e in rw q (Subseq-refl (x ∷ []));
  rising = λ i j l m lt e f. absurd (omega (arith, (started_at x i l e).0, (started_at x j m f).0));
  best = λ ys j inc sub h.
      let (p, q) = chosen_one x j sub refl h in (x ∷ [], rw p refl, rw q (omega arith));
}

-- What the last list has, by the invariant.
abbrev Longest : List ℕ → List ℕ → Type 0
Longest result input =
    Increasing result
    × Subseq result input
    × ((ys : List ℕ) → Increasing ys → Subseq ys input → length ys ≤ length result)

last-Longest :
    (input : List ℕ) (lists : List (List ℕ))
    → Candidates lists input
    → Longest (get_or lists (length lists - 1) []) input
last-Longest input lists c =
    let j : ℕ = length lists - 1 in
    let (top, e) = get_elem?-some lists j (omega (arith, c.some_list)) in
    rw (get_or-some lists j [] e) (
      c.increasing j top e,
      c.chosen j top e,
      λ ys inc sub. bounded top (c.sized j top e) ys inc sub,
    )
  where
    bounded :
        (top : List ℕ)
        → length top ≡ suc (length lists - 1)
        → (ys : List ℕ) → Increasing ys
        → Subseq ys input
        → length ys ≤ length top
    bounded top size [] inc sub = omega arith
    bounded top size (y ∷ ys) inc sub =
        let (l, f, h) = c.best (y ∷ ys) (length ys) inc sub refl in
        omega (arith, get_elem?_lt lists (length ys) f)

length-Subseq : {l m : List ℕ} → Subseq l m → length l ≤ length m
length-Subseq stop = omega arith
length-Subseq (keep x s) = omega (arith, length-Subseq s)
length-Subseq (skip x s) = omega (arith, length-Subseq s)

lis-Longest : (input : List ℕ) → Longest (longest_increasing_subsequence input) input
unfolding longest_increasing_subsequence
lis-Longest [] = (tt, stop, λ ys inc sub. length-Subseq sub)
lis-Longest (x ∷ []) = (tt, Subseq-refl (x ∷ []), λ ys inc sub. length-Subseq sub)
lis-Longest (x ∷ y ∷ input) =
    last-Longest (x ∷ y ∷ input) (lis_loop ((x ∷ []) ∷ []) (y ∷ input))
      (lis_loop-Candidates (y ∷ input) (x ∷ []) (started x))

-- longestIncreasingSubsequence returns an increasing list, taken from the input in its order, and
-- it is at least as long as any increasing list taken from the input.
pub longest_increasing_subsequence_longest :
    (input ys : List ℕ)
    → Increasing ys
    → Subseq ys input
    → Increasing (longest_increasing_subsequence input)
      × Subseq (longest_increasing_subsequence input) input
      × (length ys ≤ length (longest_increasing_subsequence input))
longest_increasing_subsequence_longest input ys inc sub =
    let longest = lis-Longest input in (longest.0, longest.1, longest.2 ys inc sub)
