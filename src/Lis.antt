-- ===== src/Lis.antt =====
-- longestIncreasingSubsequence of internal/tengo/util.go, over the positions (never negative) that
-- its caller passes. An index that the code never reaches reads as [] or 0.
pub mod Subseq
pub mod Longest
pub mod Step
use skeema.Prelude.{
  ℕ, zero, suc, ◌+◌, ◌-◌, List, [], ◌∷◌, ◌++◌, ltb, if◌then◌else◌, length, get_or, set,
}

abbrev pub last_of : List ℕ → ℕ
last_of [] = 0
last_of (x ∷ []) = x
last_of (x ∷ y ∷ l) = last_of (y ∷ l)

-- Go's copy(dst, src)
unfoldable pub copy : List ℕ → List ℕ → List ℕ
copy [] src = []
copy (d ∷ dst) [] = d ∷ dst
copy (d ∷ dst) (s ∷ src) = s ∷ copy dst src

-- The inner loop; the counter is `j + 1`.
unfoldable pub replace_candidate : List (List ℕ) → ℕ → ℕ → List (List ℕ)
unfolding copy
replace_candidate lists comp zero = lists
replace_candidate lists comp (suc j) =
    let this_list = get_or lists j [] in
    let next_list = get_or lists (suc j) [] in
    let written = set (copy next_list this_list) (length next_list - 1) comp in
    let rest = replace_candidate lists comp j in
    if ltb (last_of this_list) comp then set lists (suc j) written else rest

-- One round of the outer loop.
unfoldable pub lis_step : List (List ℕ) → ℕ → List (List ℕ)
unfolding replace_candidate
lis_step lists comp =
    let first = get_or lists 0 [] in
    let longest = get_or lists (length lists - 1) [] in
    if ltb comp (get_or first 0 0)
    then set lists 0 (set first 0 comp)
    else if ltb (last_of longest) comp
    then lists ++ (longest ++ comp ∷ []) ∷ []
    else replace_candidate lists comp (length lists - 1)

unfoldable pub lis_loop : List (List ℕ) → List ℕ → List (List ℕ)
unfolding lis_step
lis_loop lists [] = lists
lis_loop lists (comp ∷ input) = lis_loop (lis_step lists comp) input

unfoldable pub longest_increasing_subsequence : List ℕ → List ℕ
unfolding lis_loop
longest_increasing_subsequence [] = []
longest_increasing_subsequence (x ∷ []) = x ∷ []
longest_increasing_subsequence (x ∷ y ∷ input) =
    let lists = lis_loop ((x ∷ []) ∷ []) (y ∷ input) in get_or lists (length lists - 1) []
