-- ===== src/Diff/Lcs.antt =====
-- src/util/treediff.rs: `lcs`, by a table over the prefixes of both lists. Row `i` is computed from row
-- `i - 1` alone, so one row is kept; its first entry, which is always empty, is left out.
pub mod Subsequences
pub mod Longest
use pinnacle.Common.{ℕ, Bool, List, [], ◌∷◌, ◌++◌, length, ltb, if◌then◌else◌}

-- `std::cmp::max_by_key(a, b, |subseq| subseq.len())`, which takes `b` where both are as long.
abbrev pub max_by_length {ℓ} : {A : Type ℓ} → List A → List A → List A
max_by_length a b = if ltb (length b) (length a) then a else b

module _ {ℓ} {A : Type ℓ} (equals : A → A → Bool) where
  -- The entry `dp[i][j]`, from `dp[i - 1][j - 1]`, `dp[i - 1][j]` and `dp[i][j - 1]`.
  abbrev pub entry : A → A → (diagonal above before : List (A × A)) → List (A × A)
  entry a b diagonal above before =
      if equals a b then diagonal ++ (a, b) ∷ [] else max_by_length above before

  -- The inner loop: the rest of the row above, the entry to the left, the rest of `string2`.
  abbrev pub row_from :
      A
      → (diagonal : List (A × A)) → List (List (A × A))
      → (before : List (A × A)) → List A
      → List (List (A × A))
  row_from a diagonal [] before bs = []
  row_from a diagonal (above ∷ rest) before [] = []
  row_from a diagonal (above ∷ rest) before (b ∷ bs) =
      let here = entry a b diagonal above before in here ∷ row_from a above rest here bs

  -- The outer loop, from the row above.
  abbrev pub rows : List A → List A → List (List (A × A)) → List (List (A × A))
  rows [] string2 row = row
  rows (a ∷ string1) string2 row = rows string1 string2 (row_from a [] row [] string2)

  abbrev pub first_row : List A → List (List (A × A))
  first_row [] = []
  first_row (b ∷ bs) = [] ∷ first_row bs

  abbrev pub last_or : List (A × A) → List (List (A × A)) → List (A × A)
  last_or d [] = d
  last_or d (x ∷ xs) = last_or x xs

  unfoldable pub lcs : List A → List A → List (A × A)
  lcs string1 string2 = last_or [] (rows string1 string2 (first_row string2))
