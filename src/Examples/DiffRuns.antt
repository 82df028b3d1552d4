-- ===== src/Examples/DiffRuns.antt =====
-- src/util/treediff.rs: common subsequences of two lists of numbers, and a small tree.
use pinnacle.Common.{ℕ, ◌≤◌, ◌≡◌, ◌↔◌, arith, true, refl, Bool, [], ◌∷◌, length, ◌==◌}
use pinnacle.Diff.Lcs.{lcs}
use pinnacle.Diff.Tree.{Node, node, no_more, child, height}
use pinnacle.Diff.Lcs.Longest.{lcs_lem}
use pinnacle.Diff.Lcs.Subsequences.{IsCommon, done, skip_left, skip_right, match_both}

abbrev same : ℕ → ℕ → Bool
same a b = a == b

lcs_of_two : lcs same (1 ∷ 2 ∷ 3 ∷ []) (2 ∷ 1 ∷ 3 ∷ []) ≡ (2, 2) ∷ (3, 3) ∷ []
unfolding lcs
lcs_of_two = refl

lcs_lem_example :
    IsCommon same (1 ∷ 2 ∷ 3 ∷ []) (2 ∷ 1 ∷ 3 ∷ []) (lcs same (1 ∷ 2 ∷ 3 ∷ []) (2 ∷ 1 ∷ 3 ∷ []))
    × (1 ≤ length (lcs same (1 ∷ 2 ∷ 3 ∷ []) (2 ∷ 1 ∷ 3 ∷ [])))
lcs_lem_example =
    lcs_lem same (1 ∷ 2 ∷ 3 ∷ []) (2 ∷ 1 ∷ 3 ∷ []) ((1, 1) ∷ [])
      (skip_right (match_both refl (skip_left (skip_left (skip_right done)))))

abbrev leaf : ℕ → Node ℕ
leaf n = node n no_more

abbrev split : Node ℕ
split = node 0 (child (leaf 1) (child (node 2 (child (leaf 3) no_more)) no_more))

height_of_split : height split ≡ 3
unfolding height
height_of_split = refl

same_iff : (a b : ℕ) → (same a b ≡ true) ↔ (a ≡ b)
same_iff a b = (λ e. ground arith, λ e. ground arith)
