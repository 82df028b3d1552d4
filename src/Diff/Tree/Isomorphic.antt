-- ===== src/Diff/Tree/Isomorphic.antt =====
-- src/util/treediff.rs: `isomorphic` is equality of trees.
use pinnacle.Common.{◌≡◌, refl, ◌↔◌, ap, subst, Bool, true, arith, ==_refl}
use pinnacle.Diff.Tree.{
  Node, node, Children, no_more, child, count, isomorphic, isomorphic_pairs, height,
}

module _ {A : Type 0} (same : A → A → Bool)
    (same_iff : (a b : A) → (same a b ≡ true) ↔ (a ≡ b)) where
  mutual
    unfolding isomorphic

    isomorphic_refl : (t : Node A) → isomorphic same t t ≡ true
    isomorphic_refl (node a ns) =
        ground (arith, (same_iff a a).1 refl, ==_refl (count ns), pairs_refl ns)

    pairs_refl : (ns : Children A) → isomorphic_pairs same ns ns ≡ true
    pairs_refl no_more = refl
    pairs_refl (child n ns) = ground (arith, isomorphic_refl n, pairs_refl ns)

  mutual
    unfolding isomorphic

    isomorphic_eq : (t u : Node A) → isomorphic same t u ≡ true → t ≡ u
    isomorphic_eq (node a ns) (node b ms) h =
        let x : same a b ≡ true = ground arith in
        let y : isomorphic_pairs same ns ms ≡ true = ground arith in
        λ i. node ((same_iff a b).0 x i) (pairs_eq ns ms y i)

    pairs_eq : (ns ms : Children A) → isomorphic_pairs same ns ms ≡ true → ns ≡ ms
    pairs_eq no_more no_more h = refl
    pairs_eq no_more (child m ms) h = ground arith
    pairs_eq (child n ns) no_more h = ground arith
    pairs_eq (child n ns) (child m ms) h =
        let x : isomorphic same n m ≡ true = ground arith in
        let y : isomorphic_pairs same ns ms ≡ true = ground arith in
        λ i. child (isomorphic_eq n m x i) (pairs_eq ns ms y i)

  isomorphic-height : (t u : Node A) → isomorphic same t u ≡ true → height t ≡ height u
  isomorphic-height t u h = ap height (isomorphic_eq t u h)

  -- Two trees are isomorphic exactly when they are equal, where the test on their data says whether
  -- these are equal.
  pub isomorphic_iff : (t u : Node A) → (isomorphic same t u ≡ true) ↔ (t ≡ u)
  isomorphic_iff t u =
      (isomorphic_eq t u, λ e. subst (λ v. isomorphic same t v ≡ true) e (isomorphic_refl t))
