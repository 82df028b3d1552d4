-- ===== src/Diff/Tree.antt =====
-- src/util/treediff.rs: the trees that are compared, which are those of the crate slab_tree read from a
-- node down, and the tests on two nodes.
pub mod Isomorphic
use pinnacle.Common.{ℕ, suc, Bool, true, false, ◌&&◌, ◌==◌, leb, if◌then◌else◌}

mutual
  pub data Node (A : Type 0) : Type 0 where
    node : A → Children A → Node A

  pub data Children (A : Type 0) : Type 0 where
    no_more : Children A
    child : Node A → Children A → Children A

abbrev pub count : {A : Type 0} → Children A → ℕ
count no_more = 0
count (child n ns) = suc (count ns)

module _ {A : Type 0} (same : A → A → Bool) where
  -- `same` is the `PartialEq` of the data. `isomorphic_pairs` is the loop over
  -- `zip_longest`, which never meets lists of different lengths.
  unfoldable mutual
    pub isomorphic : Node A → Node A → Bool
    isomorphic (node a ns) (node b ms) =
        same a b && (count ns == count ms) && isomorphic_pairs ns ms

    pub isomorphic_pairs : Children A → Children A → Bool
    isomorphic_pairs no_more no_more = true
    isomorphic_pairs no_more (child m ms) = false
    isomorphic_pairs (child n ns) no_more = false
    isomorphic_pairs (child n ns) (child m ms) = isomorphic n m && isomorphic_pairs ns ms

module _ {A : Type 0} where
  -- A leaf has height 1, and another node one more than its highest child.
  unfoldable mutual
    pub height : Node A → ℕ
    height (node a ns) = suc (highest ns)

    pub highest : Children A → ℕ
    highest no_more = 0
    highest (child n ns) =
        let here = height n in let rest = highest ns in if leb here rest then rest else here
