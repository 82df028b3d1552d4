-- ===== src/Layout/Tree/Leaves.antt =====
-- src/layout/tree.rs: `unprocess_leaves`, which takes back what `process_leaves` did before a tree is
-- compared with another.
use pinnacle.Common.{ℕ, ◌+◌, ◌≡◌, refl, ap, ap₂, Option}
use pinnacle.Layout.Tree.{
  Style, NodeContext, TaffyNode, TaffyNodes, taffy, no_nodes, more, LeafDefaults, process_leaves,
  process_all,
}

abbrev pub with_children :
    {F : Type 0} → ℕ → Option (NodeContext F) → Style F × TaffyNodes F → TaffyNode F
with_children id context (style, children) = taffy id style context children

abbrev pub keep_child : {F : Type 0} → TaffyNode F → Style F × TaffyNodes F → Style F × TaffyNodes F
keep_child n (style, children) = (style, more n children)

module _ {F : Type 0} where
  -- On a node that has children: a child that has none gives its margin to the node, and is removed.
  -- The assertion that it is the only child is of debug builds.
  unfoldable mutual
    pub unprocess_leaves : TaffyNode F → TaffyNode F
    unprocess_leaves (taffy id style context children) =
        with_children id context (unprocess_children style children)

    pub unprocess_children : Style F → TaffyNodes F → Style F × TaffyNodes F
    unprocess_children style no_nodes = (style, no_nodes)
    unprocess_children style (more (taffy id s c no_nodes) ns) =
        unprocess_children (record style { margin = s.margin }) ns
    unprocess_children style (more (taffy id s c (more m ms)) ns) =
        keep_child (unprocess_leaves (taffy id s c (more m ms))) (unprocess_children style ns)

  module _ (d : LeafDefaults F) where
    mutual
      unfolding process_leaves unprocess_leaves

      leaves_back : (t : TaffyNode F) (next : ℕ) → unprocess_leaves (process_leaves d t next).0 ≡ t
      leaves_back (taffy id style context no_nodes) next = refl
      leaves_back (taffy id style context (more n ns)) next =
          ap (with_children id context) (children_back style (more n ns) next)

      children_back :
          (style : Style F) (ns : TaffyNodes F) (next : ℕ)
          → unprocess_children style (process_all d ns next).0 ≡ (style, ns)
      children_back style no_nodes next = refl
      children_back style (more (taffy id s c no_nodes) ns) next =
          ap (keep_child (taffy id s c no_nodes)) (children_back style ns (next + 1))
      children_back style (more (taffy id s c (more m ms)) ns) next =
          ap₂ keep_child (leaves_back (taffy id s c (more m ms)) next)
            (children_back style ns (process_leaves d (taffy id s c (more m ms)) next).1)

    -- Taking back what was done to the leaves of a tree gives the tree, whatever the defaults of taffy
    -- are: its nodes, their styles with their margins, and their contexts.
    pub unprocess_leaves-process_leaves :
        (t : TaffyNode F) (next : ℕ) → unprocess_leaves (process_leaves d t next).0 ≡ t
    unprocess_leaves-process_leaves t next = leaves_back t next
