-- ===== src/Client/Sent.antt =====
-- api/rust/src/layout.rs: a layout tree as the client sends it, and what arrives.
use pinnacle.Common.{ℕ, ◌+◌, ◌≡◌, refl, ap, ap₂, ◌∙◌, some, arith}
use pinnacle.Layout.Tree.{FlexDirection, LayoutNode, LayoutNodes, layout_node, LayoutNodeData}
use pinnacle.Layout.Tree.Built.{tile_count, tile_counts}
use pinnacle.Layout.Received.{
  FlexDir, WireNodeData, WireNode, WireNodes, wire_node, no_wire, more_wire, with_parts, both_nodes,
  flex_direction_of, try_from, try_from_all,
}
use pinnacle.Client.Node.{LayoutDir, row, column, LayoutNodeInner, Node, Nodes, node, nil, cons}

abbrev pub flex_dir_of : LayoutDir → FlexDir
flex_dir_of row = FlexDir.row
flex_dir_of column = FlexDir.column

abbrev pub direction_of : LayoutDir → FlexDirection
direction_of row = FlexDirection.row
direction_of column = FlexDirection.column

flex_direction_of-flex_dir_of :
    (dir : LayoutDir) → flex_direction_of (flex_dir_of dir) ≡ direction_of dir
flex_direction_of-flex_dir_of row = refl
flex_direction_of-flex_dir_of column = refl

module _ {F : Type 0} where
  abbrev pub wire_data : LayoutNodeInner F → WireNodeData F
  wire_data n = record {
    label = n.label;
    traversal_index = n.traversal_index;
    traversal_overrides = n.traversal_overrides;
    style = some (record {
      flex_dir = flex_dir_of n.style.layout_dir;
      size_proportion = n.style.size_proportion;
      gaps = some (record {
        left = n.style.gaps.left;
        right = n.style.gaps.right;
        top = n.style.gaps.top;
        bottom = n.style.gaps.bottom;
      });
    });
  }

  -- `api_node_from_layout_node`.
  unfoldable mutual
    pub api_node : Node F → WireNode F
    api_node (node n ns) = wire_node (wire_data n) (api_nodes ns)

    pub api_nodes : Nodes F → WireNodes F
    api_nodes nil = no_wire
    api_nodes (cons n ns) = more_wire (api_node n) (api_nodes ns)

  module _ (one : F) where
    abbrev pub meant_data : LayoutNodeInner F → LayoutNodeData F
    meant_data n = record {
      label = n.label;
      traversal_index = n.traversal_index;
      traversal_overrides = n.traversal_overrides;
      style = record {
        flex_direction = direction_of n.style.layout_dir;
        flex_basis = n.style.size_proportion;
        flex_grow = one;
        margin = record {
          left = n.style.gaps.left;
          right = n.style.gaps.right;
          top = n.style.gaps.top;
          bottom = n.style.gaps.bottom;
        };
      };
    }

    -- The tree that a client's tree means: the same nodes, with the direction, the basis and the
    -- margins that it gave them.
    unfoldable mutual
      pub meant : Node F → LayoutNode F
      meant (node n ns) = layout_node (meant_data n) (meant_all ns)

      pub meant_all : Nodes F → LayoutNodes F
      meant_all nil = LayoutNodes.nil
      meant_all (cons n ns) = LayoutNodes.cons (meant n) (meant_all ns)

  -- The number of nodes with no children.
  unfoldable mutual
    pub node_tiles : Node F → ℕ
    node_tiles (node n nil) = 1
    node_tiles (node n (cons m ms)) = node_tiles m + nodes_tiles ms

    pub nodes_tiles : Nodes F → ℕ
    nodes_tiles nil = 0
    nodes_tiles (cons m ms) = node_tiles m + nodes_tiles ms

  mutual
    unfolding meant node_tiles tile_count

    pub tile_count-meant : (one : F) (n : Node F) → tile_count (meant one n) ≡ node_tiles n
    tile_count-meant one (node n nil) = refl
    tile_count-meant one (node n (cons m ms)) =
        omega (arith, tile_count-meant one m, tile_counts-meant one ms)

    tile_counts-meant : (one : F) (ns : Nodes F) → tile_counts (meant_all one ns) ≡ nodes_tiles ns
    tile_counts-meant one nil = refl
    tile_counts-meant one (cons m ms) =
        omega (arith, tile_count-meant one m, tile_counts-meant one ms)

  module _ (zero one : F) where
    data_arrives :
        (n : LayoutNodeInner F) (children : LayoutNodes F)
        → with_parts zero one (wire_data n) (wire_data n).style (some children)
          ≡ some (layout_node (meant_data one n) children)
    data_arrives n children = rw (flex_direction_of-flex_dir_of n.style.layout_dir) refl

    mutual
      unfolding try_from api_node meant

      node_arrives : (n : Node F) → try_from zero one (api_node n) ≡ some (meant one n)
      node_arrives (node n ns) =
          ap (with_parts zero one (wire_data n) (wire_data n).style) (nodes_arrive ns)
          ∙ data_arrives n (meant_all one ns)

      nodes_arrive : (ns : Nodes F) → try_from_all zero one (api_nodes ns) ≡ some (meant_all one ns)
      nodes_arrive nil = refl
      nodes_arrive (cons n ns) = ap₂ (both_nodes zero one) (node_arrives n) (nodes_arrive ns)

    -- A layout tree that a client sends arrives as it was meant: the conversion of the message never
    -- fails, every node has the label, the traversal, the direction, the basis and the margins that the
    -- client gave it, and as many of them have no children.
    pub try_from-api_node :
        (n : Node F)
        → (try_from zero one (api_node n) ≡ some (meant one n))
          × (tile_count (meant one n) ≡ node_tiles n)
    try_from-api_node n = (node_arrives n, tile_count-meant one n)
