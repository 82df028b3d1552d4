-- ===== src/Layout/Received.antt =====
-- src/api/layout/v1.rs: the layout tree of a client's message as the compositor takes it. The message
-- types are generated from the protocol's definitions.
use pinnacle.Common.{ℕ, List, Option, none, some}
use pinnacle.Layout.Tree.{
  Label, FlexDirection, Margin, Style, LayoutNode, LayoutNodes, layout_node, nil, cons,
}

pub data FlexDir : Type 0 where
  unspecified row column : FlexDir

pub record WireGaps (F : Type 0) : Type 0 where
  pub left : F
  pub right : F
  pub top : F
  pub bottom : F

pub record WireStyle (F : Type 0) : Type 0 where
  pub flex_dir : FlexDir
  pub size_proportion : F
  pub gaps : Option (WireGaps F)

pub record WireNodeData (F : Type 0) : Type 0 where
  pub label : Option Label
  pub traversal_index : ℕ
  pub traversal_overrides : List (ℕ × List ℕ)
  pub style : Option (WireStyle F)

mutual
  pub data WireNode (F : Type 0) : Type 0 where
    wire_node : WireNodeData F → WireNodes F → WireNode F

  pub data WireNodes (F : Type 0) : Type 0 where
    no_wire : WireNodes F
    more_wire : WireNode F → WireNodes F → WireNodes F

abbrev pub flex_direction_of : FlexDir → FlexDirection
flex_direction_of FlexDir.unspecified = FlexDirection.row
flex_direction_of FlexDir.row = FlexDirection.row
flex_direction_of FlexDir.column = FlexDirection.column

module _ {F : Type 0} (zero one : F) where
  abbrev pub margin_of : Option (WireGaps F) → Margin F
  margin_of none = record { left = zero; right = zero; top = zero; bottom = zero }
  margin_of (some g) = record { left = g.left; right = g.right; top = g.top; bottom = g.bottom }

  abbrev pub style_of : WireStyle F → Style F
  style_of s = record {
    flex_direction = flex_direction_of s.flex_dir;
    flex_basis = s.size_proportion;
    flex_grow = one;
    margin = margin_of s.gaps;
  }

  abbrev pub with_parts :
      WireNodeData F → Option (WireStyle F) → Option (LayoutNodes F) → Option (LayoutNode F)
  with_parts d none children = none
  with_parts d (some s) none = none
  with_parts d (some s) (some children) = some (
      layout_node
        (record {
          label = d.label;
          traversal_index = d.traversal_index;
          traversal_overrides = d.traversal_overrides;
          style = style_of s;
        })
        children)

  abbrev pub both_nodes : Option (LayoutNode F) → Option (LayoutNodes F) → Option (LayoutNodes F)
  both_nodes none rest = none
  both_nodes (some n) none = none
  both_nodes (some n) (some rest) = some (cons n rest)

  -- `LayoutNode::try_from`: a node with no style is an error.
  unfoldable mutual
    pub try_from : WireNode F → Option (LayoutNode F)
    try_from (wire_node d ns) = with_parts d d.style (try_from_all ns)

    pub try_from_all : WireNodes F → Option (LayoutNodes F)
    try_from_all no_wire = some nil
    try_from_all (more_wire n ns) = both_nodes (try_from n) (try_from_all ns)
