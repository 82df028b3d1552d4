-- ===== src/Layout/Tree.antt =====
-- src/layout/tree.rs: the tree of a layout. `LayoutNode` is what a client sends; `TaffyNode` is the
-- tree that is kept in taffy, read from a node down, with the id that taffy gives each node. An `f32`
-- is of the type `F`, with no operations here.
pub mod Walk
pub mod Built
pub mod Leaves
use Prim.Native.String.{String}
use pinnacle.Common.{ℕ, ◌+◌, List, [], ◌∷◌, Option, none, some}

pub data FlexDirection : Type 0 where
  row column row_reverse column_reverse : FlexDirection

pub record Margin (F : Type 0) : Type 0 where
  pub left : F
  pub right : F
  pub top : F
  pub bottom : F

-- The fields of `taffy::Style` that the code sets, but for the size of the root.
pub record Style (F : Type 0) : Type 0 where
  pub flex_direction : FlexDirection
  pub flex_basis : F
  pub flex_grow : F
  pub margin : Margin F

-- A label is a text; one that a client formats from numbers is kept as its text and the numbers.
pub data Label : Type 0 where
  text : String → Label
  numbered : String → List ℕ → Label

pub record LayoutNodeData (F : Type 0) : Type 0 where
  pub label : Option Label
  pub traversal_index : ℕ
  pub traversal_overrides : List (ℕ × List ℕ)
  pub style : Style F

mutual
  pub data LayoutNode (F : Type 0) : Type 0 where
    layout_node : LayoutNodeData F → LayoutNodes F → LayoutNode F

  pub data LayoutNodes (F : Type 0) : Type 0 where
    nil : LayoutNodes F
    cons : LayoutNode F → LayoutNodes F → LayoutNodes F

pub record NodeContext (F : Type 0) : Type 0 where
  pub traversal_index : ℕ
  pub traversal_overrides : List (ℕ × List ℕ)
  pub original_flex_basis : F

mutual
  pub data TaffyNode (F : Type 0) : Type 0 where
    taffy : (id : ℕ) → Style F → Option (NodeContext F) → TaffyNodes F → TaffyNode F

  pub data TaffyNodes (F : Type 0) : Type 0 where
    no_nodes : TaffyNodes F
    more : TaffyNode F → TaffyNodes F → TaffyNodes F

abbrev pub id_of : {F : Type 0} → TaffyNode F → ℕ
id_of (taffy id style context children) = id

abbrev pub children_of : {F : Type 0} → LayoutNode F → LayoutNodes F
children_of (layout_node d ns) = ns

abbrev pub data_of : {F : Type 0} → LayoutNode F → LayoutNodeData F
data_of (layout_node d ns) = d

module _ {F : Type 0} where
  abbrev pub context_of : LayoutNodeData F → NodeContext F
  context_of d = record {
    traversal_index = d.traversal_index;
    traversal_overrides = d.traversal_overrides;
    original_flex_basis = d.style.flex_basis;
  }

  -- `LayoutTree::build_node`, with the next id that taffy gives: the children come first.
  unfoldable mutual
    pub build_node : LayoutNode F → ℕ → TaffyNode F × ℕ
    build_node (layout_node d ns) next =
        let (children, id) = build_nodes ns next in
        (taffy id d.style (some (context_of d)) children, id + 1)

    pub build_nodes : LayoutNodes F → ℕ → TaffyNodes F × ℕ
    build_nodes nil next = (no_nodes, next)
    build_nodes (cons n ns) next =
        let (child, next') = build_node n next in
        let (rest, next'') = build_nodes ns next' in (more child rest, next'')

-- The style and the context of the leaf that `process_leaves` puts under a leaf: taffy's defaults but
-- for the basis and the margin.
pub record LeafDefaults (F : Type 0) : Type 0 where
  pub style : Style F
  pub full_basis : F
  pub no_margin : Margin F
  pub context : NodeContext F

module _ {F : Type 0} (d : LeafDefaults F) where
  -- `LayoutTree::process_leaves`.
  unfoldable mutual
    pub process_leaves : TaffyNode F → ℕ → TaffyNode F × ℕ
    process_leaves (taffy id style context no_nodes) next =
        let leaf_style : Style F = record d.style {
          margin = style.margin;
          flex_basis = d.full_basis;
        } in
        (
          taffy id (record style { margin = d.no_margin }) context
              (more (taffy next leaf_style (some d.context) no_nodes) no_nodes),
          next + 1,
        )
    process_leaves (taffy id style context (more n ns)) next =
        let (child, next') = process_leaves n next in
        let (rest, next'') = process_all ns next' in
        (taffy id style context (more child rest), next'')

    pub process_all : TaffyNodes F → ℕ → TaffyNodes F × ℕ
    process_all no_nodes next = (no_nodes, next)
    process_all (more n ns) next =
        let (child, next') = process_leaves n next in
        let (rest, next'') = process_all ns next' in (more child rest, next'')

pub record LayoutTree (F : Type 0) : Type 0 where
  pub root : LayoutNode F
  pub taffy_root : TaffyNode F

module _ {F : Type 0} (d : LeafDefaults F) where
  -- `LayoutTree::new`; the root of the taffy tree has a style of its own and no context.
  unfoldable pub new_tree : LayoutNode F → LayoutTree F
  unfolding build_node process_leaves
  new_tree root =
      let (built, next) = build_node root 0 in
      let (processed, id) = process_leaves d built next in
      record { root = root; taffy_root = taffy id d.style none (more processed no_nodes) }
