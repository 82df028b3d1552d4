-- ===== src/Client/Node.antt =====
-- api/rust/src/layout.rs: the nodes of a layout as a client builds them. A node is an `Rc`; a node that
-- is changed after it became a child is built here with the change. Gaps and proportions are `f32`s, of
-- the type `F`.
use Prim.Native.String.{String}
use pinnacle.Common.{ℕ, List, [], Option, none, some}
use pinnacle.Layout.Tree.{Label, text}

pub data LayoutDir : Type 0 where
  row column : LayoutDir

pub record Gaps (F : Type 0) : Type 0 where
  pub left : F
  pub right : F
  pub top : F
  pub bottom : F

pub record NodeStyle (F : Type 0) : Type 0 where
  pub layout_dir : LayoutDir
  pub gaps : Gaps F
  pub size_proportion : F

pub record LayoutNodeInner (F : Type 0) : Type 0 where
  pub label : Option Label
  pub traversal_index : ℕ
  pub traversal_overrides : List (ℕ × List ℕ)
  pub style : NodeStyle F

mutual
  pub data Node (F : Type 0) : Type 0 where
    node : LayoutNodeInner F → Nodes F → Node F

  pub data Nodes (F : Type 0) : Type 0 where
    nil : Nodes F
    cons : Node F → Nodes F → Nodes F

-- The operations on `f32` that the generators use.
pub record Floats (F : Type 0) : Type 0 where
  pub zero_f32 : F
  pub one_f32 : F
  pub ten : F
  pub tenth : F
  pub nine_tenths : F
  pub times : F → F → F
  pub minus : F → F → F
  pub clamp : F → F → F → F

module _ {F : Type 0} where
  -- `Gaps::from(f32)`.
  abbrev pub uniform : F → Gaps F
  uniform f = record { left = f; right = f; top = f; bottom = f }

  module _ ⦃fl : Floats F⦄ where
    -- `LayoutNodeInner::new`, of which the constructors of `LayoutNode` are instances.
    abbrev pub new_inner : Option Label → ℕ → LayoutNodeInner F
    new_inner label index = record {
      label = label;
      traversal_index = index;
      traversal_overrides = [];
      style = record { layout_dir = row; gaps = uniform fl.zero_f32; size_proportion = fl.one_f32 };
    }

    abbrev pub new_with_label : String → LayoutNodeInner F
    new_with_label label = new_inner (some (text label)) 0

    abbrev pub new_with_traversal_index : ℕ → LayoutNodeInner F
    new_with_traversal_index index = new_inner none index

  -- The setters of a node's style.
  abbrev pub set_dir : LayoutDir → LayoutNodeInner F → LayoutNodeInner F
  set_dir dir n = record n { style = record n.style { layout_dir = dir } }

  abbrev pub set_gaps : Gaps F → LayoutNodeInner F → LayoutNodeInner F
  set_gaps gaps n = record n { style = record n.style { gaps = gaps } }

  abbrev pub set_size_proportion : F → LayoutNodeInner F → LayoutNodeInner F
  set_size_proportion p n = record n { style = record n.style { size_proportion = p } }

  -- The setters of a node that has children.
  abbrev pub relabel : Label → ℕ → F → Node F → Node F
  relabel label index p (node n ns) =
      node (record (set_size_proportion p n) { label = some label; traversal_index = index }) ns

  abbrev pub one_child : Node F → Nodes F
  one_child n = cons n nil

  abbrev pub two_children : Node F → Node F → Nodes F
  two_children n m = cons n (cons m nil)
