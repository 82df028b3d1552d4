-- ===== src/Client/Generators/Tiles.antt =====
-- api/rust/src/layout/generators.rs: the number of tiles that each layout has.
use pinnacle.Common.{
  ℕ, zero, suc, ◌+◌, ◌-◌, ◌/◌, ◌<◌, ◌≡◌, refl, false, Bool-cases, inl, inr, leb, min, ◌==◌, arith,
  ap, ap₂, ◌∙◌,
}
use pinnacle.Client.Node.{
  relabel, row, column, Gaps, LayoutNodeInner, Node, Nodes, node, nil, cons, Floats, one_child,
  two_children,
}
use pinnacle.Client.Generators.{
  corner_node, master_line, corner_line, corner_arranged, corner_stacked, as_part, Line,
  MasterStack, Dwindle, Spiral, Corner, line_tiles, line_tiles_reversed, line_layout,
  master_stack_layout, dwindle_splits, dwindle_layout, spiral_splits, splits_second, spiral_layout,
  corner_layout, master_first, corner_is_left, corner_is_top,
}
use pinnacle.Layout.Tree.{Label}
use pinnacle.Client.Sent.{node_tiles, nodes_tiles}

min_pos : (a n : ℕ) → 0 < a → 0 < min a (suc n)
min_pos a n h = ground arith

module _ {F : Type 0} ⦃fl : Floats F⦄ where
  nodes_tiles-line_tiles : (g : Gaps F) (from n : ℕ) → nodes_tiles (line_tiles g from n) ≡ n
  unfolding node_tiles
  nodes_tiles-line_tiles g from zero = refl
  nodes_tiles-line_tiles g from (suc n) = omega (arith, nodes_tiles-line_tiles g (from + 1) n)

  nodes_tiles-line_tiles_reversed : (g : Gaps F) (n : ℕ) → nodes_tiles (line_tiles_reversed g n) ≡ n
  unfolding node_tiles
  nodes_tiles-line_tiles_reversed g zero = refl
  nodes_tiles-line_tiles_reversed g (suc n) = omega (arith, nodes_tiles-line_tiles_reversed g n)

  -- A node with children has their tiles.
  pub node_tiles-node :
      (d : LayoutNodeInner F) (ns : Nodes F) (k : ℕ)
      → nodes_tiles ns ≡ suc k
      → node_tiles (node d ns) ≡ suc k
  unfolding node_tiles
  node_tiles-node d nil k e = absurd (omega (arith, e))
  node_tiles-node d (cons n ns) k e = e

  pub node_tiles-line_layout : (l : Line F) (n : ℕ) → node_tiles (line_layout l (suc n)) ≡ suc n
  unfolding line_layout
  node_tiles-line_layout l n = elim (Bool-cases l.reversed) [
    | inl e ↦ rw e (node_tiles-node _ _ n (nodes_tiles-line_tiles_reversed l.inner_gaps (suc n)))
    | inr e ↦ rw e (node_tiles-node _ _ n (nodes_tiles-line_tiles l.inner_gaps 0 (suc n)))
  ]

  pub node_tiles-relabel :
      (label : Label) (index : ℕ) (p : F) (n : Node F)
      → node_tiles (relabel label index p n) ≡ node_tiles n
  unfolding node_tiles
  node_tiles-relabel label index p (node d nil) = refl
  node_tiles-relabel label index p (node d (cons n ns)) = refl

  node_tiles-as_part :
      (p : F) (index : ℕ) (n : Node F) → node_tiles (as_part p index n) ≡ node_tiles n
  unfolding node_tiles
  node_tiles-as_part p index (node d nil) = refl
  node_tiles-as_part p index (node d (cons n ns)) = refl

  pub nodes_tiles-one_child :
      (d : LayoutNodeInner F) (n : Node F) → node_tiles (node d (one_child n)) ≡ node_tiles n
  unfolding node_tiles
  nodes_tiles-one_child d n = omega arith

  pub nodes_tiles-two_children :
      (d : LayoutNodeInner F) (n m : Node F)
      → node_tiles (node d (two_children n m)) ≡ node_tiles n + node_tiles m
  unfolding node_tiles
  nodes_tiles-two_children d n m = omega arith

  pub node_tiles-leaf : (d : LayoutNodeInner F) → node_tiles (node d nil) ≡ 1
  unfolding node_tiles
  node_tiles-leaf d = refl

  -- Two children, one of which has no children itself.
  leaf_pair : (a b : LayoutNodeInner F) → nodes_tiles (two_children (node a nil) (node b nil)) ≡ 2
  unfolding node_tiles
  leaf_pair a b = refl

  first_alone :
      (a b : LayoutNodeInner F) (ns : Nodes F) (k : ℕ)
      → nodes_tiles ns ≡ suc k
      → nodes_tiles (two_children (node a nil) (node b ns)) ≡ suc (suc k)
  unfolding node_tiles
  first_alone a b ns k e = omega (arith, node_tiles-node b ns k e)

  second_alone :
      (a b : LayoutNodeInner F) (ns : Nodes F) (k : ℕ)
      → nodes_tiles ns ≡ suc k
      → nodes_tiles (two_children (node a ns) (node b nil)) ≡ suc (suc k)
  unfolding node_tiles
  second_alone a b ns k e = omega (arith, node_tiles-node a ns k e)

  nodes_tiles-dwindle_splits :
      (g : Gaps F) (i n : ℕ) → nodes_tiles (dwindle_splits g i (suc n)) ≡ suc (suc n)
  nodes_tiles-dwindle_splits g i zero = leaf_pair _ _
  nodes_tiles-dwindle_splits g i (suc n) =
      first_alone _ _ _ (suc n) (nodes_tiles-dwindle_splits g (i + 1) n)

  pub node_tiles-dwindle_layout :
      (d : Dwindle F) (n : ℕ) → node_tiles (dwindle_layout d (suc n)) ≡ suc n
  unfolding dwindle_layout
  node_tiles-dwindle_layout d zero = nodes_tiles-one_child _ _ ∙ node_tiles-leaf _
  node_tiles-dwindle_layout d (suc n) =
      node_tiles-node _ _ (suc n) (nodes_tiles-dwindle_splits d.inner_gaps 0 n)

  nodes_tiles-spiral_splits :
      (g : Gaps F) (i n : ℕ) → nodes_tiles (spiral_splits g i (suc n)) ≡ suc (suc n)
  nodes_tiles-spiral_splits g i zero = leaf_pair _ _
  nodes_tiles-spiral_splits g i (suc n) =
      let inside = nodes_tiles-spiral_splits g (i + 1) n in
      elim (Bool-cases (splits_second i)) [
        | inl e ↦ rw e (first_alone _ _ _ (suc n) inside)
        | inr e ↦ rw e (second_alone _ _ _ (suc n) inside)
      ]

  pub node_tiles-spiral_layout :
      (d : Spiral F) (n : ℕ) → node_tiles (spiral_layout d (suc n)) ≡ suc n
  unfolding spiral_layout
  node_tiles-spiral_layout d zero = nodes_tiles-one_child _ _ ∙ node_tiles-leaf _
  node_tiles-spiral_layout d (suc n) =
      node_tiles-node _ _ (suc n) (nodes_tiles-spiral_splits d.inner_gaps 0 n)

  pub node_tiles-line : (l : Line F) (n : ℕ) → 0 < n → node_tiles (line_layout l n) ≡ n
  node_tiles-line l zero h = absurd (omega arith)
  node_tiles-line l (suc n) h = node_tiles-line_layout l n

  -- Where there are more windows than masters, the tiles are those of both sides.
  both_sides :
      (m : MasterStack F) (n a b : ℕ)
      → leb (suc n) m.master_count ≡ false
      → node_tiles (line_layout (master_line m) (min m.master_count (suc n))) ≡ a
      → node_tiles (line_layout (master_line m) (suc n - min m.master_count (suc n))) ≡ b
      → node_tiles (master_stack_layout m (suc n)) ≡ a + b
  unfolding master_stack_layout
  both_sides m n a b e master stack = elim (Bool-cases (master_first m.master_side)) [
    | inl f ↦
        rw (e, f)
          (nodes_tiles-two_children _ _ _
            ∙ ap₂ ◌+◌ (node_tiles-relabel _ _ _ _ ∙ master) (node_tiles-relabel _ _ _ _ ∙ stack))
    | inr f ↦
        rw (e, f)
          (nodes_tiles-two_children _ _ _
            ∙ ap₂ ◌+◌ (node_tiles-relabel _ _ _ _ ∙ stack) (node_tiles-relabel _ _ _ _ ∙ master)
            ∙ omega arith)
  ]

  pub node_tiles-master_stack_layout :
      (m : MasterStack F) (n : ℕ)
      → 0 < m.master_count
      → node_tiles (master_stack_layout m (suc n)) ≡ suc n
  unfolding master_stack_layout
  node_tiles-master_stack_layout m n h =
      let master = node_tiles-line (master_line m) (min m.master_count (suc n)) (min_pos _ n h) in
      elim (Bool-cases (leb (suc n) m.master_count)) [
        | inl e ↦
            rw e
              (nodes_tiles-one_child _ _ ∙ node_tiles-relabel _ _ _ _ ∙ master ∙ ground (arith, e))
        | inr e ↦
            let stack =
              node_tiles-line (master_line m) (suc n - min m.master_count (suc n))
                (ground (arith, e)) in
            both_sides m n _ _ e master stack ∙ ground (arith, e)
      ]

  node_tiles-no_line : (l : Line F) (k : ℕ) → k ≡ 0 → node_tiles (line_layout l k) ≡ 1
  unfolding line_layout
  node_tiles-no_line l (suc k) e = absurd (omega (arith, e))
  node_tiles-no_line l zero e = elim (Bool-cases l.reversed) [
    | inl f ↦ rw f (node_tiles-leaf _)
    | inr f ↦ rw f (node_tiles-leaf _)
  ]

  -- With no windows on the master's side, that side is still a node with no children, and so a tile.
  pub node_tiles-no_masters :
      (m : MasterStack F) (n : ℕ)
      → m.master_count ≡ 0
      → node_tiles (master_stack_layout m (suc n)) ≡ suc (suc n)
  node_tiles-no_masters m n h =
      let masters : min m.master_count (suc n) ≡ 0 = ground (arith, h) in
      let stacked : suc n - min m.master_count (suc n) ≡ suc n = omega (arith, masters) in
      both_sides m n 1 (suc n) (ground (arith, h)) (node_tiles-no_line (master_line m) _ masters) (
        ap (λ k. node_tiles (line_layout (master_line m) k)) stacked
        ∙ node_tiles-line_layout (master_line m) n)
      ∙ omega arith

  node_tiles-corner_arranged :
      (d : LayoutNodeInner F) (c : Corner F) (side vert : Node F)
      → node_tiles (node d (corner_arranged c side vert)) ≡ node_tiles side + node_tiles vert
  node_tiles-corner_arranged d c side vert = elim (Bool-cases (corner_is_left c.corner_loc)) [
    | inl e ↦ rw e (nodes_tiles-two_children d side vert)
    | inr e ↦ rw e (omega (arith, nodes_tiles-two_children d vert side))
  ]

  node_tiles-corner_stacked :
      (d : LayoutNodeInner F) (c : Corner F) (horiz : Node F)
      → node_tiles (node d (corner_stacked c horiz)) ≡ suc (node_tiles horiz)
  node_tiles-corner_stacked d c horiz =
      let leaf : node_tiles (corner_node c) ≡ 1 = node_tiles-leaf _ in
      elim (Bool-cases (corner_is_top c.corner_loc)) [
        | inl e ↦ rw e (omega (arith, leaf, nodes_tiles-two_children d (corner_node c) horiz))
        | inr e ↦ rw e (omega (arith, leaf, nodes_tiles-two_children d horiz (corner_node c)))
      ]

  pub node_tiles-corner_layout :
      (c : Corner F) (n : ℕ) → node_tiles (corner_layout c (suc n)) ≡ suc n
  unfolding corner_layout
  node_tiles-corner_layout c zero = nodes_tiles-one_child _ _ ∙ node_tiles-leaf _
  node_tiles-corner_layout c (suc n) =
      let vert = node_tiles-line (corner_line c column) ((suc n + 1) / 2) (omega arith) in
      elim (Bool-cases (suc n / 2 == 0)) [
        | inl e ↦ rw e (
            node_tiles-corner_arranged _ c _ _
            ∙ ap₂ ◌+◌ (node_tiles-leaf _) (node_tiles-as_part _ _ _ ∙ vert)
            ∙ ground (arith, e))
        | inr e ↦
            let horiz = node_tiles-line (corner_line c row) (suc n / 2) (ground (arith, e)) in
            rw e (
              node_tiles-corner_arranged _ c _ _
              ∙ ap₂ ◌+◌
                  (node_tiles-corner_stacked _ c _ ∙ ap suc (node_tiles-as_part _ _ _ ∙ horiz))
                  (node_tiles-as_part _ _ _ ∙ vert)
              ∙ omega arith)
      ]
