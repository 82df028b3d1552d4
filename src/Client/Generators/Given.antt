-- ===== src/Client/Generators/Given.antt =====
-- api/rust/src/layout/generators.rs, src/api/layout/v1.rs, src/layout/tree.rs: from a generator's tree in
-- the client to the windows' geometries in the compositor.
use pinnacle.Common.{
  Bool, true, false, ℕ, zero, suc, ◌<◌, ◌≡◌, refl, List, some, length, arith, ◌∙◌, Bool-cases, inl,
  inr, leb, ◌/◌, ◌==◌,
}
use pinnacle.Geometry.{Rectangle}
use pinnacle.Layout.Tree.{LayoutNode, LeafDefaults, new_tree}
use pinnacle.Layout.Tree.Walk.{Placed, Rounding, compute_geos}
use pinnacle.Layout.Tree.Built.{compute_geos_lem}
use pinnacle.Layout.Received.{try_from}
use pinnacle.Client.Node.{Node, node, nil, cons, Floats}
use pinnacle.Client.Sent.{
  api_node, meant, meant_all, node_tiles, tile_count-meant, try_from-api_node,
}
use pinnacle.Client.Generators.{
  Line, MasterStack, Dwindle, Spiral, Corner, line_layout, master_stack_layout, dwindle_layout,
  spiral_layout, corner_layout, floating_layout, master_first, corner_is_left,
}
use pinnacle.Client.Generators.Tiles.{
  node_tiles-line_layout, node_tiles-master_stack_layout, node_tiles-dwindle_layout,
  node_tiles-spiral_layout, node_tiles-corner_layout, node_tiles-no_masters,
}

-- The generators of the library but for `Fair`, which may panic, and `Cycle`, which holds others.
pub data Generator (F : Type 0) : Type 0 where
  line : Line F → Generator F
  master_stack : MasterStack F → Generator F
  dwindle : Dwindle F → Generator F
  spiral : Spiral F → Generator F
  corner : Corner F → Generator F
  floating : Generator F

module _ {F : Type 0} ⦃fl : Floats F⦄ where
  unfoldable pub generate : Generator F → ℕ → Node F
  unfolding line_layout master_stack_layout dwindle_layout spiral_layout corner_layout
      floating_layout
  generate (line g) n = line_layout g n
  generate (master_stack g) n = master_stack_layout g n
  generate (dwindle g) n = dwindle_layout g n
  generate (spiral g) n = spiral_layout g n
  generate (corner g) n = corner_layout g n
  generate floating n = floating_layout

-- A generator that means to make a tile for every window: a master stack without masters does not, and
-- neither does `Floating`, which leaves all windows to be spilled.
abbrev pub FillsTiles : {F : Type 0} → Generator F → Type 0
FillsTiles (line g) = Unit
FillsTiles (master_stack g) = 0 < g.master_count
FillsTiles (dwindle g) = Unit
FillsTiles (spiral g) = Unit
FillsTiles (corner g) = Unit
FillsTiles floating = ⊥

module _ {F : Type 0} ⦃fl : Floats F⦄ where
  -- The layout that such a generator makes for one window or more has as many nodes with no children as there
  -- are windows.
  pub node_tiles-generate :
      (g : Generator F) (n : ℕ) → FillsTiles g → node_tiles (generate g (suc n)) ≡ suc n
  unfolding generate
  node_tiles-generate (line g) n h = node_tiles-line_layout g n
  node_tiles-generate (master_stack g) n h = node_tiles-master_stack_layout g n h
  node_tiles-generate (dwindle g) n h = node_tiles-dwindle_layout g n
  node_tiles-generate (spiral g) n h = node_tiles-spiral_layout g n
  node_tiles-generate (corner g) n h = node_tiles-corner_layout g n
  node_tiles-generate floating n h = absurd h

  abbrev is_floating_one : Generator F → Bool
  is_floating_one floating = true
  is_floating_one _ = false

  abbrev HasChildren : Node F → Type 0
  HasChildren (node d nil) = ⊥
  HasChildren (node d (cons n ns)) = Unit

  generate-HasChildren :
      (g : Generator F) (n : ℕ) → is_floating_one g ≡ false → HasChildren (generate g (suc n))
  unfolding generate
  generate-HasChildren (line g) n h = elim (Bool-cases g.reversed) [
    | inl e ↦ rw e tt
    | inr e ↦ rw e tt
  ]
  generate-HasChildren (master_stack g) n h = elim (Bool-cases (leb (suc n) g.master_count)) [
    | inl e ↦ rw e tt
    | inr e ↦ elim (Bool-cases (master_first g.master_side)) [
      | inl f ↦ rw (e, f) tt
      | inr f ↦ rw (e, f) tt
    ]
  ]
  generate-HasChildren (dwindle g) zero h = tt
  generate-HasChildren (dwindle g) (suc zero) h = tt
  generate-HasChildren (dwindle g) (suc (suc n)) h = tt
  generate-HasChildren (spiral g) zero h = tt
  generate-HasChildren (spiral g) (suc zero) h = tt
  generate-HasChildren (spiral g) (suc (suc n)) h = tt
  generate-HasChildren (corner g) zero h = tt
  generate-HasChildren (corner g) (suc n) h = elim (Bool-cases (suc n / 2 == 0)) [
    | inl e ↦ elim (Bool-cases (corner_is_left g.corner_loc)) [
      | inl f ↦ rw (e, f) tt
      | inr f ↦ rw (e, f) tt
    ]
    | inr e ↦ elim (Bool-cases (corner_is_left g.corner_loc)) [
      | inl f ↦ rw (e, f) tt
      | inr f ↦ rw (e, f) tt
    ]
  ]
  generate-HasChildren floating n h = cc

  not_floating : (g : Generator F) → FillsTiles g → is_floating_one g ≡ false
  not_floating (line g) h = refl
  not_floating (master_stack g) h = refl
  not_floating (dwindle g) h = refl
  not_floating (spiral g) h = refl
  not_floating (corner g) h = refl
  not_floating floating h = absurd h

  given_to :
      (rounding : Rounding F) (layout : ℕ → Placed F) (d : LeafDefaults F) (zero_f one_f : F)
      (t : Node F) (k rounds : ℕ)
      → HasChildren t
      → node_tiles t ≡ k
      → k < rounds
      → (root : LayoutNode F) × (gs : List (Rectangle × ℕ)) × (try_from zero_f one_f (api_node t)
          ≡ some root)
        × (compute_geos rounding layout rounds (new_tree d root) ≡ some gs)
        × (length gs ≡ k)
  unfolding meant
  given_to rounding layout d zero_f one_f (node n nil) k rounds c e h = absurd c
  given_to rounding layout d zero_f one_f (node n (cons m ms)) k rounds c e h =
      let t = node n (cons m ms) in
      let count = tile_count-meant one_f t in
      let (gs, r, l, every, distinct) =
        compute_geos_lem rounding layout d (meant one_f t) (meant one_f m) (meant_all one_f ms)
          rounds refl (omega (arith, count, e)) in
      (meant one_f t, gs, (try_from-api_node zero_f one_f t).0, r, l ∙ count ∙ e)

  -- From the client to the compositor: the tree of such a generator for one window or more arrives, whatever
  -- its gaps and factors are; with more rounds than windows `compute_geos` ends, whatever taffy places
  -- where; and it gives out exactly one geometry for each window.
  pub generate_given_out :
      (rounding : Rounding F) (layout : ℕ → Placed F) (d : LeafDefaults F) (zero_f one_f : F)
      (g : Generator F) (n rounds : ℕ)
      → FillsTiles g
      → suc n < rounds
      → (root : LayoutNode F) × (gs : List (Rectangle × ℕ)) × (try_from zero_f one_f
            (api_node (generate g (suc n)))
          ≡ some root)
        × (compute_geos rounding layout rounds (new_tree d root) ≡ some gs)
        × (length gs ≡ suc n)
  generate_given_out rounding layout d zero_f one_f g n rounds m h =
      given_to rounding layout d zero_f one_f (generate g (suc n)) (suc n) rounds
        (generate-HasChildren g n (not_floating g m)) (node_tiles-generate g n m) h

  -- A master stack with no masters gives out one geometry more than there are windows: its empty master
  -- side is a tile as well.
  pub no_masters_given_out :
      (rounding : Rounding F) (layout : ℕ → Placed F) (d : LeafDefaults F) (zero_f one_f : F)
      (g : MasterStack F) (n rounds : ℕ)
      → g.master_count ≡ 0
      → suc (suc n) < rounds
      → (root : LayoutNode F) × (gs : List (Rectangle × ℕ)) × (try_from zero_f one_f
            (api_node (master_stack_layout g (suc n)))
          ≡ some root)
        × (compute_geos rounding layout rounds (new_tree d root) ≡ some gs)
        × (length gs ≡ suc (suc n))
  unfolding generate
  no_masters_given_out rounding layout d zero_f one_f g n rounds m h =
      given_to rounding layout d zero_f one_f (master_stack_layout g (suc n)) (suc (suc n)) rounds
        (generate-HasChildren (master_stack g) n refl) (node_tiles-no_masters g n m) h
