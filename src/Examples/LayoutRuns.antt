-- ===== src/Examples/LayoutRuns.antt =====
-- Layouts of the client library and what `compute_geos` gives out of them, with numbers for floats.
use native.Mathlib.Nat.{lt-div-mul-add, div-mul-le_self}
use pinnacle.Common.{
  zero, suc, ◌*◌, ◌/◌, ◌-◌, ◌<◌, ◌≤◌, leb, ℕ, ◌+◌, ◌-◌, ◌*◌, ◌/◌, ◌≤◌, ◌<◌, ◌≡◌, refl, arith, false,
  List, [], ◌∷◌, Option, none, some, length, Distinct, ltb, if◌then◌else◌, min,
}
use pinnacle.Common.Int.{pos}
use pinnacle.Geometry.{Rectangle}
use pinnacle.Layout.Tree.{
  row, Margin, Style, LayoutNodeData, LayoutNode, layout_node, nil, cons, LeafDefaults, new_tree,
  build_node,
}
use pinnacle.Layout.Tree.{TaffyNode, taffy, more, no_nodes, process_leaves}
use pinnacle.Layout.Tree.Leaves.{unprocess_leaves, unprocess_leaves-process_leaves}
use pinnacle.Layout.Tree.Walk.{Placed, Rounding, compute_geos}
use pinnacle.Layout.Tree.Walk.Visits.{parents}
use pinnacle.Layout.Tree.Walk.Rounds.{occurrences}
use pinnacle.Layout.Tree.Built.{tile_count, leaf_ids, compute_geos_lem}
use pinnacle.Layout.Received.{try_from}
use pinnacle.Client.Node.{Floats, uniform, Node}
use pinnacle.Client.Sent.{api_node, meant, node_tiles, try_from-api_node}
use pinnacle.Client.Generators.{MasterStack, left, master_stack_layout}
use pinnacle.Client.Generators.Fair.{Fair, vertical, Quotients, fair_layout}
use pinnacle.Client.Generators.Fair.Tiles.{IsRounded, fair_layout_lem}
use pinnacle.Client.Generators.Given.{no_masters_given_out}
use pinnacle.Client.Cycle.{
  Cycle, index_for, cycle_layout_forward, cycle_layout_backward, current_layout, current_tree_id,
}
use pinnacle.Client.Cycle.Laws.{InRange, cycle_round_trip}
use pinnacle.Client.Cycle.Reached.{go_on, go_on_reaches}
use pinnacle.Client.Cycle.TreeId.{current_tree_id_lem}

instance abbrev pub whole_numbers : Floats ℕ
whole_numbers = record {
  zero_f32 = 0;
  one_f32 = 10;
  ten = 10;
  tenth = 1;
  nine_tenths = 9;
  times = λ a b. a * b / 10;
  minus = λ a b. a - b;
  clamp = λ a lo hi. if ltb a lo then lo else min a hi;
}

abbrev pub rounding : Rounding ℕ
rounding = record {
  zero_f64 = 0;
  plus = λ a b. a + b;
  to_i32_round = λ x y w h. record {
    loc = record { x = pos x; y = pos y };
    size = record { w = pos w; h = pos h };
  };
}

abbrev pub side_by_side : ℕ → Placed ℕ
side_by_side n = record { x = n * 10; y = 0; width = 10; height = 10 }

abbrev margin : Margin ℕ
margin = record { left = 0; right = 0; top = 0; bottom = 0 }

abbrev plain : Style ℕ
plain = record { flex_direction = row; flex_basis = 10; flex_grow = 0; margin = margin }

abbrev pub defaults : LeafDefaults ℕ
defaults = record {
  style = plain;
  full_basis = 10;
  no_margin = margin;
  context = record { traversal_index = 0; traversal_overrides = []; original_flex_basis = 0 };
}

abbrev at_index : ℕ → List (ℕ × List ℕ) → LayoutNodeData ℕ
at_index i overrides = record {
  label = none;
  traversal_index = i;
  traversal_overrides = overrides;
  style = plain;
}

abbrev alone : ℕ → LayoutNode ℕ
alone i = layout_node (at_index i []) nil

-- A node with two leaves, and then a leaf; the third window is to begin at the second child.
abbrev two_and_one : LayoutNode ℕ
two_and_one =
    layout_node (at_index 0 ((2, 1 ∷ []) ∷ [])) (
      cons (layout_node (at_index 0 []) (cons (alone 0) (cons (alone 1) nil))) (cons (alone 1) nil))

-- It is the second window that begins there: the root's counter has gone on by two for the first.
abbrev parents_of : Option (List (Rectangle × ℕ)) → List ℕ
parents_of none = []
parents_of (some gs) = parents gs

overrides_of_every_other :
    parents_of (compute_geos rounding side_by_side 4 (new_tree defaults two_and_one))
    ≡ 0 ∷ 3 ∷ 1 ∷ []
unfolding compute_geos new_tree
overrides_of_every_other = refl

compute_geos_lem_example :
    (gs : List (Rectangle × ℕ)) × (compute_geos rounding side_by_side 4
        (new_tree defaults two_and_one)
      ≡ some gs)
    × (length gs ≡ tile_count two_and_one)
    × ((a : ℕ) → occurrences a (parents gs) ≡ occurrences a (leaf_ids (build_node two_and_one 0).0))
    × Distinct (leaf_ids (build_node two_and_one 0).0)
unfolding tile_count
compute_geos_lem_example =
    compute_geos_lem rounding side_by_side defaults two_and_one
      (layout_node (at_index 0 []) (cons (alone 0) (cons (alone 1) nil))) (cons (alone 1) nil) 4
      refl (omega arith)

abbrev pub masters : ℕ → MasterStack ℕ
masters n = record {
  outer_gaps = uniform 4;
  inner_gaps = uniform 4;
  master_factor = 5;
  master_side = left;
  master_count = n;
  reversed = false;
}

tiles_of_three : node_tiles (master_stack_layout (masters 1) 3) ≡ 3
unfolding master_stack_layout node_tiles
tiles_of_three = refl

try_from-api_node_example :
    (try_from 0 1 (api_node (master_stack_layout (masters 1) 3))
      ≡ some (meant 1 (master_stack_layout (masters 1) 3)))
    × (tile_count (meant 1 (master_stack_layout (masters 1) 3))
        ≡ node_tiles (master_stack_layout (masters 1) 3))
try_from-api_node_example = try_from-api_node 0 1 (master_stack_layout (masters 1) 3)

no_masters_given_out_example :
    (root : LayoutNode ℕ) × (gs : List (Rectangle × ℕ)) × (try_from 0 1
        (api_node (master_stack_layout (masters 0) 3))
      ≡ some root)
    × (compute_geos rounding side_by_side 5 (new_tree defaults root) ≡ some gs)
    × (length gs ≡ 4)
no_masters_given_out_example =
    no_masters_given_out rounding side_by_side defaults 0 1 (masters 0) 2 5 refl (omega arith)

-- The root of a number, rounded: the numbers from 1 to `most` less a half that it reaches are counted.
abbrev roots_up_to : (most n : ℕ) → ℕ
roots_up_to zero n = 0
roots_up_to (suc k) n =
    let below = roots_up_to k n in
    if leb ((2 * k + 1) * (2 * k + 1)) (4 * n) then below + 1 else below

root_of_five : roots_up_to 10 5 ≡ 2
root_of_five = refl

roots_bound : (most n : ℕ) → roots_up_to most n ≤ most
roots_bound zero n = omega arith
roots_bound (suc k) n = ground (arith, roots_bound k n)

abbrev quotients : Quotients
quotients = record {
  sqrt_round = roots_up_to 4096;
  quotient_ceil = λ i most. (i + (most - 1)) / most;
}

quotients-IsRounded : IsRounded quotients
quotients-IsRounded = record {
  root = λ n h. roots_bound 4096 n;
  enough = λ i most h p b.
      let n = i + (most - 1) in
      let e : n < n / most * most + most = lt-div-mul-add p in omega (arith, p, e);
  least = λ i most h p b. omega (arith, p, div-mul-le_self (i + (most - 1)) most);
}

fair : Fair ℕ
fair = record { outer_gaps = uniform 4; inner_gaps = uniform 4; axis = vertical }

fair_layout_lem_example :
    (t : Node ℕ) × (fair_layout quotients fair 4 ≡ some t) × (node_tiles t ≡ 4)
fair_layout_lem_example = fair_layout_lem quotients fair 3 quotients-IsRounded (omega arith)

abbrev cycle : Cycle ℕ
cycle = record { layouts = 7 ∷ 8 ∷ 9 ∷ []; tag_indices = (1, 2) ∷ []; current_tag = some 1 }

indices_fit : InRange cycle
unfolding InRange
indices_fit tag = ground arith

cycle_round_trip_example :
    (index_for (cycle_layout_backward (cycle_layout_forward cycle 1) 1) 1 ≡ index_for cycle 1)
    × (index_for (cycle_layout_forward (cycle_layout_backward cycle 1) 1) 1 ≡ index_for cycle 1)
cycle_round_trip_example = cycle_round_trip cycle 1 1 indices_fit

go_on_reaches_example :
    (k : ℕ) × (k ≤ 3)
    × (index_for (go_on k cycle 1) 1 ≡ 1)
    × (current_layout (go_on k cycle 1) 1 ≡ some 8)
go_on_reaches_example = go_on_reaches cycle 1 1 indices_fit (omega arith)

current_tree_id_lem_example :
    (0 < current_tree_id cycle)
    × (current_tree_id cycle < 4294967296)
    × (current_tree_id cycle ≡ current_tree_id cycle → (◌≡◌ {A = ℕ} 1 1) × (◌≡◌ {A = ℕ} 2 2))
current_tree_id_lem_example =
    current_tree_id_lem cycle cycle (omega arith) (omega arith) (omega arith) (omega arith)

-- A taffy tree of a node with two leaves, made from a layout.
abbrev built : TaffyNode ℕ
built =
    taffy 2 plain none
      (more (taffy 0 plain none no_nodes) (more (taffy 1 plain none no_nodes) no_nodes))

unprocess_leaves-process_leaves_example :
    unprocess_leaves (process_leaves defaults built 3).0 ≡ built
unprocess_leaves-process_leaves_example = unprocess_leaves-process_leaves defaults built 3
